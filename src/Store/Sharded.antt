-- ===== src/Store/Sharded.antt =====
-- The store of internal/store/store.go over its shards: routing, and each operation under the lock
-- of the shard that has the key. The engines (shard locks, a global lock, actors) differ in the
-- locking only. New's mask is the number of shards less one; an index outside of the slice would be
-- a panic, and is an address of its own here.
pub mod Local
pub mod Steps
pub mod Index
pub mod Traffic
pub mod Tests
use Prim.Native.Nat.{bit_and}
use kvstore.Prelude.{ℕ, ◌+◌, ◌-◌, ◌*◌, ◌/◌, Bool, Option, List, ltb, ◌==◌, if◌then◌else◌}
use kvstore.Store.Lru.{update}
use kvstore.Store.Random.{word}
use kvstore.Store.Hash.{hash64}
use kvstore.Store.Shard.{Shard, Key, Policy, new_shard}
use kvstore.Store.Operations
use kvstore.Store.Keyspace
use kvstore.Store.Keyspace.{Ttl, lookup, remove, set_expiry}

pub record Store : Type 0 where
  pub seed : ℕ
  pub mask : ℕ
  pub count : ℕ
  pub shards : ℕ → Shard

-- The options of New that its shards read, as withDefaults leaves them: at least one shard.
pub record Options : Type 0 where
  pub shards : ℕ
  pub seed : ℕ
  pub sample_k : ℕ
  pub evict_batch : ℕ
  pub exact_lru : Bool
  pub policy : Policy
  pub max_memory : ℕ
  pub low_water : ℕ

unfoldable pub with_budget : Options → Shard → Shard
with_budget o sh =
    let share = o.max_memory / o.shards in
    if ltb 0 o.max_memory
    then record sh { budget = if ltb share 1 then 1 else share; low_water = o.low_water / o.shards }
    else sh

unfoldable pub new_store : Options → Store
new_store o = record {
  seed = o.seed;
  mask = o.shards - 1;
  count = o.shards;
  shards = λ i. with_budget o (
      new_shard o.sample_k o.evict_batch (word (o.seed + i * 0x9E3779B97F4A7C15)) o.exact_lru
        o.policy);
}

-- shardFor
unfoldable pub route : ℕ → ℕ → ℕ → Key → ℕ
route seed mask count k = if count == 1 then 0 else bit_and (hash64 seed k) mask

abbrev pub shard_for : Store → Key → ℕ
shard_for s k = route s.seed s.mask s.count k

-- withWrite and withRead: a function on one shard.
abbrev pub with_shard {ℓ} : {A : Type ℓ} → Store → Key → (Shard → Shard × A) → Store × A
with_shard s k f =
    let i = shard_for s k in
    let (sh, a) = f (s.shards i) in (record s { shards = update s.shards i sh }, a)

unfoldable pub get : Store → Key → ℕ → ℕ → Store × Option (List ℕ)
get s k now_ms now_mono = with_shard s k (λ sh. lookup sh k now_ms now_mono)

unfoldable pub set : Store → Key → List ℕ → ℕ → ℕ → Store × Bool
set s k value expire_at now_mono =
    with_shard s k (λ sh. Operations.set sh k value expire_at now_mono)

unfoldable pub delete : Store → Key → ℕ → Store × Bool
delete s k now_ms = with_shard s k (λ sh. remove sh k now_ms)

unfoldable pub exists : Store → Key → ℕ → ℕ → Store × Bool
exists s k now_ms now_mono = with_shard s k (λ sh. Keyspace.exists sh k now_ms now_mono)

unfoldable pub expire : Store → Key → ℕ → ℕ → Store × Bool
expire s k expire_at now_ms = with_shard s k (λ sh. set_expiry sh k expire_at now_ms)

unfoldable pub ttl : Store → Key → ℕ → ℕ → Store × Option Ttl
ttl s k now_ms now_mono = with_shard s k (λ sh. Keyspace.ttl sh k now_ms now_mono)

-- Flush
unfoldable pub flush : Store → Store
flush s = record s { shards = λ i. Operations.flush (s.shards i) }
