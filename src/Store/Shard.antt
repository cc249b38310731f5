-- ===== src/Store/Shard.antt =====
-- The state of a shard, internal/store/shard.go.
use kvstore.Prelude.{
  ℕ, ◌+◌, ◌%◌, ◌^◌, Bool, true, false, Option, none, some, List, [], ◌==◌, key_eq, if◌then◌else◌,
}
use kvstore.Store.Lru.{Links, no_links}
use kvstore.Store.Slots.{Slice, no_items}

abbrev pub Key : Type 0
Key = List ℕ

pub data Reason : Type 0 where
  expired evicted : Reason

pub data Policy : Type 0 where
  all_keys_lru volatile_lru no_eviction : Policy

-- An `*Entry` is an address, and each field of `Entry` is a function of the address; `fresh` is the
-- next address that is not in use. The fields `prev` and `next` stand in `lru`. The fields `slot`
-- and `ttlSlot` stand with their slices; `none` is the nil pointer and the index -1. `removed`
-- holds the calls of `onEvict`, oldest first. A limit of 0 is no limit, as `budget <= 0` is in the
-- source; the byte counts stay far below 2 ^ 63.
pub record Shard : Type 0 where
  pub key : ℕ → Key
  pub value : ℕ → List ℕ
  pub expire_at : ℕ → ℕ
  pub last_access : ℕ → ℕ
  pub size : ℕ → ℕ
  pub fresh : ℕ
  pub entries : Key → Option ℕ
  pub slots : Slice
  pub ttl_slots : Slice
  pub lru : Links
  pub exact_lru : Bool
  pub mem_bytes : ℕ
  pub budget : ℕ
  pub low_water : ℕ
  pub hits : ℕ
  pub misses : ℕ
  pub evictions : ℕ
  pub expirations : ℕ
  pub rng : ℕ
  pub policy : Policy
  pub sample_k : ℕ
  pub batch_max : ℕ
  pub removed : List (Key × Reason)

-- A write to, and a removal from, the map of entries.
abbrev pub assign {ℓ} : {A : Type ℓ} → (Key → Option A) → Key → Option A → Key → Option A
assign m k v j = if key_eq k j then v else m j

-- `Add(1)` on an atomic uint64.
abbrev pub count : ℕ → ℕ
count n = (n + 1) % 2 ^ 64

abbrev pub is_some {ℓ} : {A : Type ℓ} → Option A → Bool
is_some none = false
is_some (some a) = true

-- newShard. The addresses that are not in use have the fields of a blank entry.
unfoldable pub new_shard : ℕ → ℕ → ℕ → Bool → Policy → Shard
new_shard sample_k batch_max seed exact_lru policy = record {
  key = λ _. [];
  value = λ _. [];
  expire_at = λ _. 0;
  last_access = λ _. 0;
  size = λ _. 0;
  fresh = 0;
  entries = λ _. none;
  slots = no_items;
  ttl_slots = no_items;
  lru = no_links;
  exact_lru = exact_lru;
  mem_bytes = 0;
  budget = 0;
  low_water = 0;
  hits = 0;
  misses = 0;
  evictions = 0;
  expirations = 0;
  rng = if seed % 2 == 0 then seed + 1 else seed;
  policy = policy;
  sample_k = sample_k;
  batch_max = batch_max;
  removed = [];
}
