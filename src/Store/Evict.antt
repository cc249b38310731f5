-- ===== src/Store/Evict.antt =====
-- Removal of an entry, the memory limit and eviction, from internal/store/shard.go.
use kvstore.Prelude.{
  ℕ, zero, suc, ◌+◌, ◌-◌, Bool, true, false, ◌&&◌, ◌||◌, Option, none, some, List, [], ◌∷◌, ◌++◌,
  ltb, leb, ◌==◌, key_eq, if◌then◌else◌, length,
}
use kvstore.Store.Lru.{lru_remove}
use kvstore.Store.Random.{intn}
use kvstore.Store.Shard.{Key, Shard, evicted, Policy, volatile_lru, no_eviction, assign, count}
use kvstore.Store.Slots.{cut, remove_ttl_slot}

-- removeEntryLocked with removeSlotLocked. The entry's size is subtracted from `mem_bytes`, which
-- is never below it.
unfoldable pub remove_entry : Shard → ℕ → Shard
remove_entry s r = record s {
  entries = assign s.entries (s.key r) none;
  slots = cut s.slots r;
  ttl_slots = remove_ttl_slot s.ttl_slots r;
  lru = if s.exact_lru then lru_remove s.lru r else s.lru;
  mem_bytes = s.mem_bytes - s.size r;
}

abbrev pub is_volatile : Policy → Bool
is_volatile volatile_lru = true
is_volatile _ = false

abbrev pub is_no_eviction : Policy → Bool
is_no_eviction no_eviction = true
is_no_eviction _ = false

-- The walk from the tail by `prev`, which takes as many steps as the list has entries; the fuel
-- is that number.
unfoldable pub walk_tail : ℕ → Shard → Key → Option ℕ → Option ℕ
walk_tail fuel s protect none = none
walk_tail zero s protect (some r) = none
walk_tail (suc fuel) s protect (some r) =
    let older = walk_tail fuel s protect (s.lru.prev r) in
    if key_eq (s.key r) protect || (is_volatile s.policy && s.expire_at r == 0)
    then older
    else some r

-- A sample replaces the best so far if there is none or if it was used longer ago.
unfoldable pub better : Shard → Key → Option ℕ → ℕ → Option ℕ
better s protect best cand = if key_eq (s.key cand) protect then best else (elim best [
  | none ↦ some cand
  | some b ↦ if ltb (s.last_access cand) (s.last_access b) then some cand else some b
])

-- `pool[i]`, which is not reached out of range.
abbrev pub nth : List ℕ → ℕ → ℕ
nth [] i = 0
nth (x ∷ xs) zero = x
nth (x ∷ xs) (suc i) = nth xs i

-- The rounds of the sampling loop that are left, the generator's state and the best so far.
unfoldable pub sample : ℕ → Shard → Key → List ℕ → ℕ → Option ℕ → Option ℕ × ℕ
sample zero s protect pool state best = (best, state)
sample (suc k) s protect pool state best =
    let (i, state') = intn (length pool) state in
    sample k s protect pool state' (better s protect best (nth pool i))

-- The linear probe, for when every sample was the protected key.
unfoldable pub probe : Shard → Key → List ℕ → Option ℕ
probe s protect [] = none
probe s protect (r ∷ pool) = if key_eq (s.key r) protect then probe s protect pool else some r

unfoldable pub pool_of : Shard → List ℕ
pool_of s = if is_volatile s.policy then s.ttl_slots.items else s.slots.items

-- The victim, and the generator's state.
unfoldable pub sample_victim : Shard → Key → List ℕ → Option ℕ × ℕ
sample_victim s protect [] = (none, s.rng)
sample_victim s protect (x ∷ xs) =
    let (best, state) = sample s.sample_k s protect (x ∷ xs) s.rng none in
    elim best [ none ↦ (probe s protect (x ∷ xs), state) | some b ↦ (some b, state) ]

unfoldable pub pick_victim : Shard → Key → Option ℕ × ℕ
pick_victim s protect =
    if s.exact_lru
    then (walk_tail (length s.slots.items) s protect s.lru.tail, s.rng)
    else sample_victim s protect (pool_of s)

unfoldable pub evict_one : Shard → ℕ → Shard
evict_one s r =
    let s1 = remove_entry s r in
    record s1 { evictions = count s1.evictions; removed = s1.removed ++ ((s.key r, evicted) ∷ []) }

-- The first number is `batchMax - n`, the evictions that are still allowed; the result counts
-- those that were made.
unfoldable pub evict_loop : ℕ → Shard → ℕ → Key → Shard × ℕ
evict_loop zero s target protect = (s, 0)
evict_loop (suc left) s target protect =
    let (victim, state) = pick_victim s protect in
    let s1 = record s { rng = state } in
    elim (ltb target s.mem_bytes) [
      | false ↦ (s, 0)
      | true ↦ elim victim [
        | none ↦ (s1, 0)
        | some r ↦ let (s2, n) = evict_loop left (evict_one s1 r) target protect in (s2, n + 1)
      ]
    ]

unfoldable pub evict : Shard → ℕ → Key → Shard × ℕ
evict s target protect =
    if is_no_eviction s.policy then (s, 0) else evict_loop s.batch_max s target protect

-- `delta` is `cost - old`, where `old` is 0 for a new key. It is positive in the last two lines, so
-- `low_water - (cost - old)` stops at 0 where the source sets a negative target to 0.
unfoldable pub admit : Shard → ℕ → ℕ → Key → Shard × Bool
admit s cost old protect =
    if s.budget == 0 || leb cost old
    then (s, true)
    else if leb (s.mem_bytes + cost) (s.budget + old)
    then (s, true)
    else if is_no_eviction s.policy
    then (s, false)
    else let s1 = (evict s (s.low_water - (cost - old)) protect).0 in
      (s1, leb (s1.mem_bytes + cost) (s1.budget + old))
