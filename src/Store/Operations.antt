-- ===== src/Store/Operations.antt =====
-- The operations of a shard, internal/store/shard.go, under its lock.
use kvstore.Prelude.{
  ℕ, zero, suc, ◌+◌, ◌-◌, ◌%◌, ◌^◌, Bool, true, false, not, Option, none, some, List, [], ◌∷◌, ◌++◌,
  ltb, ◌==◌, if◌then◌else◌, length,
}
use kvstore.Store.Entry.{entry_cost, is_expired}
use kvstore.Store.Lru.{update, push_front, move_to_front}
use kvstore.Store.Random.{intn}
use kvstore.Store.Shard.{Key, Shard, expired, assign, count, is_some}
use kvstore.Store.Slots.{push, add_deadline, switch_ttl}
use kvstore.Store.Evict.{remove_entry, admit, nth}

-- What getLocked returns: a hit with the entry, a miss, or an expired entry to be reaped.
pub data Found : Type 0 where
  hit : ℕ → Found
  miss needs_reap : Found

unfoldable pub get_at : Shard → Option ℕ → ℕ → ℕ → Shard × Found
get_at s none now_ms now_mono = (record s { misses = count s.misses }, miss)
get_at s (some r) now_ms now_mono =
    if is_expired (s.expire_at r) now_ms
    then (record s { misses = count s.misses }, needs_reap)
    else (record s { last_access = update s.last_access r now_mono; hits = count s.hits }, hit r)

unfoldable pub get : Shard → Key → ℕ → ℕ → Shard × Found
get s k now_ms now_mono = get_at s (s.entries k) now_ms now_mono

-- The overwrite of an admitted write. `mem_bytes + cost` is at least the old size.
unfoldable pub overwrite : Shard → ℕ → List ℕ → ℕ → ℕ → ℕ → ℕ → Shard
overwrite s r value expire_at now_mono cost old = record s {
  value = update s.value r value;
  expire_at = update s.expire_at r expire_at;
  size = update s.size r (cost % 2 ^ 32);
  last_access = update s.last_access r now_mono;
  ttl_slots = switch_ttl s.ttl_slots r expire_at (not (s.expire_at r == 0));
  lru = if s.exact_lru then move_to_front s.lru r else s.lru;
  mem_bytes = s.mem_bytes + cost - old;
}

-- The insertion of an admitted new key, at a fresh address, with addSlotLocked.
unfoldable pub insert : Shard → Key → List ℕ → ℕ → ℕ → ℕ → Shard
insert s k value expire_at now_mono cost =
    let r = s.fresh in
    record s {
      key = update s.key r k;
      value = update s.value r value;
      expire_at = update s.expire_at r expire_at;
      size = update s.size r (cost % 2 ^ 32);
      last_access = update s.last_access r now_mono;
      fresh = s.fresh + 1;
      entries = assign s.entries k (some r);
      slots = push s.slots r;
      ttl_slots = add_deadline s.ttl_slots r expire_at;
      lru = if s.exact_lru then push_front s.lru r else s.lru;
      mem_bytes = s.mem_bytes + cost;
    }

unfoldable pub set_at : Shard → Option ℕ → Key → List ℕ → ℕ → ℕ → Shard × Bool
set_at s (some r) k value expire_at now_mono =
    let cost = entry_cost (length k) (length value) in
    let (s1, ok) = admit s cost (s.size r) k in
    if ok then (overwrite s1 r value expire_at now_mono cost (s.size r), true) else (s1, false)
set_at s none k value expire_at now_mono =
    let cost = entry_cost (length k) (length value) in
    let (s1, ok) = admit s cost 0 k in
    if ok then (insert s1 k value expire_at now_mono cost, true) else (s1, false)

unfoldable pub set : Shard → Key → List ℕ → ℕ → ℕ → Shard × Bool
set s k value expire_at now_mono = set_at s (s.entries k) k value expire_at now_mono

unfoldable pub delete : Shard → Key → Shard × Bool
delete s k = elim (s.entries k) [ none ↦ (s, false) | some r ↦ (remove_entry s r, true) ]

unfoldable pub set_deadline : Shard → ℕ → ℕ → Shard
set_deadline s r expire_at = record s {
  expire_at = update s.expire_at r expire_at;
  ttl_slots = switch_ttl s.ttl_slots r expire_at (not (s.expire_at r == 0));
}

unfoldable pub expire : Shard → Key → ℕ → Shard × Bool
expire s k expire_at = elim (s.entries k) [
  | none ↦ (s, false)
  | some r ↦ (set_deadline s r expire_at, true)
]

-- The removal of an expired entry, with its counter and the call of `onEvict`.
unfoldable pub expel : Shard → ℕ → Shard
expel s r =
    let s1 = remove_entry s r in
    record s1 {
      expirations = count s1.expirations;
      removed = s1.removed ++ ((s.key r, expired) ∷ []);
    }

unfoldable pub reap : Shard → Key → ℕ → Shard × Bool
reap s k now_ms = elim (s.entries k) [
  | none ↦ (s, false)
  | some r ↦ if is_expired (s.expire_at r) now_ms then (expel s r, true) else (s, false)
]

-- The draws of one sweep: the expired entries that were drawn, with repetitions.
unfoldable pub draw : ℕ → Shard → ℕ → ℕ → List ℕ × ℕ
draw zero s now_ms state = ([], state)
draw (suc k) s now_ms state =
    let (i, state') = intn (length s.ttl_slots.items) state in
    let (rest, final) = draw k s now_ms state' in
    let r = nth s.ttl_slots.items i in
    (if is_expired (s.expire_at r) now_ms then r ∷ rest else rest, final)

-- An entry that was drawn twice has the index -1 the second time.
unfoldable pub expel_all : Shard → List ℕ → Shard
expel_all s [] = s
expel_all s (r ∷ rs) = expel_all (if is_some (s.slots.index r) then expel s r else s) rs

-- The sampled entries, and the victims, counted as they were drawn.
unfoldable pub sweep : Shard → ℕ → ℕ → Shard × ℕ × ℕ
sweep s now_ms wanted =
    if length s.ttl_slots.items == 0
    then (s, 0, 0)
    else let n =
        (if ltb (length s.ttl_slots.items) wanted then length s.ttl_slots.items else wanted) in
      let (victims, state) = draw n s now_ms s.rng in
      (expel_all (record s { rng = state }) victims, n, length victims)

unfoldable pub flush : Shard → Shard
flush s = record s {
  entries = λ _. none;
  slots = record (s.slots) { items = [] };
  ttl_slots = record (s.ttl_slots) { items = [] };
  lru = record (s.lru) { head = none; tail = none };
  mem_bytes = 0;
}
