-- ===== src/Store/Slots.antt =====
-- The slot bookkeeping of internal/store/shard.go: the flat slices of entries, `slots` and
-- `ttlSlots`, where each entry keeps its own index.
use kvstore.Prelude.{
  ℕ, ◌-◌, ◌%◌, ◌^◌, Bool, not, ◌&&◌, Option, none, some, List, [], ◌∷◌, ◌++◌, ltb, ◌==◌,
  if◌then◌else◌, length, get_elem?, set, take,
}
use kvstore.Store.Lru.{update}

-- A slice of addresses, with the field of every entry that holds the entry's index in it.
pub record Slice : Type 0 where
  pub items : List ℕ
  pub index : ℕ → Option ℕ

abbrev pub no_items : Slice
no_items = record { items = []; index = λ _. none }

-- int32(n) as an index: every negative value is read as -1 is.
abbrev pub int32_index : ℕ → Option ℕ
int32_index n = if ltb (n % 2 ^ 32) (2 ^ 31) then some (n % 2 ^ 32) else none

-- `e.slot = int32(len(slots)); slots = append(slots, e)`
unfoldable pub push : Slice → ℕ → Slice
push t r = record {
  items = t.items ++ (r ∷ []);
  index = update t.index r (int32_index (length t.items));
}

-- `e.slot = -1`
unfoldable pub clear : Slice → ℕ → Slice
clear t r = record t { index = update t.index r none }

-- `xs[i] = xs[last]; xs = xs[:last]`
unfoldable pub swap_remove : List ℕ → ℕ → ℕ → List ℕ
swap_remove xs i x = take (length xs - 1) (set xs i x)

-- `x` is the last entry, which takes the index `i` of the entry `r`. The order of the two writes
-- matters where `x` is `r` itself.
unfoldable pub moved : (ℕ → Option ℕ) → ℕ → ℕ → ℕ → ℕ → Option ℕ
moved index r i x = update (update index x (some i)) r none

-- The last element is read where the slice is not empty.
unfoldable pub cut_at : Slice → ℕ → ℕ → Option ℕ → Slice
cut_at t r i none = t
cut_at t r i (some x) = record { items = swap_remove t.items i x; index = moved t.index r i x }

-- `if i := e.slot; i >= 0 && int(i) < len(slots) { … }`
unfoldable pub cut_index : Slice → ℕ → Option ℕ → Slice
cut_index t r none = t
cut_index t r (some i) =
    let done = cut_at t r i (get_elem? t.items (length t.items - 1)) in
    if ltb i (length t.items) then done else t

unfoldable pub cut : Slice → ℕ → Slice
cut t r = cut_index t r (t.index r)

-- The second half of addSlotLocked.
unfoldable pub add_deadline : Slice → ℕ → ℕ → Slice
add_deadline ttl r expire_at = if expire_at == 0 then clear ttl r else push ttl r

-- removeTTLSlotLocked: the index is -1 afterwards, whether or not the entry was in the slice.
unfoldable pub remove_ttl_slot : Slice → ℕ → Slice
remove_ttl_slot ttl r = clear (cut ttl r) r

unfoldable pub add_ttl_slot : Slice → ℕ → Slice
add_ttl_slot ttl r = elim (ttl.index r) [ none ↦ push ttl r | some i ↦ ttl ]

-- `switch { case expireAt != 0 && !hadTTL: …; case expireAt == 0 && hadTTL: … }`
unfoldable pub switch_ttl : Slice → ℕ → ℕ → Bool → Slice
switch_ttl ttl r expire_at had_ttl =
    if not (expire_at == 0) && not had_ttl
    then add_ttl_slot ttl r
    else if expire_at == 0 && had_ttl
    then remove_ttl_slot ttl r
    else ttl
