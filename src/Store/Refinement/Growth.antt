-- ===== src/Store/Refinement/Growth.antt =====
-- A write of internal/store/shard.go without a memory limit, and the room that it takes.
use kvstore.Prelude.{
  ℕ, zero, suc, ◌+◌, ◌-◌, ◌*◌, ◌^◌, ◌≤◌, ◌<◌, ◌≡◌, refl, ap, sym, ◌∙◌, Bool, true, false, not, ◌&&◌,
  Option, none, some, List, [], ◌∷◌, ◌++◌, arith, ltb, ◌==◌, if◌then◌else◌, length, length-append,
  length-set, length-take, take, get_elem?, Bool-cases, Option-cases, inl, inr,
}
use kvstore.Prelude
use kvstore.Store.Entry.{entry_cost}
use kvstore.Store.Shard.{Shard, Key}
use kvstore.Store.Slots.{
  Slice, push, clear, swap_remove, cut_at, cut_index, cut, add_deadline, remove_ttl_slot,
  add_ttl_slot, switch_ttl,
}
use kvstore.Store.Evict.{admit}
use kvstore.Store.Operations
use kvstore.Store.Operations.{overwrite, insert, set_at}
use kvstore.Store.Invariant.Sound.{IsSound}
use kvstore.Store.Invariant.Write.{HasRoom}
use kvstore.Store.Invariant.Admission.{set-IsSound}

abbrev pub size : Slice → ℕ
size u = length u.items

-- No operation on a slice takes it past one more item.
module _ (t : Slice) (r : ℕ) where
  push_size : size (push t r) ≡ size t + 1
  unfolding push
  push_size = omega (arith, length-append t.items (r ∷ []))

  cut_at_size : (i : ℕ) (o : Option ℕ) → size (cut_at t r i o) ≤ size t
  unfolding cut_at swap_remove
  cut_at_size i none = omega arith
  cut_at_size i (some x) =
      let same = length-set t.items i x in
      let fits = length-take (length t.items - 1) (Prelude.set t.items i x) (omega arith) in
      omega (arith, same, fits)

  cut_index_size : (o : Option ℕ) → size (cut_index t r o) ≤ size t
  unfolding cut_index
  cut_index_size none = omega arith
  cut_index_size (some i) =
      let le = cut_at_size i (get_elem? t.items (length t.items - 1)) in ground arith

  switch_size : (x : ℕ) (b : Bool) → size (switch_ttl t r x b) ≤ size t + 1
  unfolding switch_ttl add_ttl_slot remove_ttl_slot clear cut
  switch_size x b = let grown = push_size in let shrunk = cut_index_size (t.index r) in ground arith

  add_size : (x : ℕ) → size (add_deadline t r x) ≤ size t + 1
  unfolding add_deadline clear
  add_size x = let grown = push_size in ground arith

admit_open : (s : Shard) (cost old : ℕ) (k : Key) → s.budget ≡ 0 → admit s cost old k ≡ (s, true)
unfolding admit
admit_open s cost old k b = ground arith

-- What a write leaves, but for the entry itself.
pub record Grown (s t : Shard) : Type 0 where
  pub budget : t.budget ≡ s.budget
  pub mode : t.exact_lru ≡ s.exact_lru
  pub slots : size t.slots ≤ size s.slots + 1
  pub ttl : size t.ttl_slots ≤ size s.ttl_slots + 1

set_at-Grown :
    (s : Shard) (o : Option ℕ) (k : Key) (value : List ℕ) (x mono : ℕ)
    → s.budget ≡ 0
    → Grown s (set_at s o k value x mono).0
unfolding set_at insert overwrite
set_at-Grown s none k value x mono b =
    let cost = entry_cost (length k) (length value) in
    let pushed = push_size s.slots s.fresh in
    let added = add_size s.ttl_slots s.fresh x in
    rw (admit_open s cost 0 k b)
      (record { budget = refl; mode = refl; slots = omega arith; ttl = added })
set_at-Grown s (some r) k value x mono b =
    let cost = entry_cost (length k) (length value) in
    let switched = switch_size s.ttl_slots r x (not (s.expire_at r == 0)) in
    rw (admit_open s cost (s.size r) k b)
      (record { budget = refl; mode = refl; slots = omega arith; ttl = switched })

pub set-Grown :
    (s : Shard) (k : Key) (value : List ℕ) (x mono : ℕ)
    → s.budget ≡ 0
    → Grown s (Operations.set s k value x mono).0
unfolding Operations.set
set-Grown s k value x mono b = set_at-Grown s (s.entries k) k value x mono b

-- A shard without a memory limit, with sampled eviction and room for `left` more writes.
pub record IsFillable (left : ℕ) (s : Shard) : Type 0 where
  pub sound : IsSound s
  pub unlimited : s.budget ≡ 0
  pub sampled : s.exact_lru ≡ false
  pub slots_room : size s.slots + left ≤ 2 ^ 31
  pub ttl_room : size s.ttl_slots + left ≤ 2 ^ 31

pub set-IsFillable :
    (left : ℕ) (s : Shard) (k : Key) (value : List ℕ) (x mono : ℕ)
    → entry_cost (length k) (length value) < 2 ^ 32
    → IsFillable (suc left) s
    → IsFillable left (Operations.set s k value x mono).0
set-IsFillable left s k value x mono small y =
    let g = set-Grown s k value x mono y.unlimited in
    let room : HasRoom s = record {
      slots_fit = omega (arith, y.slots_room);
      ttl_fit = omega (arith, y.ttl_room);
    } in
    record {
      sound = set-IsSound s y.sound y.sampled room k value x mono small;
      unlimited = g.budget ∙ y.unlimited;
      sampled = g.mode ∙ y.sampled;
      slots_room = omega (arith, g.slots, y.slots_room);
      ttl_room = omega (arith, g.ttl, y.ttl_room);
    }
