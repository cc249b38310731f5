-- ===== src/Store/Invariant/Write.antt =====
-- An admitted write keeps the invariant: an overwrite, a new entry, a new deadline.
use kvstore.Prelude.{
  ℕ, ◌+◌, ◌-◌, ◌%◌, ◌^◌, ◌<◌, ◌≡◌, ◌≢◌, inl, inr, sym, subst, ℕ-cases, some_eq, ◌∙◌, Bool, true,
  false, not, none, some, List, arith, ◌==◌, length, get_elem?, Bool-cases,
}
use kvstore.Store.Entry.{entry_cost}
use kvstore.Store.Lru.{update, update_self, update_other}
use kvstore.Store.Slots.{Slice, switch_ttl}
use kvstore.Store.Shard.{Shard, Key}
use kvstore.Store.Operations.{overwrite, set_deadline}
use kvstore.Store.Invariant.Sum.{sum_by, sum_by-update}
use kvstore.Store.Invariant.Slices.{Holds, Holds-index}
use kvstore.Store.Invariant.Switch.{Switched, not_held, switch_ttl-Switched}
use kvstore.Store.Invariant.Sound.{IsSound, has_ttl}

-- What the program's limits give: the indices fit an int32.
pub record HasRoom (s : Shard) : Type 0 where
  pub slots_fit : length s.slots.items < 2 ^ 31
  pub ttl_fit : length s.ttl_slots.items < 2 ^ 31

-- The entry `r` of the map has a new deadline, and the second slice follows.
module _ (s : Shard) (v : IsSound s) (k : Key) (r : ℕ) (live : s.entries k ≡ some r) (expire_at : ℕ)
    (t' : Slice) (w : Switched s.ttl_slots t' r (not (expire_at == 0))) where
  abbrev new_ttl : ℕ → Bool
  new_ttl q = not (update s.expire_at r expire_at q == 0)

  new_self : new_ttl r ≡ not (expire_at == 0)
  new_self = ground arith

  new_other : (q : ℕ) → q ≢ r → new_ttl q ≡ has_ttl s q
  new_other q ne = ground arith

  held_self : Holds t' r → (s.entries (s.key r) ≡ some r) × (new_ttl r ≡ true)
  held_self h = elim (Bool-cases (not (expire_at == 0))) [
    | inl e ↦ (rw (v.keyed k r live) live, new_self ∙ e)
    | inr e ↦ absurd (not_held t' r (w.off e) h)
  ]

  deadline_held : (q : ℕ) → Holds t' q → (s.entries (s.key q) ≡ some q) × (new_ttl q ≡ true)
  deadline_held q h = elim (ℕ-cases q r) [
    | inl e ↦
        subst (λ x. Holds t' x → (s.entries (s.key x) ≡ some x) × (new_ttl x ≡ true)) (sym e)
          held_self h
    | inr ne ↦ let (a, b) = v.ttl_held q (w.from q h ne) in (a, new_other q ne ∙ b)
  ]

  deadline_mapped : (j : Key) (q : ℕ) → s.entries j ≡ some q → new_ttl q ≡ true → Holds t' q
  deadline_mapped j q h d = elim (ℕ-cases q r) [
    | inl e ↦ subst (λ x. new_ttl x ≡ true → Holds t' x) (sym e) (λ c. w.on (sym new_self ∙ c)) d
    | inr ne ↦ w.keeps q ne (v.ttl_mapped j q h (sym (new_other q ne) ∙ d))
  ]

  deadline_idle : (j : Key) (q : ℕ) → s.entries j ≡ some q → new_ttl q ≡ false → t'.index q ≡ none
  deadline_idle j q h d = elim (ℕ-cases q r) [
    | inl e ↦
        subst (λ x. new_ttl x ≡ false → t'.index x ≡ none) (sym e) (λ c. w.off (sym new_self ∙ c)) d
    | inr ne ↦ w.idle q ne (v.ttl_idle j q h (sym (new_other q ne) ∙ d))
  ]

module _ (s : Shard) (v : IsSound s) (f : HasRoom s) (k : Key) (r : ℕ) (live : s.entries k ≡ some r)
    (expire_at : ℕ) where
  ttl-Switched :
      Switched s.ttl_slots
        (switch_ttl s.ttl_slots r expire_at (has_ttl s r))
        r
        (not (expire_at == 0))
  ttl-Switched =
      switch_ttl-Switched s.ttl_slots v.ttl_slice r expire_at (has_ttl s r) (v.ttl_mapped k r live)
        (v.ttl_idle k r live) f.ttl_fit

  pub set_deadline-IsSound : IsSound (set_deadline s r expire_at)
  unfolding set_deadline
  set_deadline-IsSound = record {
    slice = v.slice;
    held = v.held;
    keyed = v.keyed;
    mapped = v.mapped;
    ttl_slice = ttl-Switched.slice;
    ttl_held = deadline_held s v k r live expire_at _ ttl-Switched;
    ttl_mapped = deadline_mapped s v k r live expire_at _ ttl-Switched;
    ttl_idle = deadline_idle s v k r live expire_at _ ttl-Switched;
    sized = v.sized;
    accounted = v.accounted;
  }

  -- An overwrite by a value of the cost that is charged for it.
  module _ (value : List ℕ) (now_mono : ℕ)
      (small : entry_cost (length k) (length value) < 2 ^ 32) where
    abbrev cost : ℕ
    cost = entry_cost (length k) (length value)

    resized :
        (j : Key) (q : ℕ)
        → s.entries j ≡ some q
        → update s.size r (cost % 2 ^ 32) q
          ≡ entry_cost (length (s.key q)) (length (update s.value r value q))
    resized j q h = elim (ℕ-cases q r) [
      | inl e ↦
          rw
            (e, update_self s.size r (cost % 2 ^ 32), update_self s.value r value, v.keyed k r live)
            (omega arith)
      | inr ne ↦
          rw (update_other s.size r (cost % 2 ^ 32) q ne, update_other s.value r value q ne)
            (v.sized j q h)
    ]

    recounted :
        s.mem_bytes + cost - s.size r ≡ sum_by (update s.size r (cost % 2 ^ 32)) s.slots.items
    recounted =
        let (i, own, g) = Holds-index s.slots r (v.mapped k r live) in
        let once =
          λ (j : ℕ) (h : get_elem? s.slots.items j ≡ some r). some_eq (sym (v.slice j r h) ∙ own) in
        omega (arith, v.accounted, sum_by-update s.size r (cost % 2 ^ 32) i s.slots.items g once)

    pub overwrite-IsSound : IsSound (overwrite s r value expire_at now_mono cost (s.size r))
    unfolding overwrite
    overwrite-IsSound = record {
      slice = v.slice;
      held = v.held;
      keyed = v.keyed;
      mapped = v.mapped;
      ttl_slice = ttl-Switched.slice;
      ttl_held = deadline_held s v k r live expire_at _ ttl-Switched;
      ttl_mapped = deadline_mapped s v k r live expire_at _ ttl-Switched;
      ttl_idle = deadline_idle s v k r live expire_at _ ttl-Switched;
      sized = resized;
      accounted = recounted;
    }
