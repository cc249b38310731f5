-- ===== src/Store/Invariant/Insert.antt =====
-- The insertion of a new entry keeps the invariant.
use kvstore.Prelude.{
  ℕ, ◌+◌, ◌%◌, ◌^◌, ◌<◌, ◌≡◌, ◌≢◌, ◌⊎◌, inl, inr, refl, ap, sym, subst, ℕ-cases, some_eq, ◌∙◌, Bool,
  true, not, none, some, List, arith, ◌==◌, length, get_elem?, Bool-cases, key_eq, key_eq→eq,
  key_eq_refl,
}
use kvstore.Store.Entry.{entry_cost}
use kvstore.Store.Lru.{update, update_self, update_other}
use kvstore.Store.Slots.{push, add_deadline}
use kvstore.Store.Shard.{Shard, Key, assign}
use kvstore.Store.Operations.{insert}
use kvstore.Store.Invariant.Sum.{sum_by, sum_by-snoc, sum_by-absent}
use kvstore.Store.Invariant.Slices.{Holds, Holds-item}
use kvstore.Store.Invariant.Switch.{Switched, not_held, push-Switched, add_deadline-Switched}
use kvstore.Store.Invariant.Sound.{IsSound, has_ttl}
use kvstore.Store.Invariant.Write.{HasRoom}

-- A new entry, at an address that no entry has.
module _ (s : Shard) (v : IsSound s) (f : HasRoom s) (k : Key) (free : s.entries k ≡ none)
    (value : List ℕ) (expire_at now_mono : ℕ)
    (small : entry_cost (length k) (length value) < 2 ^ 32) where
  abbrev r : ℕ
  r = s.fresh

  old_ne : (j : Key) (q : ℕ) → s.entries j ≡ some q → q ≢ r
  old_ne j q h e = let l = (v.held q (v.mapped j q h)).1 in absurd (omega arith)

  out : (j : ℕ) → get_elem? s.slots.items j ≢ some r
  out j g = let l = (v.held r (Holds-item s.slots v.slice j r g)).1 in absurd (omega arith)

  ttl_out : (j : ℕ) → get_elem? s.ttl_slots.items j ≢ some r
  ttl_out j g = old_ne _ r (v.ttl_held r (Holds-item s.ttl_slots v.ttl_slice j r g)).0 refl

  slots_pushed : Switched s.slots (push s.slots r) r true
  slots_pushed = push-Switched s.slots v.slice r out f.slots_fit

  ttl_pushed : Switched s.ttl_slots (add_deadline s.ttl_slots r expire_at) r (not (expire_at == 0))
  ttl_pushed = add_deadline-Switched s.ttl_slots v.ttl_slice r expire_at ttl_out f.ttl_fit

  -- The address under a key: the new one under `k`, and an old one under another key.
  looked_up :
      (j : Key) (q : ℕ)
      → assign s.entries k (some r) j ≡ some q
      → ((q ≡ r) × (k ≡ j)) ⊎ (s.entries j ≡ some q)
  looked_up j q h = elim (Bool-cases (key_eq k j)) [
    | inl e ↦ inl (some_eq (sym (rw e at h)), key_eq→eq k j e)
    | inr e ↦ inr (rw e at h)
  ]

  -- An old entry is still under its key.
  still : (q : ℕ) → s.entries (s.key q) ≡ some q → assign s.entries k (some r) (s.key q) ≡ some q
  still q h = elim (Bool-cases (key_eq k (s.key q))) [
    | inl e ↦ let c : none ≡ some q = sym free ∙ ap s.entries (key_eq→eq k (s.key q) e) ∙ h in cc
    | inr e ↦ rw e h
  ]

  abbrev key' : ℕ → Key
  key' = update s.key r k

  found_new : assign s.entries k (some r) (key' r) ≡ some r
  found_new = rw (update_self s.key r k, key_eq_refl k)

  found_old :
      (q : ℕ) → s.entries (s.key q) ≡ some q → q ≢ r → assign s.entries k (some r) (key' q) ≡ some q
  found_old q h ne = rw (update_other s.key r k q ne) (still q h)

  abbrev ttl' : ℕ → Bool
  ttl' q = not (update s.expire_at r expire_at q == 0)

  ttl_new : ttl' r ≡ not (expire_at == 0)
  ttl_new = ground arith

  ttl_old : (q : ℕ) → q ≢ r → ttl' q ≡ has_ttl s q
  ttl_old q ne = ground arith

  held_new :
      (q : ℕ)
      → Holds (push s.slots r) q
      → (assign s.entries k (some r) (key' q) ≡ some q) × (q < r + 1)
  held_new q h = elim (ℕ-cases q r) [
    | inl e ↦
        (subst (λ x. assign s.entries k (some r) (key' x) ≡ some x) (sym e) found_new, omega arith)
    | inr ne ↦ let (a, l) = v.held q (slots_pushed.from q h ne) in (found_old q a ne, omega arith)
  ]

  ttl_held_new :
      (q : ℕ)
      → Holds (add_deadline s.ttl_slots r expire_at) q
      → (assign s.entries k (some r) (key' q) ≡ some q) × (ttl' q ≡ true)
  ttl_held_new q h = elim (ℕ-cases q r) [
    | inl e ↦ elim (Bool-cases (not (expire_at == 0))) [
      | inl t ↦ (
        subst (λ x. assign s.entries k (some r) (key' x) ≡ some x) (sym e) found_new,
        ap ttl' e ∙ ttl_new ∙ t,
      )
      | inr t ↦ absurd (
          not_held (add_deadline s.ttl_slots r expire_at) r (ttl_pushed.off t)
            (subst (λ x. Holds (add_deadline s.ttl_slots r expire_at) x) e h))
    ]
    | inr ne ↦
        let (a, l) = v.ttl_held q (ttl_pushed.from q h ne) in (found_old q a ne, ttl_old q ne ∙ l)
  ]

  abbrev new_cost : ℕ
  new_cost = entry_cost (length k) (length value)

  counted_new :
      s.mem_bytes + new_cost ≡ sum_by (update s.size r (new_cost % 2 ^ 32)) (push s.slots r).items
  unfolding push
  counted_new = omega (
    arith,
    v.accounted,
    sum_by-snoc (update s.size r (new_cost % 2 ^ 32)) s.slots.items r,
    sum_by-absent s.size r (new_cost % 2 ^ 32) s.slots.items out,
    update_self s.size r (new_cost % 2 ^ 32),
  )

  pub insert-IsSound :
      IsSound (insert s k value expire_at now_mono (entry_cost (length k) (length value)))
  unfolding insert
  insert-IsSound = record {
    slice = slots_pushed.slice;
    held = held_new;
    keyed = λ j q h. elim (looked_up j q h) [
      | inl (e, c) ↦ rw (e, update_self s.key r k) c
      | inr o ↦ rw (update_other s.key r k q (old_ne j q o)) (v.keyed j q o)
    ];
    mapped = λ j q h. elim (looked_up j q h) [
      | inl (e, c) ↦ subst (λ x. Holds (push s.slots r) x) (sym e) (slots_pushed.on refl)
      | inr o ↦ slots_pushed.keeps q (old_ne j q o) (v.mapped j q o)
    ];
    ttl_slice = ttl_pushed.slice;
    ttl_held = ttl_held_new;
    ttl_mapped = λ j q h d. elim (looked_up j q h) [
      | inl (e, c) ↦
          subst (λ x. Holds (add_deadline s.ttl_slots r expire_at) x) (sym e)
            (ttl_pushed.on (sym ttl_new ∙ sym (ap ttl' e) ∙ d))
      | inr o ↦
          ttl_pushed.keeps q (old_ne j q o)
            (v.ttl_mapped j q o (sym (ttl_old q (old_ne j q o)) ∙ d))
    ];
    ttl_idle = λ j q h d. elim (looked_up j q h) [
      | inl (e, c) ↦
          ap (λ x. (add_deadline s.ttl_slots r expire_at).index x) e
          ∙ ttl_pushed.off (sym ttl_new ∙ sym (ap ttl' e) ∙ d)
      | inr o ↦
          ttl_pushed.idle q (old_ne j q o) (v.ttl_idle j q o (sym (ttl_old q (old_ne j q o)) ∙ d))
    ];
    sized = λ j q h. elim (looked_up j q h) [
      | inl (e, c) ↦
          rw
            (
              e,
              update_self s.size r (new_cost % 2 ^ 32),
              update_self s.key r k,
              update_self s.value r value,
            )
            (omega arith)
      | inr o ↦
          let ne = old_ne j q o in
          rw
            (
              update_other s.size r (new_cost % 2 ^ 32) q ne,
              update_other s.key r k q ne,
              update_other s.value r value q ne,
            )
            (v.sized j q o)
    ];
    accounted = counted_new;
  }
