-- ===== src/Store/Sharded/Local.antt =====
-- An operation on one key, routed to its shard, does to the store of internal/store/store.go what
-- the reference store's operation does.
use kvstore.Prelude.{
  ℕ, ◌<◌, ◌≡◌, ◌≢◌, refl, ap, sym, subst, ◌∙◌, false, arith, ◌==◌, if◌then◌else◌, Bool-cases, inl,
  inr, key_eq, key_eq→eq,
}
use kvstore.Store.Lru.{update_self, update_other}
use kvstore.Store.Shard.{Shard, Key}
use kvstore.Store.Reference.{Data}
use kvstore.Store.Refinement.{shows, visible, Agrees}
use kvstore.Store.Invariant.Sound.{IsSound}
use kvstore.Store.Sharded.{Store, shard_for, with_shard}

-- Each key has a shard of the slice, every shard is sound, and each key shows in its own shard what it shows in the reference store.
pub record Holds (now : ℕ) (s : Store) (d : Data) : Type 0 where
  pub in_range : (k : Key) → shard_for s k < s.count
  pub sound : (i : ℕ) → IsSound (s.shards i)
  pub agrees : (k : Key) → visible now (shows (s.shards (shard_for s k)) k) ≡ visible now (d k)

-- What an operation of the reference store on `k` reads and changes: of `k`, what can be seen.
pub record IsLocal {ℓ} (A : Type ℓ) (now : ℕ) (k : Key) (f : Data → Data × A) : Type ℓ where
  pub same_answer : (d d' : Data) → visible now (d k) ≡ visible now (d' k) → (f d).1 ≡ (f d').1
  pub same_entry :
      (d d' : Data)
      → visible now (d k) ≡ visible now (d' k)
      → visible now ((f d).0 k) ≡ visible now ((f d').0 k)
  pub elsewhere :
      (d : Data) (j : Key) → key_eq k j ≡ false → visible now ((f d).0 j) ≡ visible now (d j)

-- An operation of a shard does what one of the reference store does.
abbrev pub Simulates {ℓ} :
    {A : Type ℓ} → ℕ → Shard → (Shard → Shard × A) → (Data → Data × A) → Type ℓ
Simulates now sh g f =
    (d : Data) → Agrees now sh d → ((g sh).1 ≡ (f d).1) × Agrees now (g sh).0 (f d).0

module _ {ℓ} {A : Type ℓ} (now : ℕ) (s : Store) (d : Data) (h : Holds now s d) (k : Key)
    (g : Shard → Shard × A) (f : Data → Data × A) (local : IsLocal A now k f)
    (sim : Simulates now (s.shards (shard_for s k)) g f) where
  abbrev own : Shard
  own = s.shards (shard_for s k)

  -- The reference store as one shard sees it: its own keys, and what it holds of the others.
  abbrev view : Data
  view j = if shard_for s j == shard_for s k then d j else shows own j

  view-Agrees : Agrees now own view
  view-Agrees j = elim (Bool-cases (shard_for s j == shard_for s k)) [
    | inl e ↦
        let i : shard_for s j ≡ shard_for s k = ground arith in
        rw e (subst (λ x. visible now (shows (s.shards x) j) ≡ visible now (d j)) i (h.agrees j))
    | inr e ↦ rw e refl
  ]

  view-own : (j : Key) → shard_for s j ≡ shard_for s k → view j ≡ d j
  view-own j e = ground arith

  pub routed_answer : (with_shard s k g).1 ≡ (f d).1
  routed_answer =
      (sim view view-Agrees).0
      ∙ local.same_answer view d (ap (λ o. visible now o) (view-own k refl))

  -- The shard of `k`, after the operation.
  own_after :
      (j : Key)
      → shard_for s j ≡ shard_for s k
      → visible now (shows (g own).0 j) ≡ visible now ((f d).0 j)
  own_after j e = elim (Bool-cases (key_eq k j)) [
    | inl t ↦
        let same = key_eq→eq k j t in
        subst (λ x. visible now (shows (g own).0 x) ≡ visible now ((f d).0 x)) same
          ((sim view view-Agrees).1 k
            ∙ local.same_entry view d (ap (λ o. visible now o) (view-own k refl)))
    | inr t ↦
        (sim view view-Agrees).1 j
        ∙ local.elsewhere view j t
        ∙ ap (λ o. visible now o) (view-own j e)
        ∙ sym (local.elsewhere d j t)
  ]

  other_after :
      (j : Key)
      → shard_for s j ≢ shard_for s k
      → visible now (shows (s.shards (shard_for s j)) j) ≡ visible now ((f d).0 j)
  other_after j ne = elim (Bool-cases (key_eq k j)) [
    | inl t ↦ let same = ap (λ x. shard_for s x) (key_eq→eq k j t) in absurd (ne (sym same))
    | inr t ↦ h.agrees j ∙ sym (local.elsewhere d j t)
  ]

  abbrev after : ℕ → Shard
  after = (with_shard s k g).0.shards

  after-own : (i : ℕ) → i ≡ shard_for s k → after i ≡ (g own).0
  after-own i e = ap (λ x. after x) e ∙ update_self s.shards (shard_for s k) (g own).0

  after-other : (i : ℕ) → i ≢ shard_for s k → after i ≡ s.shards i
  after-other i ne = update_other s.shards (shard_for s k) (g own).0 i ne

  pub routed-Holds : IsSound (g own).0 → Holds now (with_shard s k g).0 (f d).0
  routed-Holds kept = record {
    in_range = h.in_range;
    sound = λ i. elim (Bool-cases (i == shard_for s k)) [
      | inl e ↦ subst IsSound (sym (after-own i (ground arith))) kept
      | inr e ↦ subst IsSound (sym (after-other i (ground arith))) (h.sound i)
    ];
    agrees = λ j. elim (Bool-cases (shard_for s j == shard_for s k)) [
      | inl e ↦
          let i : shard_for s j ≡ shard_for s k = ground arith in
          ap (λ x. visible now (shows x j)) (after-own (shard_for s j) i) ∙ own_after j i
      | inr e ↦
          let i : shard_for s j ≢ shard_for s k = ground arith in
          ap (λ x. visible now (shows x j)) (after-other (shard_for s j) i) ∙ other_after j i
    ];
  }
