-- ===== src/Store/Range/Restore.antt =====
-- Copies of what Range of internal/store/store.go lists, set one by one in a reference store.
use mathlib.Core.List.{Memᴰ, foldl}
use mathlib.Core.List.Memᴰ
use kvstore.Prelude.{
  ◌≡◌, ◌⊎◌, inl, inr, ap, sym, ◌∙◌, none, some, List, [], ◌∷◌, All, key_eq, key_eq→eq, key_eq_refl,
  Bool-cases,
}
use kvstore.Store.Shard.{Key}
use kvstore.Store.Reference
use kvstore.Store.Reference.{RefEntry, Data}
use kvstore.Store.Range.{Copy}

abbrev pub restore_step : Data → Copy → Data
restore_step d c = Reference.set d c.key c.value c.expire_at

abbrev pub restore : Data → List Copy → Data
restore d cs = foldl restore_step d cs

abbrev pub nothing : Data
nothing k = none

abbrev pub entry_of : Copy → RefEntry
entry_of c = record { value = c.value; expire_at = c.expire_at }

-- Copies of what a store shows, restored.
module _ (shown : Data) where
  unfoldable pub IsTrue : Copy → Type 0
  IsTrue c = shown c.key ≡ some (entry_of c)

  -- Every key is still missing, or is as it is shown.
  unfoldable pub IsPart : Data → Type 0
  IsPart d = (k : Key) → (d k ≡ none) ⊎ (d k ≡ shown k)

  restore_step-shown :
      (d : Data) (c : Copy) (k : Key) → IsTrue c → d k ≡ shown k → restore_step d c k ≡ shown k
  unfolding Reference.set IsTrue
  restore_step-shown d c k t h = elim (Bool-cases (key_eq c.key k)) [
    | inl e ↦ rw e (sym t ∙ ap shown (key_eq→eq c.key k e))
    | inr e ↦ rw e h
  ]

  restore_step-IsPart : (d : Data) (c : Copy) → IsTrue c → IsPart d → IsPart (restore_step d c)
  unfolding Reference.set IsTrue IsPart
  restore_step-IsPart d c t p k = elim (Bool-cases (key_eq c.key k)) [
    | inl e ↦ inr (rw e (sym t ∙ ap shown (key_eq→eq c.key k e)))
    | inr e ↦ rw e (p k)
  ]

  pub restore-shown :
      (cs : List Copy) (d : Data) (k : Key)
      → All IsTrue cs
      → d k ≡ shown k
      → restore d cs k ≡ shown k
  restore-shown [] d k t h = h
  restore-shown (c ∷ cs) d k t h =
      restore-shown cs (restore_step d c) k t.1 (restore_step-shown d c k t.0 h)

  pub restore-IsPart :
      (cs : List Copy) (d : Data) → All IsTrue cs → IsPart d → IsPart (restore d cs)
  restore-IsPart [] d t p = p
  restore-IsPart (c ∷ cs) d t p =
      restore-IsPart cs (restore_step d c) t.1 (restore_step-IsPart d c t.0 p)

  own_step : (d : Data) (c : Copy) → IsTrue c → restore_step d c c.key ≡ shown c.key
  unfolding Reference.set IsTrue
  own_step d c t = rw (key_eq_refl c.key) (sym t)

  -- A key that has been listed is as it is shown.
  pub restore-listed :
      (cs : List Copy) (d : Data) (c : Copy)
      → All IsTrue cs
      → Memᴰ c cs
      → restore d cs c.key ≡ shown c.key
  restore-listed (x ∷ cs) d c t m = elim (Memᴰ.cases_cons m) [
    | inl e ↦ restore-shown cs (restore_step d x) c.key t.1 (rw e (own_step d x t.0))
    | inr m' ↦ restore-listed cs (restore_step d x) c t.1 m'
  ]
  restore-listed [] d c t m = absurd (Memᴰ.not-nil m)
