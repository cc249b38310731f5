-- ===== src/Store/Range/Members.antt =====
-- Lists that the batches of Range are made of: members, and what holds of all of them.
use mathlib.Core.List.{Memᴰ}
use mathlib.Core.List.Memᴰ
use kvstore.Prelude.{
  ℕ, zero, suc, ◌<◌, ◌≡◌, inl, inr, refl, sym, some, List, [], ◌∷◌, ◌++◌, All, arith, length, take,
  drop, get_elem?, some_eq,
}

module _ {ℓ} {A : Type ℓ} where
  pub get_elem?-Memᴰ : (xs : List A) (j : ℕ) {a : A} → get_elem? xs j ≡ some a → Memᴰ a xs
  get_elem?-Memᴰ [] j e = cc
  get_elem?-Memᴰ (x ∷ xs) zero e = Memᴰ.head (sym (some_eq e))
  get_elem?-Memᴰ (x ∷ xs) (suc j) e = Memᴰ.tail (get_elem?-Memᴰ xs j e)

  pub take-suc_Memᴰ : (n : ℕ) (xs : List A) {a : A} → Memᴰ a (take n xs) → Memᴰ a (take (suc n) xs)
  take-suc_Memᴰ zero xs m = absurd (Memᴰ.not-nil m)
  take-suc_Memᴰ (suc n) [] m = m
  take-suc_Memᴰ (suc n) (x ∷ xs) m = elim (Memᴰ.cases_cons m) [
    | inl e ↦ Memᴰ.head e
    | inr m' ↦ Memᴰ.tail (take-suc_Memᴰ n xs m')
  ]

  pub Memᴰ-length : (xs : List A) {a : A} → Memᴰ a xs → 0 < length xs
  Memᴰ-length [] m = absurd (Memᴰ.not-nil m)
  Memᴰ-length (x ∷ xs) m = omega arith

  module _ {κ} (P : A → Type κ) where
    pub All-get_elem? : (xs : List A) → ((j : ℕ) (a : A) → get_elem? xs j ≡ some a → P a) → All P xs
    All-get_elem? [] h = tt
    All-get_elem? (x ∷ xs) h = (h zero x refl, All-get_elem? xs (λ j. h (suc j)))

    pub All-drop : (n : ℕ) (xs : List A) → All P xs → All P (drop n xs)
    All-drop zero xs h = h
    All-drop (suc n) [] h = tt
    All-drop (suc n) (x ∷ xs) h = All-drop n xs h.1

    pub All-append : (xs ys : List A) → All P xs → All P ys → All P (xs ++ ys)
    All-append [] ys h g = g
    All-append (x ∷ xs) ys h g = (h.0, All-append xs ys h.1 g)
