-- ===== src/Store/Invariant/Index.antt =====
-- A slice of addresses, and the index that each of its entries keeps.
use kvstore.Prelude.{
  ℕ, zero, suc, ◌-◌, ◌<◌, ◌≡◌, ◌≢◌, ◌⊎◌, inl, inr, refl, ◌∙◌, Option, none, some, List, [], ◌∷◌,
  ◌++◌, arith, ltb, ◌==◌, if◌then◌else◌, length, get_elem?, set, take, Option-cases, Bool-cases,
  ==→eq, true, false,
}
use kvstore.Store.Slots.{swap_remove, moved}

-- `xs[i]` for an index that may be -1.
abbrev pub at : List ℕ → Option ℕ → Option ℕ
at xs none = none
at xs (some i) = get_elem? xs i

pub get_elem?-lt : (xs : List ℕ) (i q : ℕ) → get_elem? xs i ≡ some q → i < length xs
get_elem?-lt [] i q h = cc
get_elem?-lt (x ∷ xs) zero q h = omega arith
get_elem?-lt (x ∷ xs) (suc i) q h = omega (arith, get_elem?-lt xs i q h)

pub get_elem?-last :
    (xs : List ℕ) → 0 < length xs → (x : ℕ) × (get_elem? xs (length xs - 1) ≡ some x)
get_elem?-last xs h = found (length xs - 1) xs (omega arith)
  where
    found : (i : ℕ) (ys : List ℕ) → i < length ys → (x : ℕ) × (get_elem? ys i ≡ some x)
    found i [] l = absurd (omega arith)
    found zero (y ∷ ys) l = (y, refl)
    found (suc i) (y ∷ ys) l = found i ys (omega arith)

get_elem?-take :
    (n : ℕ) (xs : List ℕ) (j : ℕ)
    → get_elem? (take n xs) j ≡ (if ltb j n then get_elem? xs j else none)
get_elem?-take zero xs j = ground arith
get_elem?-take (suc n) [] j = ground arith
get_elem?-take (suc n) (x ∷ xs) zero = ground arith
get_elem?-take (suc n) (x ∷ xs) (suc j) = get_elem?-take n xs j ∙ ground arith

get_elem?-set :
    (xs : List ℕ) (i v j : ℕ)
    → i < length xs
    → get_elem? (set xs i v) j ≡ (if j == i then some v else get_elem? xs j)
get_elem?-set [] i v j h = absurd (omega arith)
get_elem?-set (x ∷ xs) zero v zero h = ground arith
get_elem?-set (x ∷ xs) zero v (suc j) h = ground arith
get_elem?-set (x ∷ xs) (suc i) v zero h = ground arith
get_elem?-set (x ∷ xs) (suc i) v (suc j) h = get_elem?-set xs i v j (omega arith) ∙ ground arith

get_elem?-swap_remove :
    (xs : List ℕ) (i x j : ℕ)
    → i < length xs
    → get_elem? (swap_remove xs i x) j
      ≡ (if ltb j (length xs - 1) then (if j == i then some x else get_elem? xs j) else none)
unfolding swap_remove
get_elem?-swap_remove xs i x j h =
    get_elem?-take (length xs - 1) (set xs i x) j ∙ rw (get_elem?-set xs i x j h)

pub get_elem?-snoc :
    (xs : List ℕ) (r j : ℕ)
    → get_elem? (xs ++ (r ∷ [])) j
      ≡ (if ltb j (length xs) then get_elem? xs j else if j == length xs then some r else none)
get_elem?-snoc [] r zero = ground arith
get_elem?-snoc [] r (suc j) = ground arith
get_elem?-snoc (x ∷ xs) r zero = ground arith
get_elem?-snoc (x ∷ xs) r (suc j) = get_elem?-snoc xs r j ∙ ground arith

-- Each entry of the slice keeps its own index.
abbrev pub IsIndexed : List ℕ → (ℕ → Option ℕ) → Type 0
IsIndexed xs index = (j q : ℕ) → get_elem? xs j ≡ some q → index q ≡ some j

-- The entry `r` at `i` is removed, and the last entry `x` takes its place.
module _ (xs : List ℕ) (index : ℕ → Option ℕ) (fw : IsIndexed xs index) (r i x : ℕ)
    (here : get_elem? xs i ≡ some r) (end : get_elem? xs (length xs - 1) ≡ some x) where
  pub origin :
      (j q : ℕ)
      → get_elem? (swap_remove xs i x) j ≡ some q
      → ((q ≡ x) × (j ≡ i) × (i < length xs - 1))
        ⊎ ((get_elem? xs j ≡ some q) × (j ≢ i) × (j < length xs - 1))
  origin j q h = ground (arith, get_elem?-swap_remove xs i x j (get_elem?-lt xs i r here))

  -- What is left in the slice was in it, is not `r`, and knows its new index.
  pub remove_forward :
      (j q : ℕ)
      → get_elem? (swap_remove xs i x) j ≡ some q
      → (moved index r i x q ≡ some j) × (q ≢ r) × (at xs (index q) ≡ some q)
  unfolding moved
  remove_forward j q h = elim (origin j q h) [
    | inl (e, f, l) ↦
        let k = fw (length xs - 1) x end in
        let ne : x ≢ r = λ c. ground (arith, fw i r here) in rw e (ground arith, ne, rw k end)
    | inr (g, n, l) ↦
        let k = fw j q g in
        let ne : q ≢ r = λ c. ground (arith, fw i r here) in
        let nx : q ≢ x = λ c. ground (arith, fw (length xs - 1) x end) in (ground arith, ne, rw k g)
  ]

  remove_one :
      (q j : ℕ)
      → q ≢ r
      → index q ≡ some j
      → get_elem? xs j ≡ some q
      → ((x == q) ≡ true) ⊎ ((x == q) ≡ false)
      → at (swap_remove xs i x) (moved index r i x q) ≡ some q
  unfolding moved
  remove_one q j ne e g (inl t) =
      let m : moved index r i x q ≡ some i = ground arith in
      rw m (
        ground (
          arith,
          get_elem?-swap_remove xs i x i (get_elem?-lt xs i r here),
          get_elem?-lt xs i r here,
          ==→eq x q,
        ))
  remove_one q j ne e g (inr f) =
      let m : moved index r i x q ≡ some j = ground arith in
      rw m (
        ground
          (arith, get_elem?-swap_remove xs i x j (get_elem?-lt xs i r here), get_elem?-lt xs j q g))

  -- Every other entry of the slice is still in it, at its index.
  pub remove_at :
      (q : ℕ)
      → at xs (index q) ≡ some q
      → q ≢ r
      → at (swap_remove xs i x) (moved index r i x q) ≡ some q
  unfolding moved
  remove_at q h ne = elim (Option-cases (index q)) [
    | inl e ↦ let c : none ≡ some q = rw e at h in cc
    | inr (j, e) ↦
        let g : get_elem? xs j ≡ some q = rw e at h in remove_one q j ne e g (Bool-cases (x == q))
  ]

-- The entry `r`, which is not in the slice, is appended.
module _ (xs : List ℕ) (index : ℕ → Option ℕ) (fw : IsIndexed xs index) (r : ℕ) where
  pub push_forward :
      (j q : ℕ)
      → get_elem? (xs ++ (r ∷ [])) j ≡ some q
      → ((q ≡ r) × (j ≡ length xs)) ⊎ (get_elem? xs j ≡ some q)
  push_forward j q h = ground (arith, get_elem?-snoc xs r j)

  push_at : (q : ℕ) → at xs (index q) ≡ some q → at (xs ++ (r ∷ [])) (index q) ≡ some q
  push_at q h = elim (Option-cases (index q)) [
    | inl e ↦ let c : none ≡ some q = rw e at h in cc
    | inr (j, e) ↦
        let g : get_elem? xs j ≡ some q = rw e at h in
        rw e (ground (arith, get_elem?-snoc xs r j, get_elem?-lt xs j q g))
  ]
