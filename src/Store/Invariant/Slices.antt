-- ===== src/Store/Invariant/Slices.antt =====
-- What the slice operations do to the set of entries that a slice holds.
use kvstore.Prelude.{
  ℕ, ◌+◌, ◌-◌, ◌^◌, ◌≤◌, ◌<◌, ◌≡◌, ◌≢◌, ◌⊎◌, inl, inr, none, some, arith, length, get_elem?, set,
  Option-cases, length-take, length-set,
}
use kvstore.Store.Slots.{Slice, int32_index, push, swap_remove, moved, cut_at, cut_index, cut}
use kvstore.Store.Invariant.Index.{
  at, get_elem?-lt, get_elem?-last, IsIndexed, origin, remove_forward, remove_at, push_forward,
  get_elem?-snoc,
}
use kvstore.Store.Invariant.Sum.{sum_by, sum_by-swap_remove}

-- Each entry of the slice keeps its own index.
abbrev pub IsSlice : Slice → Type 0
IsSlice t = IsIndexed t.items t.index

-- The entry is in the slice, at the index that it keeps.
abbrev pub Holds : Slice → ℕ → Type 0
Holds t q = at t.items (t.index q) ≡ some q

pub Holds-index :
    (t : Slice) (q : ℕ)
    → Holds t q
    → (j : ℕ) × (t.index q ≡ some j) × (get_elem? t.items j ≡ some q)
Holds-index t q h = elim (Option-cases (t.index q)) [
  | inl e ↦ let c : none ≡ some q = rw e at h in cc
  | inr (j, e) ↦ (j, e, rw e at h)
]

pub Holds-item : (t : Slice) → IsSlice t → (j q : ℕ) → get_elem? t.items j ≡ some q → Holds t q
Holds-item t ok j q g = rw (ok j q g) g

-- The removal of an entry that the slice holds.
module _ (t : Slice) (ok : IsSlice t) (r : ℕ) (h : Holds t r) where
  cut_lem :
      (i : ℕ) × (x : ℕ) × (get_elem? t.items i ≡ some r)
      × (get_elem? t.items (length t.items - 1) ≡ some x)
      × (cut t r ≡ record { items = swap_remove t.items i x; index = moved t.index r i x })
  unfolding cut cut_index cut_at
  cut_lem =
      let (i, e, g) = Holds-index t r h in
      let l = get_elem?-lt t.items i r g in
      let (x, last) = get_elem?-last t.items (omega arith) in
      (i, x, g, last, rw e (ground (arith, l, last)))

  pub cut-IsSlice : IsSlice (cut t r)
  cut-IsSlice =
      let (i, x, g, last, e) = cut_lem in
      rw e (λ j q f. (remove_forward t.items t.index ok r i x g last j q f).0)

  pub cut_rest : (q : ℕ) → Holds (cut t r) q → Holds t q × (q ≢ r)
  cut_rest q f =
      let (i, x, g, last, e) = cut_lem in
      let f' : at (swap_remove t.items i x) (moved t.index r i x q) ≡ some q = rw e at f in
      let (j, k, b) =
        Holds-index (record { items = swap_remove t.items i x; index = moved t.index r i x }) q
          f' in
      let o = remove_forward t.items t.index ok r i x g last j q b in (o.2, o.1)

  pub cut_keeps : (q : ℕ) → Holds t q → q ≢ r → Holds (cut t r) q
  cut_keeps q f ne =
      let (i, x, g, last, e) = cut_lem in rw e (remove_at t.items t.index ok r i x g last q f ne)

  -- What stands behind the removed entry stood behind it, or was the last one.
  pub cut_behind :
      (j p q : ℕ)
      → get_elem? t.items j ≡ some r
      → j ≤ p
      → get_elem? (cut t r).items p ≡ some q
      → (p' : ℕ) × (j < p') × (get_elem? t.items p' ≡ some q)
  cut_behind j p q here le f =
      let (i, x, g, last, e) = cut_lem in
      let same : i ≡ j = ground (arith, ok i r g, ok j r here) in
      elim (origin t.items t.index ok r i x g last p q (rw e at f)) [
        | inl (c, d, l) ↦ (length t.items - 1, omega arith, rw c last)
        | inr (c, d, l) ↦ (p, ground arith, c)
      ]

  pub cut_shorter : length (cut t r).items + 1 ≡ length t.items
  unfolding swap_remove
  cut_shorter =
      let (i, x, g, last, e) = cut_lem in
      rw e (
        omega (
          arith,
          get_elem?-lt t.items i r g,
          length-take (length t.items - 1) (set t.items i x)
              (omega (arith, length-set t.items i x)),
        ))

  pub cut_idle : (q : ℕ) → t.index q ≡ none → (cut t r).index q ≡ none
  unfolding moved
  cut_idle q f =
      let (i, x, g, last, e) = cut_lem in
      let k = ok (length t.items - 1) x last in
      let ne : x ≢ q = λ c. ground arith in rw e (ground (arith, ne))

  pub cut_index_self : (cut t r).index r ≡ none
  unfolding moved
  cut_index_self = let (i, x, g, last, e) = cut_lem in rw e (ground arith)

  pub cut_sum : (f : ℕ → ℕ) → sum_by f (cut t r).items + f r ≡ sum_by f t.items
  cut_sum f =
      let (i, x, g, last, e) = cut_lem in
      rw e (sum_by-swap_remove f t.items i x r (omega (arith, get_elem?-lt t.items i r g)) g last)

  pub length-cut : length (cut t r).items ≤ length t.items
  unfolding swap_remove
  length-cut =
      let (i, x, g, last, e) = cut_lem in
      rw e (
        omega (
          arith,
          length-take (length t.items - 1) (set t.items i x)
              (omega (arith, length-set t.items i x)),
        ))

-- The entry is appended to a slice that does not hold it.
module _ (t : Slice) (ok : IsSlice t) (r : ℕ) (out : (j : ℕ) → get_elem? t.items j ≢ some r)
    (room : length t.items < 2 ^ 31) where
  short_index : int32_index (length t.items) ≡ some (length t.items)
  short_index = ground arith

  pub push-IsSlice : IsSlice (push t r)
  unfolding push
  push-IsSlice j q g = elim (push_forward t.items t.index ok r j q g) [
    | inl (e, l) ↦ rw (e, l) (ground (arith, short_index))
    | inr f ↦ let ne : r ≢ q = λ c. out j (rw c f) in ground (arith, ne, ok j q f)
  ]

  pub push-Holds : Holds (push t r) r
  unfolding push
  push-Holds =
      let k : (push t r).index r ≡ some (length t.items) = ground (arith, short_index) in
      rw k (ground (arith, get_elem?-snoc t.items r (length t.items)))

  pub push_keeps : (q : ℕ) → Holds t q → Holds (push t r) q
  unfolding push
  push_keeps q h =
      let (j, e, g) = Holds-index t q h in
      let ne : r ≢ q = λ c. out j (rw c g) in
      let k : (push t r).index q ≡ some j = ground (arith, ne) in
      rw k (ground (arith, get_elem?-snoc t.items r j, get_elem?-lt t.items j q g))

  pub push_from : (q : ℕ) → Holds (push t r) q → Holds t q ⊎ (q ≡ r)
  unfolding push
  push_from q h =
      let (j, e, g) = Holds-index (push t r) q h in
      elim (push_forward t.items t.index ok r j q g) [
        | inl (s, l) ↦ inr s
        | inr f ↦ inl (Holds-item t ok j q f)
      ]

  pub push_idle : (q : ℕ) → q ≢ r → t.index q ≡ none → (push t r).index q ≡ none
  unfolding push
  push_idle q ne h = ground arith
