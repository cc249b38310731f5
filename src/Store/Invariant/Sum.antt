-- ===== src/Store/Invariant/Sum.antt =====
-- The sum of a field over the entries of a slice.
use kvstore.Prelude.{
  ℕ, zero, suc, ◌+◌, ◌-◌, ◌<◌, ◌≡◌, ◌≢◌, refl, ap, sym, some, List, [], ◌∷◌, ◌++◌, arith, length,
  get_elem?, set, take, length-set,
}
use kvstore.Store.Lru.{update}
use kvstore.Store.Slots.{swap_remove}

abbrev pub sum_by : (ℕ → ℕ) → List ℕ → ℕ
sum_by f [] = 0
sum_by f (x ∷ xs) = f x + sum_by f xs

pub sum_by-snoc : (f : ℕ → ℕ) (xs : List ℕ) (r : ℕ) → sum_by f (xs ++ (r ∷ [])) ≡ sum_by f xs + f r
sum_by-snoc f [] r = omega arith
sum_by-snoc f (x ∷ xs) r = omega (arith, sum_by-snoc f xs r)

sum_by-set :
    (f : ℕ → ℕ) (xs : List ℕ) (i v r : ℕ)
    → get_elem? xs i ≡ some r
    → sum_by f (set xs i v) + f r ≡ sum_by f xs + f v
sum_by-set f [] i v r h = cc
sum_by-set f (x ∷ xs) zero v r h = let e : x ≡ r = cc in rw e (omega arith)
sum_by-set f (x ∷ xs) (suc i) v r h = omega (arith, sum_by-set f xs i v r h)

sum_by-take_last :
    (f : ℕ → ℕ) (n : ℕ) (xs : List ℕ) (x : ℕ)
    → length xs ≡ suc n
    → get_elem? xs n ≡ some x
    → sum_by f (take n xs) + f x ≡ sum_by f xs
sum_by-take_last f n [] x l h = cc
sum_by-take_last f zero (y ∷ []) x l h = let e : y ≡ x = cc in rw e (omega arith)
sum_by-take_last f zero (y ∷ z ∷ ys) x l h = absurd (omega arith)
sum_by-take_last f (suc n) (y ∷ ys) x l h = omega (arith, sum_by-take_last f n ys x (omega arith) h)

get_elem?-set_last :
    (xs : List ℕ) (i n x : ℕ) → get_elem? xs n ≡ some x → get_elem? (set xs i x) n ≡ some x
get_elem?-set_last [] i n x h = h
get_elem?-set_last (y ∷ ys) zero zero x h = refl
get_elem?-set_last (y ∷ ys) zero (suc n) x h = h
get_elem?-set_last (y ∷ ys) (suc i) zero x h = h
get_elem?-set_last (y ∷ ys) (suc i) (suc n) x h = get_elem?-set_last ys i n x h

-- Removing the entry `r` takes its share from the sum.
pub sum_by-swap_remove :
    (f : ℕ → ℕ) (xs : List ℕ) (i x r : ℕ)
    → 0 < length xs
    → get_elem? xs i ≡ some r
    → get_elem? xs (length xs - 1) ≡ some x
    → sum_by f (swap_remove xs i x) + f r ≡ sum_by f xs
unfolding swap_remove
sum_by-swap_remove f xs i x r l here end = omega (
  arith,
  sum_by-set f xs i x r here,
  sum_by-take_last f (length xs - 1) (set xs i x) x (omega (arith, length-set xs i x))
      (get_elem?-set_last xs i (length xs - 1) x end),
)

-- A new value for an entry that is not in the slice leaves the sum alone.
pub sum_by-absent :
    (f : ℕ → ℕ) (r v : ℕ) (xs : List ℕ)
    → ((j : ℕ) → get_elem? xs j ≢ some r)
    → sum_by (update f r v) xs ≡ sum_by f xs
sum_by-absent f r v [] h = refl
sum_by-absent f r v (x ∷ xs) h =
    let ne : r ≢ x = λ e. h 0 (ap some (sym e)) in
    ground (arith, sum_by-absent f r v xs (λ j. h (suc j)), ne)

-- A new value for an entry that is in the slice once.
pub sum_by-update :
    (f : ℕ → ℕ) (r v i : ℕ) (xs : List ℕ)
    → get_elem? xs i ≡ some r
    → ((j : ℕ) → get_elem? xs j ≡ some r → j ≡ i)
    → sum_by (update f r v) xs + f r ≡ sum_by f xs + v
sum_by-update f r v i [] h once = cc
sum_by-update f r v zero (x ∷ xs) h once =
    let e : x ≡ r = cc in
    ground (arith, sum_by-absent f r v xs (λ j g. absurd (omega (arith, once (suc j) g))))
sum_by-update f r v (suc i) (x ∷ xs) h once =
    let ne : r ≢ x = λ e. absurd (omega (arith, once 0 (ap some (sym e)))) in
    ground (arith, ne, sum_by-update f r v i xs h (λ j g. omega (arith, once (suc j) g)))
