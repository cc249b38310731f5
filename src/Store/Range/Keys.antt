-- ===== src/Store/Range/Keys.antt =====
-- The keys that Keys lists.
use mathlib.Core.List.{Memᴰ}
use mathlib.Core.List.Memᴰ
use kvstore.Prelude.{
  ℕ, zero, suc, ◌≤◌, ◌<◌, ◌≡◌, ◌≢◌, inl, inr, refl, ap, sym, subst, ◌∙◌, Bool, true, false, not,
  ◌&&◌, none, some, List, [], ◌∷◌, ◌++◌, arith, ◌==◌, ==→eq, if◌then◌else◌, length, take, get_elem?,
  Bool-cases, Option-cases,
}
use kvstore.Store.Entry.{is_expired}
use kvstore.Store.Shard.{Shard, Key}
use kvstore.Store.Invariant.Sound.{IsSound}
use kvstore.Store.Invariant.Slices.{Holds-index, Holds-item}
use kvstore.Store.Refinement.{shows, visible}
use kvstore.Store.Range.{has_prefix, keys_from, keys}
use kvstore.Store.Range.Members.{get_elem?-Memᴰ}

take-all {ℓ} : {A : Type ℓ} (n : ℕ) (xs : List A) → length xs ≤ n → take n xs ≡ xs
take-all zero [] h = refl
take-all zero (x ∷ xs) h = absurd (omega arith)
take-all (suc n) [] h = refl
take-all (suc n) (x ∷ xs) h = ap (λ ys. x ∷ ys) (take-all n xs (omega arith))

has_prefix_append : (b p : List ℕ) → has_prefix b p ≡ true → (rest : List ℕ) × (b ≡ p ++ rest)
unfolding has_prefix
has_prefix_append b [] h = (b, refl)
has_prefix_append [] (x ∷ p) h = cc
has_prefix_append (y ∷ b) (x ∷ p) h =
    let (rest, e) = has_prefix_append b p (ground arith) in
    (rest, ap (λ t. y ∷ t) e ∙ ap (λ z. z ∷ (p ++ rest)) (==→eq y x (ground arith)))

module _ (s : Shard) (now : ℕ) (prefix : List ℕ) where
  passes : ℕ → Bool
  passes r = not (is_expired (s.expire_at r) now) && has_prefix (s.key r) prefix

  -- The keys of all entries that pass.
  matching : List ℕ → List Key
  unfolding passes
  matching [] = []
  matching (r ∷ rs) = let rest = matching rs in if passes r then s.key r ∷ rest else rest

  keys_from-take :
      (room : ℕ) (rs : List ℕ) → keys_from s now prefix room rs ≡ take room (matching rs)
  unfolding keys_from matching passes
  keys_from-take zero [] = refl
  keys_from-take (suc room) [] = refl
  keys_from-take zero (r ∷ rs) = refl
  keys_from-take (suc room) (r ∷ rs) =
      let more = keys_from-take room rs in
      let skipped = keys_from-take (suc room) rs in
      elim (Bool-cases (is_expired (s.expire_at r) now)) [
        | inl t ↦ rw (t, keys_from) skipped
        | inr t ↦ elim (Bool-cases (has_prefix (s.key r) prefix)) [
          | inl p ↦ rw (t, p, keys_from) (ap (λ ks. s.key r ∷ ks) more)
          | inr p ↦ rw (t, p, keys_from) skipped
        ]
      ]

  matching-Memᴰ :
      (rs : List ℕ) (k : Key)
      → Memᴰ k (matching rs)
      → (r : ℕ) × Memᴰ r rs × (passes r ≡ true) × (s.key r ≡ k)
  unfolding matching
  matching-Memᴰ [] k m = absurd (Memᴰ.not-nil m)
  matching-Memᴰ (r ∷ rs) k m = elim (Bool-cases (passes r)) [
    | inr p ↦
        let m' : Memᴰ k (matching rs) = rw p at m in
        let (q, i, t, e) = matching-Memᴰ rs k m' in (q, Memᴰ.tail i, t, e)
    | inl p ↦
        let m' : Memᴰ k (s.key r ∷ matching rs) = rw p at m in
        elim (Memᴰ.cases_cons m') [
          | inl e ↦ (r, Memᴰ.head refl, p, sym e)
          | inr n ↦ let (q, i, t, e) = matching-Memᴰ rs k n in (q, Memᴰ.tail i, t, e)
        ]
  ]

  Memᴰ-matching : (rs : List ℕ) (r : ℕ) → Memᴰ r rs → passes r ≡ true → Memᴰ (s.key r) (matching rs)
  unfolding matching
  Memᴰ-matching [] r m p = absurd (Memᴰ.not-nil m)
  Memᴰ-matching (q ∷ rs) r m p = elim (Memᴰ.cases_cons m) [
    | inl e ↦ rw (ap passes (sym e) ∙ p) (Memᴰ.head (ap s.key e))
    | inr n ↦
        let later = Memᴰ-matching rs r n p in
        elim (Bool-cases (passes q)) [ inl t ↦ rw t (Memᴰ.tail later) | inr t ↦ rw t later ]
  ]

Memᴰ-take {ℓ} : {A : Type ℓ} (n : ℕ) (xs : List A) {a : A} → Memᴰ a (take n xs) → Memᴰ a xs
Memᴰ-take zero xs m = absurd (Memᴰ.not-nil m)
Memᴰ-take (suc n) [] m = m
Memᴰ-take (suc n) (x ∷ xs) m = elim (Memᴰ.cases_cons m) [
  | inl e ↦ Memᴰ.head e
  | inr m' ↦ Memᴰ.tail (Memᴰ-take n xs m')
]

length-take_le {ℓ} : {A : Type ℓ} (n : ℕ) (xs : List A) → length (take n xs) ≤ n
length-take_le zero xs = omega arith
length-take_le (suc n) [] = omega arith
length-take_le (suc n) (x ∷ xs) = omega (arith, length-take_le n xs)

take_short {ℓ} : {A : Type ℓ} (n : ℕ) (xs : List A) → length (take n xs) < n → take n xs ≡ xs
take_short zero xs h = absurd (omega arith)
take_short (suc n) [] h = refl
take_short (suc n) (x ∷ xs) h = ap (λ ys. x ∷ ys) (take_short n xs (omega arith))

append-has_prefix : (p rest : List ℕ) → has_prefix (p ++ rest) p ≡ true
unfolding has_prefix
append-has_prefix [] rest = refl
append-has_prefix (x ∷ p) rest = ground (arith, append-has_prefix p rest)

Memᴰ-get_elem? {ℓ} :
    {A : Type ℓ} (xs : List A) {a : A} → Memᴰ a xs → (j : ℕ) × (get_elem? xs j ≡ some a)
Memᴰ-get_elem? [] m = absurd (Memᴰ.not-nil m)
Memᴰ-get_elem? (x ∷ xs) m = elim (Memᴰ.cases_cons m) [
  | inl e ↦ (zero, ap some (sym e))
  | inr m' ↦ let (j, e) = Memᴰ-get_elem? xs m' in (suc j, e)
]

-- The key starts with the prefix, and a client sees it.
abbrev pub Listable : Shard → ℕ → List ℕ → Key → Type 0
Listable s now prefix k =
    (visible now (shows s k) ≢ none) × ((rest : List ℕ) × (k ≡ prefix ++ rest))

module _ (s : Shard) (v : IsSound s) (prefix : List ℕ) (limit now : ℕ) where
  abbrev most : ℕ
  most = if limit == 0 then 100 else limit

  keys-take : keys s prefix limit now ≡ take most (matching s now prefix s.slots.items)
  unfolding keys
  keys-take = keys_from-take s now prefix most s.slots.items

  keys-Listable : (k : Key) → Memᴰ k (keys s prefix limit now) → Listable s now prefix k
  unfolding visible passes
  keys-Listable k m =
      let listed = Memᴰ-take most (matching s now prefix s.slots.items) (rw keys-take at m) in
      let (r, i, p, e) = matching-Memᴰ s now prefix s.slots.items k listed in
      let (j, g) = Memᴰ-get_elem? s.slots.items i in
      let f = (v.held r (Holds-item s.slots v.slice j r g)).0 in
      let live : is_expired (s.expire_at r) now ≡ false = ground arith in
      let (rest, q) = has_prefix_append (s.key r) prefix (ground arith) in
      (rw (sym e) (rw f (rw live (λ c. cc))), (rest, sym e ∙ q))

  keys-length : length (keys s prefix limit now) ≤ most
  keys-length = rw keys-take (length-take_le most (matching s now prefix s.slots.items))

  keys-whole :
      length (keys s prefix limit now) < most
      → (k : Key) → Listable s now prefix k
      → Memᴰ k (keys s prefix limit now)
  unfolding visible passes
  keys-whole h k (seen, (rest, e)) = elim (Option-cases (s.entries k)) [
    | inl n ↦ absurd (seen (rw n refl))
    | inr (r, f) ↦ elim (Bool-cases (is_expired (s.expire_at r) now)) [
      | inl t ↦ absurd (seen (rw f (rw t refl)))
      | inr t ↦
          let (j, own, g) = Holds-index s.slots r (v.mapped k r f) in
          let named = v.keyed k r f in
          let starts : has_prefix (s.key r) prefix ≡ true =
            rw (named ∙ e) (append-has_prefix prefix rest) in
          let found =
            Memᴰ-matching s now prefix s.slots.items r (get_elem?-Memᴰ s.slots.items j g)
              (ground arith) in
          let all = take_short most (matching s now prefix s.slots.items) (rw keys-take at h) in
          rw (keys-take, all)
            (subst (λ i. Memᴰ i (matching s now prefix s.slots.items)) named found)
    ]
  ]

  -- Keys lists, of a sound shard, only keys that a client sees at its time and that start with the
  -- prefix, and not more than the limit, or 100 for a limit of 0. Where it lists fewer, it lists
  -- every such key.
  pub keys_lem :
      ((k : Key) → Memᴰ k (keys s prefix limit now) → Listable s now prefix k)
      × (length (keys s prefix limit now) ≤ most)
      × (length (keys s prefix limit now) < most
          → (k : Key) → Listable s now prefix k
          → Memᴰ k (keys s prefix limit now))
  keys_lem = (keys-Listable, keys-length, keys-whole)
