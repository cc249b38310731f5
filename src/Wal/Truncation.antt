-- ===== src/Wal/Truncation.antt =====
-- internal/wal/recover.go: TruncateBelow, which removes the segments that a snapshot covers.
use kvstore.Prelude.{
  ℕ, suc, ◌+◌, ◌%◌, ◌^◌, ◌≤◌, ◌<◌, ◌≡◌, refl, ap, Option, none, some, List, [], ◌∷◌, ◌++◌, All,
  arith, ltb, if◌then◌else◌, Bool-cases, Option-cases, inl, inr,
}

-- A segment as the directory lists it: its path, the first number, which its name holds, and its size.
pub record SegmentInfo : Type 0 where
  pub path : List ℕ
  pub first_lsn : ℕ
  pub size : ℕ

-- The count of removed segments, an error if there was one, and the segments that are left.
pub record Truncation {ℓ} (E : Type ℓ) : Type ℓ where
  pub removed : ℕ
  pub error : Option E
  pub kept : List SegmentInfo

module _ {ℓ} {E : Type ℓ} (remove : SegmentInfo → Option E) where
  abbrev counted : Truncation E → Truncation E
  counted t = record t { removed = suc t.removed }

  abbrev stopped : Option E → List SegmentInfo → Truncation E
  stopped e kept = record { removed = 0; error = e; kept = kept }

  -- The loop over the segments, of which the last one is never removed.
  unfoldable pub truncate_loop : List SegmentInfo → ℕ → Truncation E
  truncate_loop [] last_included = stopped none []
  truncate_loop (s ∷ []) last_included = stopped none (s ∷ [])
  truncate_loop (s ∷ t ∷ rest) last_included =
      let more = truncate_loop (t ∷ rest) last_included in
      if ltb ((last_included + 1) % 2 ^ 64) t.first_lsn
      then stopped none (s ∷ t ∷ rest)
      else (elim (remove s) [ some e ↦ stopped (some e) (s ∷ t ∷ rest) | none ↦ counted more ])

  abbrev synced : Option E → Truncation E → Truncation E
  synced failure t = elim t.error [
    | some e ↦ t
    | none ↦ if ltb 0 t.removed then record t { error = failure } else t
  ]

  -- os.Remove is `remove`, and `failure` is what SyncDir returns.
  unfoldable pub truncate_below : Option E → List SegmentInfo → ℕ → Truncation E
  truncate_below failure segs last_included = synced failure (truncate_loop segs last_included)

  synced_kept : (failure : Option E) (t : Truncation E) → (synced failure t).kept ≡ t.kept
  synced_kept failure t = elim (Option-cases t.error) [
    | inr (x, f) ↦ rw f refl
    | inl f ↦ elim (Bool-cases (ltb 0 t.removed)) [
      | inl e ↦ rw (f, e) refl
      | inr e ↦ rw (f, e) refl
    ]
  ]

  -- The segments that are left begin with one that may hold a number above `n`, as the next one
  -- starts above `n + 1`, or there is no next one.
  abbrev pub IsTight : ℕ → List SegmentInfo → Type 0
  IsTight n [] = Unit {0}
  IsTight n (s ∷ []) = Unit {0}
  IsTight n (s ∷ t ∷ rest) = n + 1 < t.first_lsn

  truncate_loop-IsTight :
      (segs : List SegmentInfo) (n : ℕ)
      → n + 1 < 2 ^ 64
      → ((s : SegmentInfo) → remove s ≡ none)
      → IsTight n (truncate_loop segs n).kept
  unfolding truncate_loop
  truncate_loop-IsTight [] n small h = tt
  truncate_loop-IsTight (s ∷ []) n small h = tt
  truncate_loop-IsTight (s ∷ t ∷ rest) n small h =
      elim (Bool-cases (ltb ((n + 1) % 2 ^ 64) t.first_lsn)) [
        | inl e ↦ rw e (ground arith)
        | inr e ↦ rw (e, h s) (truncate_loop-IsTight (t ∷ rest) n small h)
      ]

  -- Where no removal fails, TruncateBelow removes every segment that it may, for a number below
  -- 2^64 - 1: the second of the segments that are left starts above the number that follows it.
  pub truncate_below-IsTight :
      (failure : Option E) (segs : List SegmentInfo) (n : ℕ)
      → n + 1 < 2 ^ 64
      → ((s : SegmentInfo) → remove s ≡ none)
      → IsTight n (truncate_below failure segs n).kept
  unfolding truncate_below
  truncate_below-IsTight failure segs n small h =
      rw (synced_kept failure (truncate_loop segs n)) (truncate_loop-IsTight segs n small h)

  module _ {κ} (Contains : SegmentInfo → ℕ → Type κ) where
    -- Every number in a segment is below the first number of the next one.
    abbrev pub Ordered : List SegmentInfo → Type κ
    Ordered [] = Unit {κ}
    Ordered (s ∷ []) = Unit {κ}
    Ordered (s ∷ t ∷ rest) = ((l : ℕ) → Contains s l → l < t.first_lsn) × Ordered (t ∷ rest)

    abbrev pub Covered : ℕ → SegmentInfo → Type κ
    Covered n s = (l : ℕ) → Contains s l → l ≤ n

    -- The segments that are gone, all covered, stand before those that are kept.
    abbrev pub Splits : List SegmentInfo → ℕ → List SegmentInfo → Type κ
    Splits segs n kept = (gone : List SegmentInfo) × ((segs ≡ gone ++ kept) × All (Covered n) gone)

    all_kept : (segs : List SegmentInfo) (n : ℕ) → Splits segs n segs
    all_kept segs n = ([], (refl, tt))

    truncate_loop_lem :
        (segs : List SegmentInfo) (n : ℕ)
        → n + 1 < 2 ^ 64
        → Ordered segs
        → Splits segs n (truncate_loop segs n).kept
    unfolding truncate_loop
    truncate_loop_lem [] n small o = all_kept [] n
    truncate_loop_lem (s ∷ []) n small o = all_kept (s ∷ []) n
    truncate_loop_lem (s ∷ t ∷ rest) n small o =
        elim (Bool-cases (ltb ((n + 1) % 2 ^ 64) t.first_lsn)) [
          | inl e ↦ rw e (all_kept (s ∷ t ∷ rest) n)
          | inr e ↦ elim (Option-cases (remove s)) [
            | inr (x, f) ↦ rw (e, f) (all_kept (s ∷ t ∷ rest) n)
            | inl f ↦
                let (gone, (same, covered)) = truncate_loop_lem (t ∷ rest) n small o.1 in
                let mine : Covered n s = λ l c. let below = o.0 l c in ground arith in
                rw (e, f) (s ∷ gone, (ap (λ xs. s ∷ xs) same, (mine, covered)))
          ]
        ]

    -- Where every number in a segment is below the first number of the next one, the segments that
    -- TruncateBelow removes are the first ones and hold no number above the one it is given
    -- (which is below 2^64 - 1), whatever error a removal or the sync of the directory meets: the
    -- rest of the log is kept.
    pub truncate_below_lem :
        (failure : Option E) (segs : List SegmentInfo) (n : ℕ)
        → n + 1 < 2 ^ 64
        → Ordered segs
        → Splits segs n (truncate_below failure segs n).kept
    unfolding truncate_below
    truncate_below_lem failure segs n small o =
        rw (synced_kept failure (truncate_loop segs n)) (truncate_loop_lem segs n small o)
