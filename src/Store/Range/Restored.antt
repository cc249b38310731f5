-- ===== src/Store/Range/Restored.antt =====
-- A store filled from what Range lists.
use mathlib.Core.List.{Memᴰ}
use mathlib.Core.List.Memᴰ
use kvstore.Prelude.{
  ℕ, zero, suc, ◌≤◌, ◌<◌, ◌≡◌, inl, inr, refl, ap, sym, subst, ◌∙◌, Bool, true, false, none, some,
  List, [], ◌∷◌, ◌++◌, All, arith, ltb, leb, if◌then◌else◌, length, take, drop, length-drop,
  take-append-drop, Bool-cases, Option-cases,
}
use kvstore.Store.Entry.{is_expired}
use kvstore.Store.Shard.{Shard, Key}
use kvstore.Store.Invariant.Sound.{IsSound}
use kvstore.Store.Invariant.Slices.{Holds-index, Holds-item}
use kvstore.Store.Refinement.{shows, visible}
use kvstore.Store.Range.{Copy, clone, fill, range_from, range}
use kvstore.Store.Range.Restore.{restore, nothing, IsTrue, IsPart, restore-IsPart, restore-listed}
use kvstore.Store.Range.Members.{
  get_elem?-Memᴰ, take-suc_Memᴰ, Memᴰ-length, All-get_elem?, All-drop, All-append,
}

module _ (s : Shard) (now : ℕ) where
  IsLive : ℕ → Type 0
  IsLive r = is_expired (s.expire_at r) now ≡ false

  module _ (room r : ℕ) (rs : List ℕ) where
    fill_over :
        is_expired (s.expire_at r) now ≡ true
        → fill s now (suc room) (r ∷ rs) ≡ fill s now (suc room) rs
    unfolding fill
    fill_over t = rw (t, fill) refl

    fill_live :
        is_expired (s.expire_at r) now ≡ false
        → fill s now (suc room) (r ∷ rs) ≡ clone s r ∷ fill s now room rs
    unfolding fill
    fill_live t = rw (t, fill) refl

  fill-listed :
      (room : ℕ) (rs : List ℕ) (r : ℕ)
      → Memᴰ r (take room rs)
      → IsLive r
      → Memᴰ (clone s r) (fill s now room rs)
  unfolding fill IsLive
  fill-listed zero rs r m l = absurd (Memᴰ.not-nil m)
  fill-listed (suc room) [] r m l = absurd (Memᴰ.not-nil m)
  fill-listed (suc room) (x ∷ rs) r m l = elim (Memᴰ.cases_cons m) [
    | inl e ↦
        rw (fill_live room x rs (ap (λ q. is_expired (s.expire_at q) now) (sym e) ∙ l))
          (Memᴰ.head (ap (clone s) e))
    | inr m' ↦ elim (Bool-cases (is_expired (s.expire_at x) now)) [
      | inl t ↦
          rw (fill_over room x rs t) (fill-listed (suc room) rs r (take-suc_Memᴰ room rs m') l)
      | inr t ↦ rw (fill_live room x rs t) (Memᴰ.tail (fill-listed room rs r m' l))
    ]
  ]

  module _ (size : ℕ) (some_size : 0 < size) where
    scanned : List ℕ → ℕ
    scanned rest = if ltb (length rest) size then length rest else size

    range_from-listed :
        (fuel : ℕ) (rest : List ℕ) (r : ℕ)
        → length rest ≤ fuel
        → Memᴰ r rest
        → IsLive r
        → Memᴰ (clone s r) (range_from fuel s now size rest)
    unfolding range_from
    range_from-listed zero rest r h m l = absurd (omega (arith, Memᴰ-length rest m))
    range_from-listed (suc fuel) rest r h m l =
        let split : take size rest ++ drop size rest ≡ rest = take-append-drop size rest in
        let m' : Memᴰ r (take size rest ++ drop size rest) =
          subst (λ xs. Memᴰ r xs) (sym split) m in
        let some_rest = Memᴰ-length rest m in
        elim (Memᴰ.append_cases (take size rest) m') [
          | inl a ↦
              let some_scan : leb (if ltb (length rest) size then length rest else size) 0 ≡ false =
                ground arith in
              rw some_scan (Memᴰ.append_left _ (fill-listed size rest r a l))
          | inr b ↦
              let some_more = Memᴰ-length (drop size rest) b in
              let len = length-drop size rest in
              let all_scan : ltb (length rest) size ≡ false = ground arith in
              let some_scan : leb size 0 ≡ false = ground arith in
              let unfinished : leb (length rest) size ≡ false = ground arith in
              rw (all_scan, some_scan, unfinished)
                (Memᴰ.append_right (fill s now size rest)
                  (range_from-listed fuel (drop size rest) r (omega arith) b l))
        ]

  module _ {κ} (P : Copy → Type κ) where
    abbrev Copies : List ℕ → Type κ
    Copies rs = All (λ r. P (clone s r)) rs

    fill-All : (room : ℕ) (rs : List ℕ) → Copies rs → All P (fill s now room rs)
    unfolding fill
    fill-All room [] h = tt
    fill-All zero (r ∷ rs) h = tt
    fill-All (suc room) (r ∷ rs) h = elim (Bool-cases (is_expired (s.expire_at r) now)) [
      | inl t ↦ rw (fill_over room r rs t) (fill-All (suc room) rs h.1)
      | inr t ↦ rw (fill_live room r rs t) (h.0, fill-All room rs h.1)
    ]

    if-All : (b : Bool) (xs ys : List Copy) → All P xs → All P ys → All P (if b then xs else ys)
    if-All true xs ys h g = h
    if-All false xs ys h g = g

    range_from-All :
        (fuel size : ℕ) (rest : List ℕ) → Copies rest → All P (range_from fuel s now size rest)
    unfolding range_from
    range_from-All zero size rest h = tt
    range_from-All (suc fuel) size rest h =
        let n = (if ltb (length rest) size then length rest else size) in
        let more =
          range_from-All fuel size (drop n rest) (All-drop (λ r. P (clone s r)) n rest h) in
        if-All (leb n 0) [] _ tt (
          All-append P (fill s now size rest) _ (fill-All size rest h)
            (if-All (leb (length rest) n) [] _ tt more))

-- What holds of every entry in the map holds of every copy.
pub range-All {κ} :
    (s : Shard)
    → IsSound s
    → (now size : ℕ) (P : Copy → Type κ) → ((r : ℕ) → s.entries (s.key r) ≡ some r → P (clone s r))
    → All P (range size s now)
unfolding range
range-All s v now size P h = range_from-All s now P (length s.slots.items) size s.slots.items (
    All-get_elem? (λ r. P (clone s r)) s.slots.items
      (λ j r g. h r (v.held r (Holds-item s.slots v.slice j r g)).0))

module _ (s : Shard) (v : IsSound s) (now size : ℕ) (some_size : 0 < size) where
  range-IsTrue : All (IsTrue (shows s)) (range size s now)
  unfolding IsTrue
  range-IsTrue = range-All s v now size (IsTrue (shows s)) (λ r e. rw e refl)

  live_restored :
      (k : Key) (r : ℕ)
      → s.entries k ≡ some r
      → is_expired (s.expire_at r) now ≡ false
      → restore nothing (range size s now) k ≡ shows s k
  unfolding range IsLive
  live_restored k r e l =
      let (j, own, g) = Holds-index s.slots r (v.mapped k r e) in
      let m =
        range_from-listed s now size some_size (length s.slots.items) s.slots.items r (omega arith)
          (get_elem?-Memᴰ s.slots.items j g) l in
      subst (λ i. restore nothing (range size s now) i ≡ shows s i) (v.keyed k r e)
        (restore-listed (shows s) (range size s now) nothing (clone s r) range-IsTrue m)

  hidden_restored :
      (k : Key)
      → visible now (shows s k) ≡ none
      → visible now (restore nothing (range size s now) k) ≡ none
  unfolding IsPart visible
  hidden_restored k h =
      elim (restore-IsPart (shows s) (range size s now) nothing range-IsTrue (λ j. inl refl) k) [
        | inl e ↦ rw (e, visible) refl
        | inr e ↦ rw e h
      ]

  -- The entries that Range lists for a sound shard, in batches of any positive size, stored into
  -- an empty reference store give a store that shows at Range's time what the shard shows. So no
  -- entry that is live is missed.
  pub range-restore :
      (k : Key) → visible now (restore nothing (range size s now) k) ≡ visible now (shows s k)
  unfolding visible
  range-restore k = elim (Option-cases (s.entries k)) [
    | inl e ↦ hidden_restored k (rw e refl) ∙ rw e refl
    | inr (r, e) ↦ elim (Bool-cases (is_expired (s.expire_at r) now)) [
      | inl t ↦ hidden_restored k (rw e (rw t refl)) ∙ rw e (rw t refl)
      | inr t ↦ ap (λ o. visible now o) (live_restored k r e t)
    ]
  ]
