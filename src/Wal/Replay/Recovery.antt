-- ===== src/Wal/Replay/Recovery.antt =====
-- Replay after a crash: the state is that of the records that were whole.
use mathlib.Core.List.{foldl, map, foldl-append}
use mathlib.Core.Path.{fun_ext}
use kvstore.Prelude.{
  ℕ, ◌+◌, ◌%◌, ◌^◌, ◌<◌, ◌≡◌, ◌≢◌, refl, ap, sym, subst, ◌∙◌, Bool, Option, none, some, List, [],
  ◌∷◌, ◌++◌, append-nil, append_assoc, arith, ltb, leb, ◌==◌, if◌then◌else◌, length, take,
  take-append, All, Bool-cases, ℕ-cases, inl, inr,
}
use kvstore.Wal.Record.{Record, append_record, encoded_len, parse_segment_header}
use kvstore.Wal.Record.RoundTrip.{InRange, encoded_len_lem}
use kvstore.Wal.Truncation.{SegmentInfo}
use kvstore.Wal.Scan.{fault_none, fault_torn_tail, scanned, scan_segment}
use kvstore.Wal.Scan.Segment.{log, last_of, ended, visit, ne→==, scan_segment_torn}
use kvstore.Wal.Replay.{
  ReplayResult, File, Replayed, success, resume_at, counted, skip, note_applied, on_record,
  remove_later, repair, on_fault, after_fault, after_scan, replay_loop, replay,
}

-- A segment with its header and its records.
abbrev pub Whole : Type 0
Whole = SegmentInfo × Record × List Record

abbrev pub file_of : Whole → File
file_of (seg, header, rs) = (seg, log (header ∷ rs))

abbrev pub records_of : List Whole → List Record
records_of [] = []
records_of ((seg, header, rs) ∷ ws) = rs ++ records_of ws

-- The header parses, and all is in the range of its Go type and of the log's limits.
pub record IsWhole (w : Whole) : Type 0 where
  pub header_fits : InRange w.1
  pub version : ℕ
  pub header_parses : parse_segment_header w.1 ≡ some version
  pub records_fit : All InRange w.2

-- The last number above `min_lsn`, or `min_lsn`, after a record.
abbrev pub later_lsn : ℕ → ℕ → Record → ℕ
later_lsn min_lsn l r = if leb r.lsn min_lsn then l else (if ltb l r.lsn then r.lsn else l)

-- A record above `min_lsn` is applied.
abbrev pub apply_new {ℓ} : {S : Type ℓ} → (S → Record → S) → ℕ → S → Record → S
apply_new step min_lsn s r = if leb r.lsn min_lsn then s else step s r

fold_over {ℓ κ} :
    {A : Type ℓ} {B : Type κ} (f : B → A → B) (b : B) (xs ys zs : List A)
    → foldl f b ((xs ++ ys) ++ zs) ≡ foldl f (foldl f b xs) (ys ++ zs)
fold_over f b xs ys zs = rw (append_assoc xs ys zs) (foldl-append f b xs (ys ++ zs))

-- The truncation of a file that does not fail.
abbrev pub fits {κ} : {X : Type κ} → SegmentInfo → ℕ → Option X
fits seg offset = none

module _ {ℓ} {S : Type ℓ} (step : S → Record → S) (min_lsn : ℕ) where
  abbrev stepped : ReplayResult × S → Record → ReplayResult × S
  stepped p r =
      if leb r.lsn min_lsn
      then (skip (counted p.0), p.1)
      else (note_applied (counted p.0) r, step p.1 r)

  stepped_state :
      (p : ReplayResult × S) (r : Record) → (stepped p r).1 ≡ apply_new step min_lsn p.1 r
  stepped_state p r = elim (Bool-cases (leb r.lsn min_lsn)) [
    | inl e ↦ rw e refl
    | inr e ↦ rw e refl
  ]

  stepped_last :
      (p : ReplayResult × S) (r : Record)
      → (stepped p r).0.last_lsn ≡ later_lsn min_lsn p.0.last_lsn r
  stepped_last p r = elim (Bool-cases (leb r.lsn min_lsn)) [ inl e ↦ rw e refl | inr e ↦ rw e refl ]

  fold_state :
      (rs : List Record) (p : ReplayResult × S)
      → (foldl stepped p rs).1 ≡ foldl (apply_new step min_lsn) p.1 rs
  fold_state [] p = refl
  fold_state (r ∷ rs) p =
      fold_state rs (stepped p r)
      ∙ ap (λ s. foldl (apply_new step min_lsn) s rs) (stepped_state p r)

  fold_last :
      (rs : List Record) (p : ReplayResult × S)
      → (foldl stepped p rs).0.last_lsn ≡ foldl (later_lsn min_lsn) p.0.last_lsn rs
  fold_last [] p = refl
  fold_last (r ∷ rs) p =
      fold_last rs (stepped p r) ∙ ap (λ l. foldl (later_lsn min_lsn) l rs) (stepped_last p r)

  module _ {κ μ} {E : Type κ} {X : Type μ} (remove : SegmentInfo → Option X) (unsafe : Bool) where
    on_record_total :
        (p : ReplayResult × S) (r : Record)
        → on_record (visit {E = E} step) fits remove min_lsn unsafe p r ≡ visit {E = E} stepped p r
    unfolding on_record
    on_record_total p r = elim (Bool-cases (leb r.lsn min_lsn)) [
      | inl e ↦ rw (e, on_record) refl
      | inr e ↦ rw (e, on_record) refl
    ]

    on_record_eq : on_record (visit {E = E} step) fits remove min_lsn unsafe ≡ visit {E = E} stepped
    on_record_eq = fun_ext λ p. fun_ext λ r. on_record_total p r

    scan_cut :
        (cut : Record) (c : InRange cut) (m : ℕ) (h : m < encoded_len cut) (w : Whole)
        (i : IsWhole w) (p : ReplayResult × S)
        → scan_segment
            (on_record (visit {E = E} step) fits remove min_lsn unsafe)
            ((file_of w).1 ++ take m (append_record [] cut))
            p
          ≡ scanned
              (ended m w.1.lsn
                (last_of 0 w.2)
                (length w.2)
                (length (file_of w).1)
                (length (file_of w).1 + m))
              (foldl stepped p w.2)
    scan_cut cut c m h w i p = rw on_record_eq (
        scan_segment_torn stepped cut c m h w.1 i.header_fits i.version w.2 i.records_fit p
          i.header_parses)

    scan_whole :
        (w : Whole) (i : IsWhole w) (p : ReplayResult × S)
        → scan_segment (on_record (visit {E = E} step) fits remove min_lsn unsafe) (file_of w).1 p
          ≡ scanned
              (ended 0 w.1.lsn
                (last_of 0 w.2)
                (length w.2)
                (length (file_of w).1)
                (length (file_of w).1 + 0))
              (foldl stepped p w.2)
    scan_whole w i p =
        rw append-nil at (scan_cut w.1 i.header_fits 0 (omega (arith, encoded_len_lem w.1)) w i p)

    module _ (cut : Record) (c : InRange cut) (m : ℕ) (h : m < encoded_len cut) where
      -- What a replay of whole segments and a last one that was cut gives.
      abbrev pub Recovers : List Whole → Whole → ℕ → S → Replayed S E X → Type (ℓ ⊔ κ ⊔ μ)
      Recovers ws w last s t =
          (t.ending ≡ success)
          × (t.state ≡ foldl (apply_new step min_lsn) s (records_of ws ++ w.2))
          × (t.dir ≡ map file_of ws ++ (file_of w ∷ []))
          × (t.result.resume_path ≡ w.0.path)
          × (t.result.resume_offset ≡ length (file_of w).1)
          × (t.result.next_lsn
              ≡ (foldl (later_lsn min_lsn) last (records_of ws ++ w.2) + 1) % 2 ^ 64)

      -- The end of the last segment, from what its scan left.
      abbrev Ends : Whole → ReplayResult × S → Replayed S E X → Type (ℓ ⊔ κ ⊔ μ)
      Ends w p t =
          (t.ending ≡ success)
          × (t.state ≡ p.1)
          × (t.dir ≡ file_of w ∷ [])
          × (t.result.resume_path ≡ w.0.path)
          × (t.result.resume_offset ≡ length (file_of w).1)
          × (t.result.next_lsn ≡ (p.0.last_lsn + 1) % 2 ^ 64)

      abbrev after_last : Whole → ReplayResult × S → ℕ → Replayed S E X
      after_last w p n =
          after_fault (visit {E = E} step) fits remove min_lsn unsafe
            (w.0, (file_of w).1 ++ take n (append_record [] cut)) []
            (replay_loop (visit {E = E} step) fits remove min_lsn unsafe []) (length (file_of w).1)
            p.0 p.1 (if n == 0 then fault_none else fault_torn_tail)

      Ends-clean : (w : Whole) (p : ReplayResult × S) → Ends w p (after_last w p 0)
      unfolding after_fault replay_loop
      Ends-clean w p =
          (refl, refl, ap (λ b. (w.0, b) ∷ []) (append-nil (file_of w).1), refl, refl, refl)

      Ends-torn : (w : Whole) (p : ReplayResult × S) (n : ℕ) → n ≢ 0 → Ends w p (after_last w p n)
      unfolding after_fault on_fault repair remove_later
      Ends-torn w p n z = rw (ne→== n 0 z) (
        refl,
        refl,
        ap (λ b. (w.0, b) ∷ []) (take-append (file_of w).1 (take n (append_record [] cut))),
        refl,
        refl,
        refl,
      )

      Ends-last : (w : Whole) (p : ReplayResult × S) → Ends w p (after_last w p m)
      Ends-last w p = elim (ℕ-cases m 0) [
        | inl z ↦ subst (λ n. Ends w p (after_last w p n)) (sym z) (Ends-clean w p)
        | inr z ↦ Ends-torn w p m z
      ]

      Recovers-last :
          (w : Whole) (i : IsWhole w) (res : ReplayResult) (s : S)
          → Recovers [] w res.last_lsn s (
              replay_loop
                (visit {E = E} step)
                fits
                remove
                min_lsn
                unsafe
                ((w.0, (file_of w).1 ++ take m (append_record [] cut)) ∷ [])
                res
                s)
      unfolding replay_loop after_scan
      Recovers-last w i res s =
          let p = foldl stepped (res, s) w.2 in
          let (ok, state, dir, path, offset, following) = Ends-last w p in
          rw (scan_cut cut c m h w i (res, s), after_scan)
            (
              ok,
              state ∙ fold_state w.2 (res, s),
              dir,
              path,
              offset,
              following ∙ ap (λ l. (l + 1) % 2 ^ 64) (fold_last w.2 (res, s)),
            )

      Recovers-loop :
          (ws : List Whole) (is : All IsWhole ws) (w : Whole) (i : IsWhole w) (res : ReplayResult)
          (s : S)
          → Recovers ws w res.last_lsn s (
              replay_loop
                (visit {E = E} step)
                fits
                remove
                min_lsn
                unsafe
                (map file_of ws ++ ((w.0, (file_of w).1 ++ take m (append_record [] cut)) ∷ []))
                res
                s)
      unfolding replay_loop after_scan after_fault
      Recovers-loop [] is w i res s = Recovers-last w i res s
      Recovers-loop (u ∷ ws) is w i res s =
          let p = foldl stepped (res, s) u.2 in
          let (ok, state, dir, path, offset, following) =
            Recovers-loop ws is.1 w i (resume_at p.0 u.0 (length (file_of u).1)) p.1 in
          rw (scan_whole u is.0 (res, s), after_scan)
            (
              ok,
              state
                  ∙ ap (λ v. foldl (apply_new step min_lsn) v (records_of ws ++ w.2))
                      (fold_state u.2 (res, s))
                  ∙ sym (fold_over (apply_new step min_lsn) s u.2 (records_of ws) w.2),
              ap (λ d. file_of u ∷ d) dir,
              path,
              offset,
              following
                  ∙ ap (λ l. (foldl (later_lsn min_lsn) l (records_of ws ++ w.2) + 1) % 2 ^ 64)
                      (fold_last u.2 (res, s))
                  ∙ ap (λ l. (l + 1) % 2 ^ 64)
                      (sym (fold_over (later_lsn min_lsn) res.last_lsn u.2 (records_of ws) w.2)),
            )

      -- A log of whole segments, of whose last one's last record a crash left only `m` bytes (which
      -- may be none), is replayed thus, if `apply` and the truncation do not fail: the state is
      -- that of the whole records above `min_lsn`, each applied once and in order; the next number
      -- follows the last of theirs, or `min_lsn`; every file is as it was but the last one, which
      -- is cut to its whole records; and appending resumes at its end.
      pub replay-Recovers :
          (ws : List Whole) (is : All IsWhole ws) (w : Whole) (i : IsWhole w) (s : S)
          → Recovers ws w min_lsn s (
              replay
                (visit {E = E} step)
                fits
                remove
                min_lsn
                unsafe
                (map file_of ws ++ ((w.0, (file_of w).1 ++ take m (append_record [] cut)) ∷ []))
                s)
      unfolding replay
      replay-Recovers ws is w i s = Recovers-loop ws is w i _ s
