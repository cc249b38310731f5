-- ===== src/Wal/Scan/Ends.antt =====
-- The scan of a segment ends.
use kvstore.Prelude.{
  ℕ, zero, suc, ◌+◌, ◌<◌, ◌≡◌, ◌≢◌, refl, Bool, true, false, List, arith, length, drop, Bool-cases,
  inl, inr, ◌⊎◌, Option-cases,
}
use kvstore.Wal.Record.{Record, parse_segment_header}
use kvstore.Wal.Scan.{
  ScanResult, Visit, Turn, stuck, clean, torn, corrupt, got, with_header, with_record, scan_read,
  scan_loop, scan_segment,
}
use kvstore.Wal.Scan.Reads.{scan_read_progress}

Turn-cases :
    (t : Turn)
    → ((t ≡ clean) ⊎ ((t ≡ torn) ⊎ (t ≡ corrupt))) ⊎ ((r : Record) × ((n : ℕ) × (t ≡ got r n)))
Turn-cases clean = inl (inl refl)
Turn-cases torn = inl (inr (inl refl))
Turn-cases corrupt = inl (inr (inr refl))
Turn-cases (got r n) = inr (r, (n, refl))

module _ {ℓ κ} {S : Type ℓ} {E : Type κ} (fn : S → Record → Visit S E) where
  scan_loop-ne-stuck :
      (fuel : ℕ) (first : Bool) (offset : ℕ) (res : ScanResult) (s : S) (buf : List ℕ)
      → length buf < fuel
      → scan_loop fn fuel first offset res s buf ≢ stuck
  unfolding scan_loop
  scan_loop-ne-stuck zero first offset res s buf h = absurd (omega arith)
  scan_loop-ne-stuck (suc fuel) first offset res s buf h = elim (Turn-cases (scan_read buf)) [
    | inl (inl q) ↦ rw (q, scan_loop) (λ e. cc)
    | inl (inr (inl q)) ↦ rw (q, scan_loop) (λ e. cc)
    | inl (inr (inr q)) ↦ rw (q, scan_loop) (λ e. cc)
    | inr (r, (n, q)) ↦
        let less : length (drop n buf) < fuel = omega (arith, scan_read_progress buf r n q) in
        let again = λ (res : ScanResult) (v : S).
          scan_loop-ne-stuck fuel false (offset + n) res v (drop n buf) less in
        elim (Bool-cases first) [
          | inl t ↦ elim (Option-cases (parse_segment_header r)) [
            | inl o ↦ rw (q, t, o, scan_loop) (λ e. cc)
            | inr (v, o) ↦ rw (q, t, o, scan_loop) (again (with_header r (offset + n) res) s)
          ]
          | inr t ↦ elim (Option-cases (fn s r).error) [
            | inl o ↦ rw (q, t, o, scan_loop) (again (with_record r (offset + n) res) (fn s r).next)
            | inr (v, o) ↦ rw (q, t, o, scan_loop) (λ e. cc)
          ]
        ]
  ]

  -- The scan of any file, with any callback, ends within the fuel it is given.
  pub scan_segment_ends : (file : List ℕ) (s : S) → scan_segment fn file s ≢ stuck
  unfolding scan_segment
  scan_segment_ends file s = scan_loop-ne-stuck (suc (length file)) true 0 _ s file (omega arith)
