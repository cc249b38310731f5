-- ===== src/Wal/Replay/Safety.antt =====
-- What Replay may do to the files of the log.
use kvstore.Prelude.{
  ℕ, ◌≡◌, ◌⊎◌, inl, inr, refl, ap, Bool, true, false, Option, List, [], ◌∷◌, take, Option-cases,
}
use kvstore.Wal.Record.{Record}
use kvstore.Wal.Truncation.{SegmentInfo}
use kvstore.Wal.Scan.{
  Fault, fault_none, fault_torn_tail, fault_corrupt, Visit, Scanned, scanned, aborted, scan_segment,
}
use kvstore.Wal.Scan
use kvstore.Wal.Replay.{
  ReplayResult, File, Replayed, on_record, remove_later, repair, on_fault, after_fault, after_scan,
  replay_loop, replay,
}

-- Every segment but the last one is as it was, and the last one is as it was or cut short.
abbrev pub Spares : List File → List File → Type 0
Spares [] d = d ≡ []
Spares (f ∷ []) d = (d ≡ f ∷ []) ⊎ ((n : ℕ) × (d ≡ (f.0, take n f.1) ∷ []))
Spares (f ∷ g ∷ later) d = (rest : List File) × (d ≡ f ∷ rest) × Spares (g ∷ later) rest

Spares-self : (d : List File) → Spares d d
Spares-self [] = refl
Spares-self (f ∷ []) = inl refl
Spares-self (f ∷ g ∷ later) = (g ∷ later, refl, Spares-self (g ∷ later))

module _ {ℓ κ μ} {S : Type ℓ} {E : Type κ} {X : Type μ} (apply : S → Record → Visit S E)
    (truncate : SegmentInfo → ℕ → Option (X × Bool)) (remove : SegmentInfo → Option X)
    (min_lsn : ℕ) where
  repair_last :
      (f : File) (offset : ℕ) (res : ReplayResult) (s : S)
      → Spares (f ∷ []) (repair apply truncate remove min_lsn false f [] offset res s).dir
  unfolding repair remove_later
  repair_last f offset res s = elim (Option-cases (truncate f.0 offset)) [
    | inl e ↦ rw (e, repair) (inr (offset, refl))
    | inr ((x, true), e) ↦ rw (e, repair) (inr (offset, refl))
    | inr ((x, false), e) ↦ rw (e, repair) (inl refl)
  ]

  on_fault-Spares :
      (fault : Fault) (f : File) (later : List File) (offset : ℕ) (res : ReplayResult) (s : S)
      → Spares
          (f ∷ later)
          (on_fault apply truncate remove min_lsn false fault f later offset res s).dir
  unfolding on_fault
  on_fault-Spares fault f (g ∷ later) offset res s = Spares-self (f ∷ g ∷ later)
  on_fault-Spares fault_corrupt f [] offset res s = inl refl
  on_fault-Spares fault_none f [] offset res s = repair_last f offset res s
  on_fault-Spares fault_torn_tail f [] offset res s = repair_last f offset res s

  kept_front : (f : File) (later d : List File) → Spares later d → Spares (f ∷ later) (f ∷ d)
  kept_front f [] d e = inl (ap (λ xs. f ∷ xs) e)
  kept_front f (g ∷ later) d h = (d, refl, h)

  after_scan-Spares :
      (f : File) (later : List File) (next : ReplayResult → S → Replayed S E X) (res : ReplayResult)
      (s : S) (t : Scanned (ReplayResult × S) E)
      → ((r : ReplayResult) (u : S) → Spares later (next r u).dir)
      → Spares (f ∷ later) (after_scan apply truncate remove min_lsn false f later next res s t).dir
  unfolding after_scan after_fault
  after_scan-Spares f later next res s Scan.Scanned.stuck h = Spares-self (f ∷ later)
  after_scan-Spares f later next res s (aborted e scan p) h = Spares-self (f ∷ later)
  after_scan-Spares f later next res s (scanned scan p) h = by_fault scan.fault
    where
      by_fault :
          (fault : Fault)
          → Spares
              (f ∷ later)
              (after_fault apply truncate remove min_lsn false f later next scan.last_good_offset
                p.0 p.1 fault).dir
      by_fault fault_none = kept_front f later _ (h _ p.1)
      by_fault fault_torn_tail =
          on_fault-Spares fault_torn_tail f later scan.last_good_offset p.0 p.1
      by_fault fault_corrupt = on_fault-Spares fault_corrupt f later scan.last_good_offset p.0 p.1

  replay_loop-Spares :
      (dir : List File) (res : ReplayResult) (s : S)
      → Spares dir (replay_loop apply truncate remove min_lsn false dir res s).dir
  unfolding replay_loop
  replay_loop-Spares [] res s = refl
  replay_loop-Spares (f ∷ later) res s =
      after_scan-Spares f later (replay_loop apply truncate remove min_lsn false later) res s
        (scan_segment (on_record apply truncate remove min_lsn false) f.1 (res, s))
        (replay_loop-Spares later)

  -- Without --unsafe-truncate, whatever the files hold, whatever `apply` does and whatever fails,
  -- Replay removes no segment and leaves every segment but the last one as it was; the last one is
  -- left as it was or cut short.
  pub replay-Spares :
      (dir : List File) (s : S) → Spares dir (replay apply truncate remove min_lsn false dir s).dir
  unfolding replay
  replay-Spares dir s = replay_loop-Spares dir _ s
