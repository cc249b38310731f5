-- ===== src/Cluster/Primary/CatchUp.antt =====
-- What catchUp ships from the log, where no full resync is needed.
use mathlib.Core.List.{foldl, map}
use kvstore.Prelude.{
  ℕ, ◌+◌, ◌<◌, ◌≡◌, refl, ap, sym, ◌∙◌, false, some, List, [], ◌∷◌, ◌++◌, append-nil, append_assoc,
  All, arith, leb, ◌==◌, if◌then◌else◌, length, take, Bool-cases, inl, inr,
}
use kvstore.Wal.Record.{Record, append_record, encoded_len}
use kvstore.Wal.Record.RoundTrip.{InRange, encoded_len_lem}
use kvstore.Wal.Replay.Recovery.{Whole, IsWhole, records_of}
use kvstore.Wal.Scan.{ScanResult, scanned, scan_segment}
use kvstore.Wal.Scan.Segment.{log, ended, last_of, scan_segment_torn}
use kvstore.Cluster.Stream.RoundTrip.{Sent, a_record}
use kvstore.Cluster.Primary.{LogFile, ship, ship_all, need_full, catch_up}
use kvstore.Engine.{Engine}

-- The file of a segment, with the first `m` bytes of a record that was being written.
abbrev pub file_of : Whole → Record → ℕ → LogFile
file_of g cut m = record {
  first_lsn = g.0.first_lsn;
  bytes = log (g.1 ∷ g.2) ++ take m (append_record [] cut);
}

abbrev pub whole_file : Whole → LogFile
whole_file g = record { first_lsn = g.0.first_lsn; bytes = log (g.1 ∷ g.2) }

-- The records above a number, in order.
abbrev pub newer : ℕ → List Record → List Sent
newer from [] = []
newer from (r ∷ rs) = let rest = newer from rs in if leb r.lsn from then rest else a_record r ∷ rest

abbrev step : ℕ → List Sent → Record → List Sent
step from sent r = if leb r.lsn from then sent else sent ++ (a_record r ∷ [])

foldl-step :
    (from : ℕ) (rs : List Record) (sent : List Sent)
    → foldl (step from) sent rs ≡ sent ++ newer from rs
foldl-step from [] sent = sym (append-nil sent)
foldl-step from (r ∷ rs) sent = elim (Bool-cases (leb r.lsn from)) [
  | inl e ↦ rw e (foldl-step from rs sent)
  | inr e ↦ rw e (
      foldl-step from rs (sent ++ (a_record r ∷ []))
      ∙ append_assoc sent (a_record r ∷ []) (newer from rs))
]

newer-append :
    (from : ℕ) (rs qs : List Record) → newer from (rs ++ qs) ≡ newer from rs ++ newer from qs
newer-append from [] qs = refl
newer-append from (r ∷ rs) qs = elim (Bool-cases (leb r.lsn from)) [
  | inl e ↦ rw e (newer-append from rs qs)
  | inr e ↦ rw e (ap (λ t. a_record r ∷ t) (newer-append from rs qs))
]

abbrev result_of : Whole → ℕ → ScanResult
result_of g m =
    ended m g.1.lsn (last_of 0 g.2) (length g.2) (length (log (g.1 ∷ g.2)))
      (length (log (g.1 ∷ g.2)) + m)

header_some : (r : Record) → 0 < encoded_len r
header_some r = omega (arith, encoded_len_lem r)

module _ (from : ℕ) where
  scan_shipped :
      (g : Whole)
      → IsWhole g
      → (cut : Record) → InRange cut
      → (m : ℕ) → m < encoded_len cut
      → (sent : List Sent)
      → scan_segment (ship {E = Unit {0}} from) (file_of g cut m).bytes sent
        ≡ scanned (result_of g m) (sent ++ newer from g.2)
  unfolding ship
  scan_shipped g w cut c m h sent =
      scan_segment_torn (step from) cut c m h g.1 w.header_fits w.version g.2 w.records_fit sent
        w.header_parses
      ∙ ap (λ t. scanned (result_of g m) t) (foldl-step from g.2 sent)

  ship_whole :
      (g : Whole)
      → IsWhole g
      → (fs : List LogFile) (sent : List Sent)
      → ship_all from (whole_file g ∷ fs) sent ≡ ship_all from fs (sent ++ newer from g.2)
  unfolding ship_all
  ship_whole g w fs sent =
      let scan = scan_shipped g w g.1 w.header_fits 0 (header_some g.1) sent in
      rw (rw append-nil at scan, ship_all) refl

  ship_last :
      (g : Whole)
      → IsWhole g
      → (cut : Record) → InRange cut
      → (m : ℕ) → m < encoded_len cut
      → (sent : List Sent)
      → ship_all from (file_of g cut m ∷ []) sent ≡ some (sent ++ newer from g.2)
  unfolding ship_all
  ship_last g w cut c m h sent =
      rw (scan_shipped g w cut c m h sent, ship_all)
        (elim (Bool-cases (m == 0)) [ inl e ↦ rw e refl | inr e ↦ rw e refl ])

  ship_all-newer :
      (gs : List Whole)
      → All IsWhole gs
      → (g : Whole) → IsWhole g
      → (cut : Record) → InRange cut
      → (m : ℕ) → m < encoded_len cut
      → (sent : List Sent)
      → ship_all from (map whole_file gs ++ (file_of g cut m ∷ [])) sent
        ≡ some (sent ++ newer from (records_of gs ++ g.2))
  ship_all-newer [] ws g w cut c m h sent = ship_last g w cut c m h sent
  ship_all-newer (f ∷ fs) ws g w cut c m h sent =
      ship_whole f ws.0 (map whole_file fs ++ (file_of g cut m ∷ [])) sent
      ∙ ship_all-newer fs ws.1 g w cut c m h (sent ++ newer from f.2)
      ∙ ap some (
          append_assoc sent (newer from f.2) (newer from (records_of fs ++ g.2))
          ∙ ap (λ t. sent ++ t) (sym (newer-append from f.2 (records_of fs ++ g.2)))
          ∙ ap (λ t. sent ++ newer from t) (sym (append_assoc f.2 (records_of fs) g.2)))

  -- A catch-up that needs no full resync, from a log whose segments were written whole but for a
  -- torn record at the end of the last one, which may be missing, ships the records that the log
  -- has above the replica's number, each once and in the log's order, and no other.
  pub catch_up-newer {ℓ} :
      {X : Type ℓ} (e : Engine X) (now : ℕ) (gs : List Whole)
      → All IsWhole gs
      → (g : Whole) → IsWhole g
      → (cut : Record) → InRange cut
      → (m : ℕ) → m < encoded_len cut
      → need_full (map whole_file gs ++ (file_of g cut m ∷ [])) from ≡ false
      → catch_up e (map whole_file gs ++ (file_of g cut m ∷ [])) from now
        ≡ some (newer from (records_of gs ++ g.2))
  unfolding catch_up
  catch_up-newer e now gs ws g w cut c m h partial =
      rw partial (ship_all-newer gs ws g w cut c m h [])
