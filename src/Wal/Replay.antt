-- ===== src/Wal/Replay.antt =====
-- internal/wal/recover.go: Replay over the segments of a directory. A directory is its segments in
-- order, each with its file's bytes; the calls of the file system are parameters, and the ending
-- directory shows what they did. The text of TruncateReason is not kept.
pub mod Safety
pub mod Recovery
use kvstore.Prelude.{
  ℕ, zero, suc, ◌+◌, ◌-◌, ◌%◌, ◌^◌, Bool, true, false, not, ◌&&◌, Option, none, some, List, [], ◌∷◌,
  ltb, leb, if◌then◌else◌, length, take,
}
use kvstore.Wal.Record.{Record}
use kvstore.Wal.Truncation.{SegmentInfo}
use kvstore.Wal.Scan.{
  Fault, fault_none, fault_torn_tail, fault_corrupt, ScanResult, Visit, Scanned, scanned, aborted,
  scan_segment,
}
use kvstore.Wal.Scan

pub record ReplayResult : Type 0 where
  pub segments : ℕ
  pub records : ℕ
  pub applied : ℕ
  pub skipped : ℕ
  pub last_lsn : ℕ
  pub next_lsn : ℕ
  pub resume_path : List ℕ
  pub resume_offset : ℕ
  pub truncated : Bool
  pub truncated_at : ℕ
  pub truncated_path : List ℕ
  pub unsafe_truncated : Bool

-- A segment of the directory, with its file.
abbrev pub File : Type 0
File = SegmentInfo × List ℕ

-- How Replay returns: nil, an error of `apply`, an error of the file system, ErrCorruptMidLog.
-- `stuck` is no Go value: a scan ran out of fuel.
pub data Ending {ℓ κ} (E : Type ℓ) (X : Type κ) : Type (ℓ ⊔ κ) where
  success corrupt_mid_log stuck : Ending E X
  apply_error : E → Ending E X
  io_error : X → Ending E X

pub record Replayed {ℓ κ μ} (S : Type ℓ) (E : Type κ) (X : Type μ) : Type (ℓ ⊔ κ ⊔ μ) where
  pub result : ReplayResult
  pub state : S
  pub dir : List File
  pub ending : Ending E X

abbrev pub counted : ReplayResult → ReplayResult
counted res = record res { records = suc res.records }

abbrev pub skip : ReplayResult → ReplayResult
skip res = record res { skipped = suc res.skipped }

abbrev pub note_applied : ReplayResult → Record → ReplayResult
note_applied res r = record res {
  applied = suc res.applied;
  last_lsn = if ltb res.last_lsn r.lsn then r.lsn else res.last_lsn;
}

abbrev pub resume_at : ReplayResult → SegmentInfo → ℕ → ReplayResult
resume_at res seg offset = record res { resume_path = seg.path; resume_offset = offset }

abbrev pub truncated_to : ReplayResult → SegmentInfo → ℕ → ReplayResult
truncated_to res seg offset = record res {
  truncated = true;
  truncated_at = offset;
  truncated_path = seg.path;
  resume_path = seg.path;
  resume_offset = offset;
}

module _ {ℓ κ μ} {S : Type ℓ} {E : Type κ} {X : Type μ} (apply : S → Record → Visit S E)
    (truncate : SegmentInfo → ℕ → Option (X × Bool)) (remove : SegmentInfo → Option X) (min_lsn : ℕ)
    (unsafe_truncate : Bool) where
  abbrev visited : ReplayResult → Record → Visit S E → Visit (ReplayResult × S) E
  visited res r v = elim v.error [
    | some e ↦ record { error = some e; next = (res, v.next) }
    | none ↦ record { error = none; next = (note_applied res r, v.next) }
  ]

  -- The callback that Replay hands to ScanSegment.
  unfoldable pub on_record : ReplayResult × S → Record → Visit (ReplayResult × S) E
  on_record p r =
      if leb r.lsn min_lsn
      then record { error = none; next = (skip (counted p.0), p.1) }
      else visited (counted p.0) r (apply p.1 r)

  abbrev ended : Ending E X → ReplayResult → S → List File → Replayed S E X
  ended ending res s dir = record { result = res; state = s; dir = dir; ending = ending }

  -- The removal of the segments behind a truncated one.
  unfoldable pub remove_later : List File → ReplayResult → S → Replayed S E X
  remove_later [] res s = ended success (record res { next_lsn = (res.last_lsn + 1) % 2 ^ 64 }) s []
  remove_later (f ∷ later) res s = elim (remove f.0) [
    | some x ↦ ended (io_error x) res s (f ∷ later)
    | none ↦ remove_later later (record res { segments = res.segments - 1 }) s
  ]

  abbrev keep : File → Replayed S E X → Replayed S E X
  keep f t = record t { dir = f ∷ t.dir }

  -- A truncation that fails says whether the file was cut before, as it is when the fsync fails.
  unfoldable pub repair : File → List File → ℕ → ReplayResult → S → Replayed S E X
  repair f later offset res s = elim (truncate f.0 offset) [
    | some (x, cut) ↦ ended (io_error x) res s ((if cut then (f.0, take offset f.1) else f) ∷ later)
    | none ↦ keep (f.0, take offset f.1) (remove_later later (truncated_to res f.0 offset) s)
  ]

  -- A fault in a segment, of which a torn tail in the last one is repaired.
  unfoldable pub on_fault : Fault → File → List File → ℕ → ReplayResult → S → Replayed S E X
  on_fault fault f (g ∷ later) offset res s =
      if unsafe_truncate
      then repair f (g ∷ later) offset (record res { unsafe_truncated = true }) s
      else ended corrupt_mid_log res s (f ∷ g ∷ later)
  on_fault fault_corrupt f [] offset res s =
      if unsafe_truncate then repair f [] offset res s else ended corrupt_mid_log res s (f ∷ [])
  on_fault fault f [] offset res s = repair f [] offset res s

  -- What follows the scan of a segment; `next` is the loop over the later ones.
  unfoldable pub after_fault :
      File
      → List File
      → (ReplayResult → S → Replayed S E X)
      → ℕ
      → ReplayResult
      → S
      → Fault
      → Replayed S E X
  after_fault f later next offset res s fault_none = keep f (next (resume_at res f.0 offset) s)
  after_fault f later next offset res s fault = on_fault fault f later offset res s

  unfoldable pub after_scan :
      File
      → List File
      → (ReplayResult → S → Replayed S E X)
      → ReplayResult
      → S
      → Scanned (ReplayResult × S) E
      → Replayed S E X
  after_scan f later next res s Scan.Scanned.stuck = ended stuck res s (f ∷ later)
  after_scan f later next res s (aborted e scan p) = ended (apply_error e) p.0 p.1 (f ∷ later)
  after_scan f later next res s (scanned scan p) =
      after_fault f later next scan.last_good_offset p.0 p.1 scan.fault

  unfoldable pub replay_loop : List File → ReplayResult → S → Replayed S E X
  replay_loop [] res s = ended success (record res { next_lsn = (res.last_lsn + 1) % 2 ^ 64 }) s []
  replay_loop (f ∷ later) res s =
      after_scan f later (replay_loop later) res s (scan_segment on_record f.1 (res, s))

  unfoldable pub replay : List File → S → Replayed S E X
  replay dir s =
      let res : ReplayResult = record {
        segments = length dir;
        records = 0;
        applied = 0;
        skipped = 0;
        last_lsn = min_lsn;
        next_lsn = 0;
        resume_path = [];
        resume_offset = 0;
        truncated = false;
        truncated_at = 0;
        truncated_path = [];
        unsafe_truncated = false;
      } in
      replay_loop dir res s
