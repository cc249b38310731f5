-- ===== src/Wal/Tests.antt =====
-- The log's theorems on a segment of two records.
use kvstore.Prelude.{
  ℕ, ◌+◌, ◌<◌, ◌≡◌, ◌≢◌, refl, false, some, List, [], ◌∷◌, ◌++◌, arith, length, take, key_eq_refl,
}
use kvstore.Prelude.Bytes.{word32}
use kvstore.Prelude.{Option, none, ◌≤◌}
use kvstore.Wal.Truncation.{
  SegmentInfo, Splits, IsTight, truncate_below, truncate_below_lem, truncate_below-IsTight,
}
use kvstore.Wal.Record.{
  Record, Decoded.ok, valid, encoded_len, append_record, decode_record, new_segment_header,
  parse_segment_header, segment_magic,
}
use kvstore.Wal.Record.RoundTrip.{InRange, decode_record-append_record}
use kvstore.Wal.Scan.{Scanned.scanned, Scanned.stuck, scan_segment}
use kvstore.Wal.Scan.Ends.{scan_segment_ends}
use kvstore.Wal.Replay.{File, replay}
use kvstore.Wal.Replay.Safety.{Spares, replay-Spares}
use kvstore.Wal.Replay.Recovery.{Whole, IsWhole, file_of, fits, Recovers, replay-Recovers}
use kvstore.Wal.Scan.Segment.{log, last_of, ended, visit, scan_segment_torn}

abbrev pub set_k : Record
set_k = record {
  lsn = 8;
  created_at_ms = 1000;
  rec_type = 1;
  flags = 0;
  key = 0x6B ∷ [];
  value = 0x76 ∷ 0x77 ∷ [];
  expire_at_ms = 0;
}

pub set_k-InRange : InRange set_k
unfolding valid
set_k-InRange = record {
  lsn_fits = omega arith;
  created_fits = omega arith;
  type_known = refl;
  flags_fit = omega arith;
  key_fits = omega arith;
  value_fits = omega arith;
  expire_fits = omega arith;
}

abbrev header : Record
header = new_segment_header 8 999

header-InRange : InRange header
unfolding valid new_segment_header
header-InRange = record {
  lsn_fits = omega arith;
  created_fits = omega arith;
  type_known = refl;
  flags_fit = omega arith;
  key_fits = omega arith;
  value_fits = omega arith;
  expire_fits = omega arith;
}

header_parsed : parse_segment_header header ≡ some 1
unfolding parse_segment_header new_segment_header word32
header_parsed = rw (key_eq_refl segment_magic) refl

pub short : 20 < encoded_len set_k
unfolding encoded_len
short = omega arith

decode_record-append_record_example :
    decode_record (append_record [] set_k ++ (1 ∷ 2 ∷ [])) 45 ≡ ok set_k (encoded_len set_k)
unfolding encoded_len
decode_record-append_record_example =
    decode_record-append_record set_k set_k-InRange (1 ∷ 2 ∷ []) 45 (omega arith)

abbrev collect : List ℕ → Record → List ℕ
collect lsns r = r.lsn ∷ lsns

scan_segment_ends_example : scan_segment (visit {E = ℕ} collect) (1 ∷ 2 ∷ 3 ∷ []) [] ≢ stuck
scan_segment_ends_example = scan_segment_ends (visit {E = ℕ} collect) (1 ∷ 2 ∷ 3 ∷ []) []

scan_segment_torn_example :
    scan_segment
      (visit {E = ℕ} collect)
      (log (header ∷ set_k ∷ []) ++ take 20 (append_record [] set_k))
      []
    ≡ scanned
        (ended 20 header.lsn
          (last_of 0 (set_k ∷ []))
          1
          (length (log (header ∷ set_k ∷ [])))
          (length (log (header ∷ set_k ∷ [])) + 20))
        (8 ∷ [])
scan_segment_torn_example =
    scan_segment_torn collect set_k set_k-InRange 20 short header header-InRange 1 (set_k ∷ [])
      (set_k-InRange, tt) [] header_parsed

-- Three segments that start at 1, 5 and 9.
abbrev segments : List SegmentInfo
segments =
    record { path = 1 ∷ []; first_lsn = 1; size = 90 }
    ∷ record { path = 2 ∷ []; first_lsn = 5; size = 90 }
    ∷ record { path = 3 ∷ []; first_lsn = 9; size = 90 }
    ∷ []

abbrev removable : SegmentInfo → Option ℕ
removable s = none

-- The four numbers from the segment's first one on.
abbrev Holds : SegmentInfo → ℕ → Type 0
Holds s l = (s.first_lsn ≤ l) × (l < s.first_lsn + 4)

truncate_below_lem_example :
    Splits removable Holds segments 6 (truncate_below removable none segments 6).kept
truncate_below_lem_example =
    truncate_below_lem removable Holds none segments 6 (omega arith)
      ((λ l h. h.1), ((λ l h. h.1), tt))

truncate_below-IsTight_example : IsTight removable 6 (truncate_below removable none segments 6).kept
truncate_below-IsTight_example =
    truncate_below-IsTight removable none segments 6 (omega arith) (λ s. refl)

-- A file whose record was cut at 20 bytes, and one that is whole.
abbrev pub last_segment : Whole
last_segment = (record { path = 2 ∷ []; first_lsn = 8; size = 90 }, header, set_k ∷ [])

pub last_segment-IsWhole : IsWhole last_segment
last_segment-IsWhole = record {
  header_fits = header-InRange;
  version = 1;
  header_parses = header_parsed;
  records_fit = (set_k-InRange, tt);
}

abbrev cut_file : File
cut_file = (last_segment.0, (file_of last_segment).1 ++ take 20 (append_record [] set_k))

replay-Spares_example :
    Spares
      (cut_file ∷ [])
      (replay (visit {E = ℕ} collect) fits removable 7 false (cut_file ∷ []) []).dir
replay-Spares_example = replay-Spares (visit {E = ℕ} collect) fits removable 7 (cut_file ∷ []) []

replay-Recovers_example :
    Recovers collect 7 removable false set_k set_k-InRange 20 short [] last_segment 7 []
      (replay (visit {E = ℕ} collect) fits removable 7 false (cut_file ∷ []) [])
replay-Recovers_example =
    replay-Recovers collect 7 removable false set_k set_k-InRange 20 short [] tt last_segment
      last_segment-IsWhole []
