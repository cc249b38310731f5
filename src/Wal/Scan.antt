-- ===== src/Wal/Scan.antt =====
-- internal/wal/reader.go: ScanSegment. The file is its bytes, which no one else writes while it is
-- scanned, so a read of bytes that the file still has gives them. The path and the text of the
-- fault are not kept.
pub mod Reads
pub mod Ends
pub mod Segment
use kvstore.Prelude.{
  ℕ, zero, suc, ◌+◌, Bool, true, false, ◌&&◌, Option, none, some, List, ◌++◌, ltb, ◌==◌,
  if◌then◌else◌, length, take, drop,
}
use kvstore.Wal.Record.{
  Record, Decoded, Error, torn_tail, rec_header_len, max_record_len, uint32, decode_record,
  parse_segment_header,
}
use kvstore.Wal.Record.{Decoded.ok, Decoded.err}

pub data Fault : Type 0 where
  fault_none fault_torn_tail fault_corrupt : Fault

pub record ScanResult : Type 0 where
  pub first_lsn : ℕ
  pub last_lsn : ℕ
  pub records : ℕ
  pub last_good_offset : ℕ
  pub file_size : ℕ
  pub fault : Fault
  pub fault_offset : ℕ

-- What one turn of the loop finds at the front of the bytes that remain.
pub data Turn : Type 0 where
  clean torn corrupt : Turn
  got : Record → ℕ → Turn

abbrev turn_of : Decoded → Turn
turn_of (ok r n) = got r n
turn_of (err torn_tail) = torn
turn_of (err e) = corrupt

unfoldable pub scan_read : List ℕ → Turn
scan_read buf =
    let remaining = length buf in
    if remaining == 0
    then clean
    else if ltb remaining rec_header_len
    then torn
    else let len = uint32 (drop 4 buf) in
      if ltb max_record_len len
      then corrupt
      else if ltb remaining (rec_header_len + len)
      then torn
      else turn_of
          (decode_record (take rec_header_len buf ++ take len (drop rec_header_len buf)) remaining)

abbrev pub with_fault : Fault → ℕ → ScanResult → ScanResult
with_fault f offset res = record res { fault = f; fault_offset = offset }

-- What one call of `fn` gives: its error, and the caller's new state.
pub record Visit {ℓ κ} (S : Type ℓ) (E : Type κ) : Type (ℓ ⊔ κ) where
  pub error : Option E
  pub next : S

-- `stuck` is no Go value: the loop ran out of fuel.
pub data Scanned {ℓ κ} (S : Type ℓ) (E : Type κ) : Type (ℓ ⊔ κ) where
  scanned : ScanResult → S → Scanned S E
  aborted : E → ScanResult → S → Scanned S E
  stuck : Scanned S E

abbrev pub is_none : Fault → Bool
is_none fault_none = true
is_none f = false

-- A segment without a header is a torn tail at offset 0.
unfoldable pub finish : Bool → ScanResult → ScanResult
finish first res = if first && is_none res.fault then with_fault fault_torn_tail 0 res else res

abbrev pub with_header : Record → ℕ → ScanResult → ScanResult
with_header r offset res = record res { first_lsn = r.lsn; last_good_offset = offset }

abbrev pub with_record : Record → ℕ → ScanResult → ScanResult
with_record r offset res = record res {
  records = suc res.records;
  last_lsn = r.lsn;
  last_good_offset = offset;
}

module _ {ℓ κ} {S : Type ℓ} {E : Type κ} (fn : S → Record → Visit S E) where
  unfoldable pub scan_loop : ℕ → Bool → ℕ → ScanResult → S → List ℕ → Scanned S E
  scan_loop zero first offset res s buf = stuck
  scan_loop (suc fuel) first offset res s buf = elim (scan_read buf) [
    | clean ↦ scanned (finish first res) s
    | torn ↦ scanned (finish first (with_fault fault_torn_tail offset res)) s
    | corrupt ↦ scanned (finish first (with_fault fault_corrupt offset res)) s
    | got r n ↦ elim first [
      | true ↦ elim (parse_segment_header r) [
        | none ↦ scanned (finish true (with_fault fault_corrupt offset res)) s
        | some v ↦ scan_loop fuel false (offset + n) (with_header r (offset + n) res) s (drop n buf)
      ]
      | false ↦
          let v = fn s r in
          elim v.error [
            | some e ↦ aborted e res v.next
            | none ↦
                scan_loop fuel false (offset + n) (with_record r (offset + n) res) v.next
                  (drop n buf)
          ]
    ]
  ]

  -- Each turn that goes on takes a record's header at least, so a turn for every byte and one
  -- more are enough.
  unfoldable pub scan_segment : List ℕ → S → Scanned S E
  scan_segment file s =
      let res : ScanResult = record {
        first_lsn = 0;
        last_lsn = 0;
        records = 0;
        last_good_offset = 0;
        file_size = length file;
        fault = fault_none;
        fault_offset = 0;
      } in
      scan_loop (suc (length file)) true 0 res s file
