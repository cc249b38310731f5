-- ===== src/Wal/Scan/Reads.antt =====
-- One turn of the scan on bytes that were appended, whole or cut short, and its progress.
use kvstore.Prelude.{
  ℕ, subst, ◌-◌, ◌+◌, ◌≤◌, ◌<◌, ◌≡◌, refl, List, [], ◌++◌, append-nil, arith, ◌==◌, if◌then◌else◌,
  length, length-append, take, drop, length-take, length-drop,
}
use kvstore.Wal.Record.{
  Record, Decoded.ok, append_record, encoded_len, decode_record, decode_payload, decode_fields,
  rec_header_len, uint32, payload,
}
use kvstore.Wal.Record.RoundTrip.{
  InRange, bytes, length_read, payload_read, length-bytes, cut_length, encoded_len_lem,
  decode_record-append_record,
}
use kvstore.Wal.Scan.{clean, torn, got, scan_read}

decode_record-ok_length :
    (buf : List ℕ) (k : ℕ) (r : Record) (n : ℕ) → decode_record buf k ≡ ok r n → 8 ≤ n
unfolding decode_record decode_payload decode_fields
decode_record-ok_length buf k r n e = ground arith

pub scan_read_progress :
    (buf : List ℕ) (r : Record) (n : ℕ) → scan_read buf ≡ got r n → length (drop n buf) < length buf
unfolding scan_read
scan_read_progress buf r n e =
    let cut = length-drop n buf in
    let len = uint32 (drop 4 buf) in
    let whole = take rec_header_len buf ++ take len (drop rec_header_len buf) in
    let long = decode_record-ok_length whole (length buf) r n in ground arith

module _ (r : Record) (i : InRange r) where
  header_cut : (rest : List ℕ) → take 8 (bytes r i ++ rest) ++ payload r ≡ bytes r i
  unfolding append_record
  header_cut rest = refl

  pub scan_read-append_record :
      (rest : List ℕ) → scan_read (append_record [] r ++ rest) ≡ got r (encoded_len r)
  unfolding scan_read
  scan_read-append_record rest =
      let room = length-append (append_record [] r) rest in
      let size = length-bytes r i in
      let shape = encoded_len_lem r in
      let key = i.key_fits in
      let value = i.value_fits in
      let read =
        (rw append-nil at (
          decode_record-append_record r i [] (length (append_record [] r ++ rest))
            (omega arith))) in
      rw (length_read r i rest, payload_read r i rest, header_cut rest, read) (ground arith)

  cut_after_header :
      (k : ℕ) → 8 + k < encoded_len r → scan_read (take (8 + k) (append_record [] r)) ≡ torn
  unfolding scan_read
  cut_after_header k h =
      let size = length-bytes r i in
      let shape = encoded_len_lem r in
      let cut = length-take (8 + k) (bytes r i) (omega arith) in
      let key = i.key_fits in let value = i.value_fits in rw (cut_length r i k, cut) (ground arith)

  cut_in_header :
      (m : ℕ) → m < 8 → scan_read (take m (append_record [] r)) ≡ (if m == 0 then clean else torn)
  unfolding scan_read
  cut_in_header m h =
      let size = length-bytes r i in
      let shape = encoded_len_lem r in
      let cut = length-take m (bytes r i) (omega arith) in rw cut (ground arith)

  pub scan_read-take :
      (m : ℕ)
      → m < encoded_len r
      → scan_read (take m (append_record [] r)) ≡ (if m == 0 then clean else torn)
  scan_read-take m h =
      let beyond : 8 ≤ m → scan_read (take m (append_record [] r)) ≡ torn = λ l.
        let split : 8 + (m - 8) ≡ m = omega arith in
        subst (λ j. scan_read (take j (append_record [] r)) ≡ torn) split
          (cut_after_header (m - 8) (omega arith)) in
      let within = λ (l : m < 8). cut_in_header m l in ground arith
