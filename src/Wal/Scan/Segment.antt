-- ===== src/Wal/Scan/Segment.antt =====
-- What a crash in the last record of a segment leaves of the segment's scan.
use mathlib.Core.List.{foldl}
use kvstore.Prelude.{
  ℕ, zero, suc, ◌+◌, ◌<◌, ◌≡◌, ◌≢◌, refl, ap, sym, ◌∙◌, true, false, none, some, List, [], ◌∷◌,
  ◌++◌, append_assoc, arith, ◌==◌, if◌then◌else◌, length, length-append, take, drop, drop-append,
  length-take, All, ℕ-cases, eq→==, inl, inr,
}
use kvstore.Wal.Record.{Record, append_record, encoded_len, parse_segment_header}
use kvstore.Wal.Record.RoundTrip.{InRange, length-bytes, encoded_len_lem}
use kvstore.Wal.Scan.{
  fault_none, fault_torn_tail, ScanResult, Visit, scanned, finish, with_header, with_record,
  scan_loop, scan_segment,
}
use kvstore.Wal.Scan.Reads.{scan_read-append_record, scan_read-take}

-- The bytes of records appended one after another.
abbrev pub log : List Record → List ℕ
log [] = []
log (r ∷ rs) = append_record [] r ++ log rs

abbrev pub last_of : ℕ → List Record → ℕ
last_of last rs = foldl (λ l r. r.lsn) last rs

abbrev started : ℕ → ℕ → ℕ → ℕ → ℕ → ScanResult
started first last n offset size = record {
  first_lsn = first;
  last_lsn = last;
  records = n;
  last_good_offset = offset;
  file_size = size;
  fault = fault_none;
  fault_offset = 0;
}

-- The result of a scan that stopped cleanly after `m = 0` more bytes, or in a torn tail after more.
abbrev pub ended : ℕ → ℕ → ℕ → ℕ → ℕ → ℕ → ScanResult
ended m first last n offset size = record {
  first_lsn = first;
  last_lsn = last;
  records = n;
  last_good_offset = offset;
  file_size = size;
  fault = if m == 0 then fault_none else fault_torn_tail;
  fault_offset = if m == 0 then 0 else offset;
}

pub ne→== : (a b : ℕ) → a ≢ b → (a == b) ≡ false
ne→== a b h = ground arith

drop-append_record :
    (r : Record) (i : InRange r) (rest : List ℕ)
    → drop (encoded_len r) (append_record [] r ++ rest) ≡ rest
drop-append_record r i rest = rw (sym (length-bytes r i)) (drop-append (append_record [] r) rest)

-- A callback that never fails.
abbrev pub visit {ℓ κ μ} : {S : Type ℓ} {A : Type κ} {E : Type μ} → (S → A → S) → S → A → Visit S E
visit step s r = record { error = none; next = step s r }

module _ {ℓ κ} {S : Type ℓ} {E : Type κ} (step : S → Record → S) (cut : Record) (c : InRange cut)
    (m : ℕ) (h : m < encoded_len cut) where
  scan_tail :
      (fuel first last n offset size : ℕ) (s : S)
      → scan_loop
          (visit {E = E} step)
          (suc fuel)
          false
          offset
          (started first last n offset size)
          s
          (take m (append_record [] cut))
        ≡ scanned (ended m first last n offset size) s
  unfolding finish scan_loop
  scan_tail fuel first last n offset size s = elim (ℕ-cases m 0) [
    | inl z ↦ rw (scan_read-take cut c m h, eq→== m 0 z, scan_loop) refl
    | inr z ↦ rw (scan_read-take cut c m h, ne→== m 0 z, scan_loop) refl
  ]

  scan_record :
      (r : Record) (i : InRange r) (rest : List ℕ) (fuel offset : ℕ) (res : ScanResult) (s : S)
      → scan_loop (visit {E = E} step) (suc fuel) false offset res s (append_record [] r ++ rest)
        ≡ scan_loop
            (visit {E = E} step)
            fuel
            false
            (offset + encoded_len r)
            (with_record r (offset + encoded_len r) res)
            (step s r)
            rest
  unfolding scan_loop
  scan_record r i rest fuel offset res s =
      rw (scan_read-append_record r i rest, scan_loop)
        (ap
          (λ buf.
            scan_loop (visit {E = E} step) fuel false (offset + encoded_len r)
              (with_record r (offset + encoded_len r) res) (step s r) buf)
          (drop-append_record r i rest))

  scan_header :
      (r : Record) (i : InRange r) (v : ℕ) (rest : List ℕ) (fuel offset : ℕ) (res : ScanResult)
      (s : S)
      → parse_segment_header r ≡ some v
      → scan_loop (visit {E = E} step) (suc fuel) true offset res s (append_record [] r ++ rest)
        ≡ scan_loop
            (visit {E = E} step)
            fuel
            false
            (offset + encoded_len r)
            (with_header r (offset + encoded_len r) res)
            s
            rest
  unfolding scan_loop
  scan_header r i v rest fuel offset res s e =
      rw (scan_read-append_record r i rest, e, scan_loop)
        (ap
          (λ buf.
            scan_loop (visit {E = E} step) fuel false (offset + encoded_len r)
              (with_header r (offset + encoded_len r) res) s buf)
          (drop-append_record r i rest))

  scan_records :
      (rs : List Record) (i : All InRange rs) (fuel first last n offset size records end : ℕ)
      (s : S)
      → length (log rs) < fuel
      → records ≡ n + length rs
      → end ≡ offset + length (log rs)
      → scan_loop
          (visit {E = E} step)
          fuel
          false
          offset
          (started first last n offset size)
          s
          (log rs ++ take m (append_record [] cut))
        ≡ scanned (ended m first (last_of last rs) records end size) (foldl step s rs)
  scan_records [] i zero first last n offset size records end s l a b = absurd (omega arith)
  scan_records [] i (suc fuel) first last n offset size records end s l a b =
      let a' : records ≡ n = omega arith in
      let b' : end ≡ offset = omega arith in rw (a', b') (scan_tail fuel first last n offset size s)
  scan_records (r ∷ rs) i zero first last n offset size records end s l a b = absurd (omega arith)
  scan_records (r ∷ rs) i (suc fuel) first last n offset size records end s l a b =
      let long = length-bytes r i.0 in
      let shape = encoded_len_lem r in
      let whole = length-append (append_record [] r) (log rs) in
      let rest = log rs ++ take m (append_record [] cut) in
      let again =
        scan_records rs i.1 fuel first r.lsn (suc n) (offset + encoded_len r) size records end
          (step s r) (omega arith) (omega arith) (omega arith) in
      rw (append_assoc (append_record [] r) (log rs) (take m (append_record [] cut)))
        (scan_record r i.0 rest fuel offset (started first last n offset size) s ∙ again)

  -- A segment of a header that parses and of records, all in range, of whose last record a
  -- crash left only `m` bytes (which may be none), is scanned thus by a callback that does not
  -- fail: each record before it goes to the callback once and in order, the result counts them
  -- and has the last one's number, the last good offset is the end of the last whole record,
  -- and the fault is a torn tail at that offset, or none if `m` is 0.
  pub scan_segment_torn :
      (header : Record) (i : InRange header) (v : ℕ) (rs : List Record) (is : All InRange rs)
      (s : S)
      → parse_segment_header header ≡ some v
      → scan_segment (visit {E = E} step) (log (header ∷ rs) ++ take m (append_record [] cut)) s
        ≡ scanned
            (ended m header.lsn
              (last_of 0 rs)
              (length rs)
              (length (log (header ∷ rs)))
              (length (log (header ∷ rs)) + m))
            (foldl step s rs)
  unfolding scan_segment
  scan_segment_torn header i v rs is s e =
      let rest = log rs ++ take m (append_record [] cut) in
      let size = length-bytes header i in
      let shape = encoded_len_lem header in
      let whole = length-append (append_record [] header) (log rs) in
      let file : length (log (header ∷ rs) ++ take m (append_record [] cut))
          ≡ length (log (header ∷ rs)) + m =
        omega (
          arith,
          length-append (log (header ∷ rs)) (take m (append_record [] cut)),
          length-take m (append_record [] cut) (omega (arith, length-bytes cut c)),
        ) in
      rw (file, append_assoc (append_record [] header) (log rs) (take m (append_record [] cut)))
        (scan_header header i v rest (length (log (header ∷ rs)) + m) 0
            (started 0 0 0 0 (length (log (header ∷ rs)) + m)) s e
          ∙ scan_records rs is (length (log (header ∷ rs)) + m) header.lsn 0 0
              (0 + encoded_len header) (length (log (header ∷ rs)) + m) (length rs)
              (length (log (header ∷ rs))) s (omega arith) (omega arith) (omega arith))
