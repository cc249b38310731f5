-- ===== src/Wal/Record/RoundTrip.antt =====
-- What was written is read back, and a record that is cut short is a torn tail.
use kvstore.Prelude.{
  ℕ, subst, ◌-◌, ◌+◌, ◌^◌, ◌≤◌, ◌<◌, ◌≡◌, refl, sym, true, List, [], ◌∷◌, ◌++◌, arith, ltb,
  if◌then◌else◌, length, length-append, take, drop, take-append, take-append_add, drop-append,
  length-take,
}
use kvstore.Prelude.Bytes.{byte, le32, word16_le16, word32_le32, word64_le64}
use kvstore.Wal.Checksum.{checksum, checksum-lt}
use kvstore.Wal.Record.{
  Record, short_record, torn_tail, ok, err, max_key_len, max_val_len, payload_header_len,
  rec_header_len, valid, payload, append_record, encoded_len, fields, decode_fields, decode_payload,
  decode_record, nth, uint16, uint32,
}

-- Every field is in the range of its Go type, and the lengths are within the log's limits.
pub record InRange (r : Record) : Type 0 where
  pub lsn_fits : r.lsn < 2 ^ 64
  pub created_fits : r.created_at_ms < 2 ^ 64
  pub type_known : valid r.rec_type ≡ true
  pub flags_fit : r.flags < 256
  pub key_fits : length r.key ≤ max_key_len
  pub value_fits : length r.value ≤ max_val_len
  pub expire_fits : r.expire_at_ms < 2 ^ 64

take-all : {A : Type 0} (xs : List A) → take (length xs) xs ≡ xs
take-all [] = refl
take-all (x ∷ xs) = rw (take-all xs)

pub encoded_len_lem :
    (r : Record)
    → encoded_len r ≡ rec_header_len + payload_header_len + length r.key + length r.value
unfolding encoded_len
encoded_len_lem r = refl

pub length-payload :
    (r : Record) → length (payload r) ≡ payload_header_len + length r.key + length r.value
unfolding payload
length-payload r = omega (arith, length-append r.key r.value)

small_byte : (v : ℕ) → v < 256 → byte v ≡ v
small_byte v h = omega arith

type_small : (t : ℕ) → valid t ≡ true → t < 256
unfolding valid
type_small t h = ground arith

module _ (r : Record) (i : InRange r) where
  fields_lem : fields (payload r) (length r.key) (length r.value) ≡ r
  unfolding fields payload
  fields_lem =
      rw
        (
          word64_le64 r.lsn i.lsn_fits,
          word64_le64 r.created_at_ms i.created_fits,
          word64_le64 r.expire_at_ms i.expire_fits,
          small_byte r.rec_type (type_small r.rec_type i.type_known),
          small_byte r.flags i.flags_fit,
          take-append r.key r.value,
          drop-append r.key r.value,
        )
        (rw (take-all r.value))

  type_byte : valid (nth (payload r) 16) ≡ true
  unfolding payload
  type_byte = rw (small_byte r.rec_type (type_small r.rec_type i.type_known)) i.type_known

  fields_payload : (n : ℕ) → decode_fields (payload r) (length r.key) (length r.value) n ≡ ok r n
  unfolding decode_fields
  fields_payload n =
      let size = length-payload r in
      let key = i.key_fits in
      let value = i.value_fits in let known = type_byte in let built = fields_lem in ground arith

  key_size : uint16 (drop 18 (payload r)) ≡ length r.key
  unfolding payload
  key_size = word16_le16 (length r.key) (let h = i.key_fits in omega arith)

  value_size : uint32 (drop 20 (payload r)) ≡ length r.value
  unfolding payload
  value_size = word32_le32 (length r.value) (let h = i.value_fits in omega arith)

  payload_decoded : (n : ℕ) → decode_payload (payload r) (checksum (payload r)) n ≡ ok r n
  unfolding decode_payload
  payload_decoded n =
      let size = length-payload r in rw (key_size, value_size, fields_payload n) (ground arith)

  abbrev pub bytes : List ℕ
  bytes = append_record [] r

  crc_read : (rest : List ℕ) → uint32 (bytes ++ rest) ≡ checksum (payload r)
  unfolding append_record
  crc_read rest = word32_le32 (checksum (payload r)) (checksum-lt (payload r))

  pub length_read :
      (rest : List ℕ)
      → uint32 (drop 4 (bytes ++ rest)) ≡ payload_header_len + length r.key + length r.value
  unfolding append_record
  length_read rest =
      let key = i.key_fits in
      let value = i.value_fits in
      word32_le32 (payload_header_len + length r.key + length r.value) (omega arith)

  pub payload_read :
      (rest : List ℕ)
      → take
          (payload_header_len + length r.key + length r.value)
          (drop rec_header_len (bytes ++ rest))
        ≡ payload r
  unfolding append_record
  payload_read rest = rw (sym (length-payload r)) (take-append (payload r) rest)

  pub length-bytes : length bytes ≡ encoded_len r
  unfolding append_record encoded_len
  length-bytes = omega (arith, length-payload r)

  -- A record in range that was appended to a buffer is decoded from it whole, with its length,
  -- whatever bytes follow it, if the file has that many bytes left.
  pub decode_record-append_record :
      (rest : List ℕ) (n : ℕ)
      → encoded_len r ≤ n
      → decode_record (append_record [] r ++ rest) n ≡ ok r (encoded_len r)
  unfolding decode_record encoded_len
  decode_record-append_record rest n h =
      let room = length-append (append_record [] r) rest in
      let size = length-bytes in
      let key = i.key_fits in
      let value = i.value_fits in
      rw (crc_read rest, length_read rest, payload_read rest, payload_decoded) (ground arith)

  cut_after_header :
      (k : ℕ)
      → take (8 + k) bytes
        ≡ (le32 (checksum (payload r)) ++ le32 (payload_header_len + length r.key + length r.value))
          ++ take k (payload r)
  unfolding append_record
  cut_after_header k =
      take-append_add
        (le32 (checksum (payload r)) ++ le32 (payload_header_len + length r.key + length r.value))
        (payload r) k

  pub cut_length :
      (k : ℕ)
      → uint32 (drop 4 (take (8 + k) bytes)) ≡ payload_header_len + length r.key + length r.value
  cut_length k =
      let key = i.key_fits in
      let value = i.value_fits in
      rw (cut_after_header k)
        (word32_le32 (payload_header_len + length r.key + length r.value) (omega arith))

  torn_after_header :
      (k : ℕ) → 8 + k < encoded_len r → decode_record (take (8 + k) bytes) (8 + k) ≡ err torn_tail
  unfolding decode_record
  torn_after_header k h =
      let size = length-bytes in
      let shape = encoded_len_lem r in
      let cut = length-take (8 + k) bytes (omega arith) in
      let key = i.key_fits in let value = i.value_fits in rw (cut_length k, cut) (ground arith)

  torn_in_header :
      (m : ℕ) → m < 8 → m < encoded_len r → decode_record (take m bytes) m ≡ err short_record
  unfolding decode_record
  torn_in_header m l h =
      let size = length-bytes in
      let cut = length-take m bytes (omega arith) in rw cut (ground arith)

  -- A record in range of which a crash left only the first `m` bytes, the last of the file, is
  -- reported as short when `m` does not reach its header's end, and as a torn tail beyond.
  pub decode_record-take :
      (m : ℕ)
      → m < encoded_len r
      → decode_record (take m (append_record [] r)) m
        ≡ err (if ltb m rec_header_len then short_record else torn_tail)
  decode_record-take m h =
      let beyond : 8 ≤ m → decode_record (take m bytes) m ≡ err torn_tail = λ l.
        let split : 8 + (m - 8) ≡ m = omega arith in
        subst (λ j. decode_record (take j bytes) j ≡ err torn_tail) split
          (torn_after_header (m - 8) (omega arith)) in
      let within = λ (l : m < 8). torn_in_header m l h in ground arith
