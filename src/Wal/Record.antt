-- ===== src/Wal/Record.antt =====
-- internal/wal/record.go: the log's records and their encoding.
pub mod RoundTrip
use kvstore.Prelude.{
  ℕ, zero, suc, ◌+◌, ◌-◌, ◌*◌, ◌%◌, ◌^◌, Bool, true, false, not, ◌&&◌, ◌||◌, Option, none, some,
  List, [], ◌∷◌, ◌++◌, arith, ltb, leb, ◌==◌, key_eq, if◌then◌else◌, length, take, drop,
}
use kvstore.Prelude.Bytes.{byte, le16, le32, le64, word16, word32, word64}
use kvstore.Wal.Checksum.{checksum}

abbrev pub rec_header_len : ℕ
rec_header_len = 8

abbrev pub payload_header_len : ℕ
payload_header_len = 32

abbrev pub max_record_len : ℕ
max_record_len = payload_header_len + 2 ^ 16 + 16 * 2 ^ 20 + 64

abbrev pub max_key_len : ℕ
max_key_len = 2 ^ 16 - 1

abbrev pub max_val_len : ℕ
max_val_len = 16 * 2 ^ 20

-- A record type is a byte.
abbrev pub rec_set : ℕ
rec_set = 1

abbrev pub rec_delete : ℕ
rec_delete = 2

abbrev pub rec_expire : ℕ
rec_expire = 3

abbrev pub rec_segment_hdr : ℕ
rec_segment_hdr = 4

unfoldable pub valid : ℕ → Bool
valid t = leb rec_set t && leb t rec_segment_hdr

pub record Record : Type 0 where
  pub lsn : ℕ
  pub created_at_ms : ℕ
  pub rec_type : ℕ
  pub flags : ℕ
  pub key : List ℕ
  pub value : List ℕ
  pub expire_at_ms : ℕ

unfoldable pub encoded_len : Record → ℕ
encoded_len r = rec_header_len + payload_header_len + length r.key + length r.value

pub data Error : Type 0 where
  short_record length_too_big torn_tail bad_crc bad_payload bad_record_type : Error

-- The 32 bytes of the payload's header.
abbrev pub payload_header : Record → List ℕ
payload_header r =
    le64 r.lsn
    ++ (le64 r.created_at_ms
        ++ (byte r.rec_type
            ∷ byte r.flags
            ∷ (le16 (length r.key) ++ (le32 (length r.value) ++ le64 r.expire_at_ms))))

unfoldable pub payload : Record → List ℕ
payload r = payload_header r ++ (r.key ++ r.value)

-- The checksum covers the payload only.
unfoldable pub append_record : List ℕ → Record → List ℕ
append_record dst r =
    dst
    ++ (le32 (checksum (payload r))
        ++ (le32 (payload_header_len + length r.key + length r.value) ++ payload r))

-- `p[i]`, read within the slice.
abbrev pub nth : List ℕ → ℕ → ℕ
nth [] i = 0
nth (x ∷ xs) zero = x
nth (x ∷ xs) (suc i) = nth xs i

-- binary.LittleEndian.Uint16, Uint32 and Uint64 of a slice's first bytes.
abbrev pub uint16 : List ℕ → ℕ
uint16 p = word16 (nth p 0) (nth p 1)

abbrev pub uint32 : List ℕ → ℕ
uint32 p = word32 (nth p 0) (nth p 1) (nth p 2) (nth p 3)

abbrev pub uint64 : List ℕ → ℕ
uint64 p = word64 (nth p 0) (nth p 1) (nth p 2) (nth p 3) (nth p 4) (nth p 5) (nth p 6) (nth p 7)

pub data Decoded : Type 0 where
  ok : Record → ℕ → Decoded
  err : Error → Decoded

-- The fields of a payload whose checksum has passed, with the lengths that it declares.
unfoldable pub fields : List ℕ → ℕ → ℕ → Record
fields p key_len val_len = record {
  lsn = uint64 p;
  created_at_ms = uint64 (drop 8 p);
  rec_type = nth p 16;
  flags = nth p 17;
  key = take key_len (drop payload_header_len p);
  value = take val_len (drop key_len (drop payload_header_len p));
  expire_at_ms = uint64 (drop 24 p);
}

unfoldable pub decode_fields : List ℕ → ℕ → ℕ → ℕ → Decoded
decode_fields p key_len val_len total =
    if ltb max_val_len val_len || ltb max_key_len key_len
    then err bad_payload
    else if not (payload_header_len + key_len + val_len == length p)
    then err bad_payload
    else if not (valid (nth p 16))
    then err bad_record_type
    else ok (fields p key_len val_len) total

unfoldable pub decode_payload : List ℕ → ℕ → ℕ → Decoded
decode_payload p crc total =
    if not (checksum p == crc)
    then err bad_crc
    else if ltb (length p) payload_header_len
    then err bad_payload
    else decode_fields p (uint16 (drop 18 p)) (uint32 (drop 20 p)) total

unfoldable pub decode_record : List ℕ → ℕ → Decoded
decode_record buf file_remaining =
    if ltb (length buf) rec_header_len
    then err short_record
    else let crc = uint32 buf in
      let len = uint32 (drop 4 buf) in
      let total = rec_header_len + len in
      if ltb max_record_len len
      then err length_too_big
      else if ltb file_remaining total
      then err torn_tail
      else if ltb (length buf) total
      then err torn_tail
      else decode_payload (take len (drop rec_header_len buf)) crc total

-- "KVWALSEG"
abbrev pub segment_magic : List ℕ
segment_magic = 0x4B ∷ 0x56 ∷ 0x57 ∷ 0x41 ∷ 0x4C ∷ 0x53 ∷ 0x45 ∷ 0x47 ∷ []

abbrev pub segment_format_version : ℕ
segment_format_version = 1

unfoldable pub new_segment_header : ℕ → ℕ → Record
new_segment_header first_lsn now_ms = record {
  lsn = first_lsn;
  created_at_ms = now_ms;
  rec_type = rec_segment_hdr;
  flags = 0;
  key = segment_magic;
  value = le32 segment_format_version;
  expire_at_ms = 0;
}

-- `none` stands for each of the four errors.
unfoldable pub parse_segment_header : Record → Option ℕ
parse_segment_header r =
    if not (r.rec_type == rec_segment_hdr)
    then none
    else if not (key_eq r.key segment_magic)
    then none
    else if not (length r.value == 4)
    then none
    else let v = uint32 r.value in if not (v == segment_format_version) then none else some v
