-- ===== src/Cluster/Stream.antt =====
-- internal/cluster/stream.go: the messages of a replication stream and their encoding.
pub mod RoundTrip
use kvstore.Prelude.{
  ℕ, ◌+◌, ◌%◌, ◌^◌, ◌||◌, Option, none, some, List, [], ◌∷◌, ◌++◌, ltb, ◌==◌, if◌then◌else◌, length,
  take, drop,
}
use kvstore.Prelude.Bytes.{le16, le64}
use kvstore.Protocol.Limits
use kvstore.Protocol.Frame.{read_full, full, failed}
use kvstore.Wal.Record
use kvstore.Wal.Record.{
  Record, Decoded, ok, err, append_record, decode_record, max_record_len, rec_header_len, uint16,
  uint32, uint64,
}

-- A message's type is a byte.
abbrev pub msg_record : ℕ
msg_record = 1

abbrev pub msg_heartbeat : ℕ
msg_heartbeat = 2

abbrev pub msg_full_begin : ℕ
msg_full_begin = 3

abbrev pub msg_full_end : ℕ
msg_full_end = 4

abbrev pub msg_ack : ℕ
msg_ack = 5

abbrev pub msg_reject : ℕ
msg_reject = 6

abbrev pub max_stream_payload : ℕ
max_stream_payload = max_record_len + 64

-- What each writer puts on the wire.
unfoldable pub write_record : Record → List ℕ
write_record r = append_record (msg_record ∷ []) r

unfoldable pub write_heartbeat : ℕ → ℕ → List ℕ
write_heartbeat lsn epoch = msg_heartbeat ∷ (le64 lsn ++ le64 epoch)

unfoldable pub write_lsn_msg : ℕ → ℕ → List ℕ
write_lsn_msg t lsn = t ∷ le64 lsn

abbrev pub max_reason : ℕ
max_reason = 1024

unfoldable pub cut_reason : List ℕ → List ℕ
cut_reason reason = if ltb max_reason (length reason) then take max_reason reason else reason

unfoldable pub write_reject : List ℕ → List ℕ
write_reject reason = let r = cut_reason reason in msg_reject ∷ (le16 (length r) ++ r)

pub record StreamMsg : Type 0 where
  pub msg_type : ℕ
  pub rec : Record
  pub lsn : ℕ
  pub epoch : ℕ
  pub reason : List ℕ

-- wal.Record{}
abbrev pub zero_record : Record
zero_record = record {
  lsn = 0;
  created_at_ms = 0;
  rec_type = 0;
  flags = 0;
  key = [];
  value = [];
  expire_at_ms = 0;
}

abbrev pub blank : ℕ → StreamMsg
blank t = record { msg_type = t; rec = zero_record; lsn = 0; epoch = 0; reason = [] }

pub data StreamError : Type 0 where
  io : Limits.Error → StreamError
  record_too_long : ℕ → StreamError
  bad_record : Record.Error → StreamError
  unknown_type : ℕ → StreamError

-- What readMsg returns, the capacity of its buffer, and the stream behind the message.
pub record Read : Type 0 where
  pub msg : StreamMsg
  pub cap : ℕ
  pub error : Option StreamError
  pub stream : List ℕ

abbrev pub refused : StreamMsg → ℕ → StreamError → List ℕ → Read
refused m room e src = record { msg = m; cap = room; error = some e; stream = src }

abbrev pub taken : StreamMsg → ℕ → List ℕ → Read
taken m room src = record { msg = m; cap = room; error = none; stream = src }

abbrev decoded : StreamMsg → ℕ → List ℕ → Decoded → Read
decoded m room src (ok r n) = taken (record m { rec = r }) room src
decoded m room src (err e) = refused m room (bad_record e) src

-- The record behind its header of eight bytes.
unfoldable pub read_payload : ℕ → List ℕ → List ℕ → Read
read_payload room hdr src =
    let m = blank msg_record in
    let len = uint32 (drop 4 hdr) in
    if ltb max_stream_payload len
    then refused m room (record_too_long len) src
    else let total = rec_header_len + len in
      let room' = if ltb room total then total else room in
      elim (read_full len src) [
        | failed e rest ↦ refused m room' (io e) rest
        | full body rest ↦ decoded m room' rest (decode_record (hdr ++ body) total)
      ]

unfoldable pub read_record : ℕ → List ℕ → Read
read_record room src = elim (read_full rec_header_len src) [
  | failed e rest ↦ refused (blank msg_record) room (io e) rest
  | full hdr rest ↦ read_payload room hdr rest
]

unfoldable pub read_heartbeat : ℕ → List ℕ → Read
read_heartbeat room src = elim (read_full 16 src) [
  | failed e rest ↦ refused (blank msg_heartbeat) room (io e) rest
  | full b rest ↦
      taken (record (blank msg_heartbeat) { lsn = uint64 b; epoch = uint64 (drop 8 b) }) room rest
]

unfoldable pub read_lsn_msg : ℕ → ℕ → List ℕ → Read
read_lsn_msg t room src = elim (read_full 8 src) [
  | failed e rest ↦ refused (blank t) room (io e) rest
  | full b rest ↦ taken (record (blank t) { lsn = uint64 b }) room rest
]

unfoldable pub read_reject : ℕ → List ℕ → Read
read_reject room src = elim (read_full 2 src) [
  | failed e rest ↦ refused (blank msg_reject) room (io e) rest
  | full b rest ↦ elim (read_full (uint16 b) rest) [
    | failed e rest' ↦ refused (blank msg_reject) room (io e) rest'
    | full reason rest' ↦ taken (record (blank msg_reject) { reason = reason }) room rest'
  ]
]

-- The switch on a message's first byte.
unfoldable pub read_body : ℕ → ℕ → List ℕ → Read
read_body t room src =
    if t == msg_record
    then read_record room src
    else if t == msg_heartbeat
    then read_heartbeat room src
    else if (t == msg_full_begin) || (t == msg_full_end) || (t == msg_ack)
    then read_lsn_msg t room src
    else if t == msg_reject
    then read_reject room src
    else refused (blank t) room (unknown_type t) src

-- readMsg, with a buffer of capacity `room`.
unfoldable pub read_msg : ℕ → List ℕ → Read
read_msg room [] = refused (blank 0) room (io Limits.eof) []
read_msg room (t ∷ src) = read_body t room src
