-- ===== src/Cluster/Stream/RoundTrip.antt =====
-- Messages of the stream written and read back, and what a peer can make the reader allocate.
use kvstore.Prelude.{
  ℕ, zero, suc, ◌+◌, ◌^◌, ◌≤◌, ◌<◌, ◌≡◌, inl, inr, refl, ap, sym, ◌∙◌, List, [], ◌∷◌, ◌++◌, arith,
  append-nil, ltb, if◌then◌else◌, length, take, drop, false, Bool-cases,
}
use kvstore.Prelude.Bytes.{le16, le32, le64, word16_le16, word32_le32, word64_le64}
use kvstore.Protocol.Frame.{read_full, full}
use kvstore.Protocol.Frame.Stream.{read_full-append}
use kvstore.Wal.Checksum.{checksum}
use kvstore.Wal.Record.{
  Record, append_record, payload, payload_header_len, uint16, uint32, uint64, encoded_len,
  decode_record, ok,
}
use kvstore.Wal.Record.RoundTrip.{
  InRange, length-payload, encoded_len_lem, decode_record-append_record,
}
use kvstore.Cluster.Stream.{
  StreamMsg, blank, taken, msg_record, msg_heartbeat, msg_full_begin, msg_full_end, msg_ack,
  msg_reject, max_reason, max_stream_payload, cut_reason, write_record, write_heartbeat,
  write_lsn_msg, write_reject, read_payload, read_record, read_heartbeat, read_lsn_msg, read_reject,
  read_body, read_msg,
}

-- A message that a node sends.
pub data Sent : Type 0 where
  a_record : Record → Sent
  heartbeat : ℕ → ℕ → Sent
  full_begin full_end ack : ℕ → Sent
  reject : List ℕ → Sent

abbrev pub written : Sent → List ℕ
written (a_record r) = write_record r
written (heartbeat lsn epoch) = write_heartbeat lsn epoch
written (full_begin lsn) = write_lsn_msg msg_full_begin lsn
written (full_end lsn) = write_lsn_msg msg_full_end lsn
written (ack lsn) = write_lsn_msg msg_ack lsn
written (reject reason) = write_reject reason

abbrev pub meaning : Sent → StreamMsg
meaning (a_record r) = record (blank msg_record) { rec = r }
meaning (heartbeat lsn epoch) = record (blank msg_heartbeat) { lsn = lsn; epoch = epoch }
meaning (full_begin lsn) = record (blank msg_full_begin) { lsn = lsn }
meaning (full_end lsn) = record (blank msg_full_end) { lsn = lsn }
meaning (ack lsn) = record (blank msg_ack) { lsn = lsn }
meaning (reject reason) = record (blank msg_reject) { reason = take max_reason reason }

-- Every field is in the range of its Go type.
abbrev pub Fits : Sent → Type 0
Fits (a_record r) = InRange r
Fits (heartbeat lsn epoch) = (lsn < 2 ^ 64) × (epoch < 2 ^ 64)
Fits (full_begin lsn) = lsn < 2 ^ 64
Fits (full_end lsn) = lsn < 2 ^ 64
Fits (ack lsn) = lsn < 2 ^ 64
Fits (reject reason) = Unit {0}

-- The buffer grows for a record only.
abbrev pub room_after : ℕ → Sent → ℕ
room_after room (a_record r) = if ltb room (encoded_len r) then encoded_len r else room
room_after room _ = room

take-all : (n : ℕ) (xs : List ℕ) → length xs ≤ n → take n xs ≡ xs
take-all zero [] h = refl
take-all zero (x ∷ xs) h = absurd (omega arith)
take-all (suc n) [] h = refl
take-all (suc n) (x ∷ xs) h = ap (λ ys. x ∷ ys) (take-all n xs (omega arith))

take_le : (n : ℕ) (xs : List ℕ) → length (take n xs) ≤ n
take_le zero xs = omega arith
take_le (suc n) [] = omega arith
take_le (suc n) (x ∷ xs) = omega (arith, take_le n xs)

cut_reason-take : (reason : List ℕ) → cut_reason reason ≡ take max_reason reason
unfolding cut_reason
cut_reason-take reason = elim (Bool-cases (ltb max_reason (length reason))) [
  | inl e ↦ rw e refl
  | inr e ↦ rw e (sym (take-all max_reason reason (ground arith)))
]

module _ (room : ℕ) (src b rest : List ℕ) where
  lsn_from :
      (t : ℕ)
      → read_full 8 src ≡ full b rest
      → read_lsn_msg t room src ≡ taken (record (blank t) { lsn = uint64 b }) room rest
  unfolding read_lsn_msg
  lsn_from t e = rw (e, read_lsn_msg) refl

  heartbeat_from :
      read_full 16 src ≡ full b rest
      → read_heartbeat room src
        ≡ taken
            (record (blank msg_heartbeat) { lsn = uint64 b; epoch = uint64 (drop 8 b) })
            room
            rest
  unfolding read_heartbeat
  heartbeat_from e = rw (e, read_heartbeat) refl

  reject_from :
      (reason rest' : List ℕ)
      → read_full 2 src ≡ full b rest
      → read_full (uint16 b) rest ≡ full reason rest'
      → read_reject room src ≡ taken (record (blank msg_reject) { reason = reason }) room rest'
  unfolding read_reject
  reject_from reason rest' e f = rw (e, f, read_reject) refl

  record_from : read_full 8 src ≡ full b rest → read_record room src ≡ read_payload room b rest
  unfolding read_record
  record_from e = rw (e, read_record) refl

module _ (room : ℕ) (rest : List ℕ) where
  lsn_read :
      (t lsn : ℕ)
      → lsn < 2 ^ 64
      → read_lsn_msg t room (le64 lsn ++ rest) ≡ taken (record (blank t) { lsn = lsn }) room rest
  lsn_read t lsn h =
      lsn_from room _ (le64 lsn) rest t (read_full-append (le64 lsn) rest)
      ∙ rw (word64_le64 lsn h) refl

  heartbeat_read :
      (lsn epoch : ℕ)
      → lsn < 2 ^ 64
      → epoch < 2 ^ 64
      → read_heartbeat room ((le64 lsn ++ le64 epoch) ++ rest)
        ≡ taken (record (blank msg_heartbeat) { lsn = lsn; epoch = epoch }) room rest
  heartbeat_read lsn epoch h g =
      heartbeat_from room _ (le64 lsn ++ le64 epoch) rest
        (read_full-append (le64 lsn ++ le64 epoch) rest)
      ∙ rw (word64_le64 lsn h, word64_le64 epoch g) refl

  reason_read :
      (reason : List ℕ)
      → length reason < 2 ^ 16
      → read_reject room ((le16 (length reason) ++ reason) ++ rest)
        ≡ taken (record (blank msg_reject) { reason = reason }) room rest
  reason_read reason h =
      reject_from room _ (le16 (length reason)) (reason ++ rest) reason rest
        (read_full-append (le16 (length reason)) (reason ++ rest))
        (rw (word16_le16 (length reason) h) (read_full-append reason rest))

  payload_read :
      (hdr body : List ℕ) (r : Record) (n : ℕ)
      → uint32 (drop 4 hdr) ≤ max_stream_payload
      → read_full (uint32 (drop 4 hdr)) (body ++ rest) ≡ full body rest
      → decode_record (hdr ++ body) (8 + uint32 (drop 4 hdr)) ≡ ok r n
      → read_payload room hdr (body ++ rest)
        ≡ taken
            (meaning (a_record r))
            (if ltb room (8 + uint32 (drop 4 hdr)) then 8 + uint32 (drop 4 hdr) else room)
            rest
  unfolding read_payload
  payload_read hdr body r n h f d =
      let within : ltb max_stream_payload (uint32 (drop 4 hdr)) ≡ false = ground arith in
      rw (within, f, d) refl

  record_read :
      (r : Record)
      → InRange r
      → read_record room (append_record [] r ++ rest)
        ≡ taken (meaning (a_record r)) (room_after room (a_record r)) rest
  unfolding append_record
  record_read r i =
      let key = i.key_fits in
      let value = i.value_fits in
      let len = payload_header_len + length r.key + length r.value in
      let hdr = le32 (checksum (payload r)) ++ le32 len in
      let size : uint32 (drop 4 hdr) ≡ len = word32_le32 len (omega arith) in
      let total : 8 + len ≡ encoded_len r = omega (arith, encoded_len_lem r) in
      let whole = decode_record-append_record r i [] (encoded_len r) (omega arith) in
      record_from room _ hdr (payload r ++ rest) (read_full-append hdr (payload r ++ rest))
      ∙ payload_read hdr (payload r) r (encoded_len r) (omega arith)
          (rw size (rw (sym (length-payload r)) (read_full-append (payload r) rest)))
          (rw (size, total) (rw append-nil at whole))
      ∙ rw (size, total) refl

  -- A message whose fields are in the range of their types, written and then read, is the message
  -- as the reader names it, a reason cut to 1024 bytes; the stream behind it is left as it was.
  pub read_msg-written :
      (m : Sent)
      → Fits m
      → read_msg room (written m ++ rest) ≡ taken (meaning m) (room_after room m) rest
  unfolding read_msg read_body write_record write_heartbeat write_lsn_msg write_reject append_record
  read_msg-written (a_record r) i = unfold append_record in record_read r i
  read_msg-written (heartbeat lsn epoch) (h, g) = heartbeat_read lsn epoch h g
  read_msg-written (full_begin lsn) h = lsn_read msg_full_begin lsn h
  read_msg-written (full_end lsn) h = lsn_read msg_full_end lsn h
  read_msg-written (ack lsn) h = lsn_read msg_ack lsn h
  read_msg-written (reject reason) h =
      let n = take_le max_reason reason in
      rw (cut_reason-take reason) (reason_read (take max_reason reason) (omega arith))
