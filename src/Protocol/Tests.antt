-- ===== src/Protocol/Tests.antt =====
-- The protocol's theorems at concrete frames, commands and bodies.
use kvstore.Prelude.{
  ℕ, ◌≡◌, ◌≢◌, ◌⊎◌, ◌≤◌, refl, none, some, List, [], ◌∷◌, ◌++◌, arith, length, take,
}
use kvstore.Prelude.Bytes
use kvstore.Prelude.Bytes.{IsByte}
use kvstore.Protocol.Frame
use kvstore.Protocol.Limits.{max_frame_len}
use kvstore.Protocol.Opcode
use kvstore.Protocol.Opcode.{Opcode}
use kvstore.Protocol.Cursor
use kvstore.Protocol.Command
use kvstore.Protocol.Command.{Command, decode_command, encode_command}
use kvstore.Protocol.Command.RoundTrip.{InRange, restrict, decode_command-encode_command}
use kvstore.Protocol.Command.Canonical.{encode_command-decode_command}
use kvstore.Protocol.Frame.{
  Header, Frame, encode_header, decode_header, header_bytes, read_frame, write_frame, effective,
}
use kvstore.Protocol.Frame.HeaderCodec.{IsLegal}
use kvstore.Protocol.Frame.Stream.{
  sent, grown, cut_error, read_frame-write_frame, read_frame_cut, read_frame_room,
}
use kvstore.Protocol.Frame.Writer.{Write, write_full, IsWriter, write_full_ends, stuck}

-- SET "k" "vw" with a TTL of 1000 ms.
abbrev set_k : Command
set_k = record {
  op = Opcode.set;
  key = 0x6B ∷ [];
  value = 0x76 ∷ 0x77 ∷ [];
  ttl_millis = 1000;
  limit = 0;
  from_lsn = 0;
  node_id = [];
  node_port = 0;
}

abbrev set_k_body : List ℕ
set_k_body = 1 ∷ 0 ∷ 0x6B ∷ 2 ∷ 0 ∷ 0 ∷ 0 ∷ 0x76 ∷ 0x77 ∷ 0xE8 ∷ 3 ∷ 0 ∷ 0 ∷ 0 ∷ 0 ∷ 0 ∷ 0 ∷ []

set_k-InRange : InRange set_k
set_k-InRange = record {
  key_fits = omega arith;
  value_fits = omega arith;
  ttl_fits = omega arith;
  limit_fits = omega arith;
  lsn_fits = omega arith;
  id_fits = omega arith;
  port_fits = omega arith;
}

decode_command-encode_command_example :
    decode_command Opcode.set (encode_command [] set_k) ≡ (restrict Opcode.set set_k, none)
unfolding Opcode.valid
decode_command-encode_command_example = decode_command-encode_command set_k refl set_k-InRange

set_k_decoded : decode_command Opcode.set set_k_body ≡ (set_k, none)
unfolding decode_command Command.branch_set Command.branch_set_value Cursor.u32 Cursor.short_bytes
    Cursor.bytes Cursor.u16 Cursor.u64 Cursor.done Bytes.word16 Bytes.word32 Bytes.word64
set_k_decoded = refl

encode_command-decode_command_example :
    (set_k.op ≡ Opcode.set) × (encode_command [] set_k ≡ set_k_body)
encode_command-decode_command_example =
    encode_command-decode_command Opcode.set set_k_body set_k (ground arith) set_k_decoded

abbrev set_header : Header
set_header = record {
  version = 1;
  code = 3;
  flags = 1;
  reserved = 0;
  request_id = 7;
  body_len = 17;
}

set_header-IsLegal : IsLegal set_header
set_header-IsLegal = record {
  version_known = refl;
  code_fits = omega arith;
  flags_known = omega arith;
  reserved_clear = refl;
  id_fits = omega arith;
  body_fits = omega arith;
}

abbrev set_header_bytes : List ℕ
set_header_bytes = 0x4B ∷ 0x56 ∷ 1 ∷ 3 ∷ 1 ∷ 0 ∷ 0 ∷ 0 ∷ 7 ∷ 0 ∷ 0 ∷ 0 ∷ 17 ∷ 0 ∷ 0 ∷ 0 ∷ []

set_header_decoded : decode_header set_header_bytes ≡ (set_header, none)
unfolding decode_header Frame.check_fields Bytes.word16 Bytes.word32
set_header_decoded = refl

sent-IsLegal : IsLegal (sent set_header set_k_body)
sent-IsLegal = record {
  version_known = refl;
  code_fits = omega arith;
  flags_known = omega arith;
  reserved_clear = refl;
  id_fits = omega arith;
  body_fits = omega arith;
}

read_frame-write_frame_example :
    read_frame 0 1024 (write_frame [] set_header set_k_body ++ (9 ∷ [])) ≡ record {
      frame = record { header = sent set_header set_k_body; body = set_k_body };
      cap = grown 0 17;
      error = none;
      stream = 9 ∷ [];
    }
unfolding effective
read_frame-write_frame_example =
    read_frame-write_frame set_header set_k_body sent-IsLegal 0 1024 (9 ∷ []) (omega arith)

read_frame_cut_example :
    (read_frame 0 1024 (take 20 (write_frame [] set_header set_k_body))).error ≡ some (cut_error 20)
unfolding effective
read_frame_cut_example =
    read_frame_cut set_header set_k_body sent-IsLegal 0 1024 20 (omega arith) (omega arith)

read_frame_room_example :
    (((read_frame 8 1024 (set_header_bytes ++ set_k_body)).cap ≡ 8)
      ⊎ ((read_frame 8 1024 (set_header_bytes ++ set_k_body)).cap ≤ effective 1024))
    × (effective 1024 ≤ max_frame_len)
read_frame_room_example = read_frame_room 8 1024 (set_header_bytes ++ set_k_body)

-- A writer that takes one byte at a time, and keeps what it took.
abbrev byte_writer : List ℕ → List ℕ → Write (List ℕ) ℕ
byte_writer w p = record { count = length (take 1 p); error = none; next = w ++ take 1 p }

byte_writer-IsWriter : IsWriter byte_writer (λ w. w)
byte_writer-IsWriter = record { counted = one_at_most; accepted = one_taken }
  where
    one_at_most : (w p : List ℕ) → (byte_writer w p).count ≤ length p
    one_at_most w [] = omega arith
    one_at_most w (x ∷ p) = omega arith

    one_taken : (w p : List ℕ) → (byte_writer w p).next ≡ w ++ take (byte_writer w p).count p
    one_taken w [] = refl
    one_taken w (x ∷ p) = refl

write_full_ends_example : write_full byte_writer [] set_k_body ≢ stuck
write_full_ends_example = write_full_ends byte_writer (λ w. w) byte_writer-IsWriter [] set_k_body
