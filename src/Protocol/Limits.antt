-- ===== src/Protocol/Limits.antt =====
-- internal/protocol/limits.go, internal/protocol/status.go, and the errors of frame.go.
use kvstore.Prelude.{ℕ, ◌+◌, ◌-◌, ◌*◌, ◌/◌, ◌^◌, Bool, ◌==◌}

abbrev pub max_key_len : ℕ
max_key_len = 2 ^ 16 - 1

-- 16 << 20
abbrev pub max_value_len : ℕ
max_value_len = 16 * 2 ^ 20

abbrev pub max_frame_len : ℕ
max_frame_len = max_value_len + max_key_len + 64

abbrev pub header_len : ℕ
header_len = 16

abbrev pub magic : ℕ
magic = 0x564B

abbrev pub version : ℕ
version = 0x01

abbrev pub flag_no_reply : ℕ
flag_no_reply = 1

abbrev pub all_flags : ℕ
all_flags = flag_no_reply

-- uint64(math.MaxInt64/int64(1_000_000)) - 1
abbrev pub max_ttl_millis : ℕ
max_ttl_millis = (2 ^ 63 - 1) / 1_000_000 - 1

-- The codec's errors. All but `unknown_opcode` wrap ErrProtocol; `eof` and `unexpected_eof` are
-- those of package io.
pub data Error : Type 0 where
  bad_magic bad_version reserved_set unknown_flags frame_too_large : Error
  trailing_bytes truncated key_too_long value_too_long unknown_opcode : Error
  eof unexpected_eof short_write : Error

-- A response status is a byte.
abbrev pub status_ok : ℕ
status_ok = 0x00

abbrev pub status_protocol_error : ℕ
status_protocol_error = 0x80

unfoldable pub fatal : ℕ → Bool
fatal s = s == status_protocol_error

unfoldable pub is_ok : ℕ → Bool
is_ok s = s == status_ok
