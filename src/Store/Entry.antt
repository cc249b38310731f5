-- ===== src/Store/Entry.antt =====
-- internal/store/entry.go: the cost and the expiry of an entry.
use kvstore.Prelude.{ℕ, ◌+◌, Bool, not, ◌&&◌, leb, ◌==◌}

-- unsafe.Sizeof(Entry{}) on a 64-bit platform: two slices of 24 bytes, two 8-byte words, three
-- 4-byte words with 4 bytes of padding, and two pointers.
abbrev pub entry_struct_size : ℕ
entry_struct_size = 96

abbrev pub map_overhead : ℕ
map_overhead = 64

unfoldable pub entry_cost : ℕ → ℕ → ℕ
entry_cost key_len value_len = key_len + value_len + entry_struct_size + map_overhead

-- A deadline of 0 means "never".
unfoldable pub is_expired : ℕ → ℕ → Bool
is_expired expire_at now_ms = not (expire_at == 0) && leb expire_at now_ms
