-- ===== src/Snapshot.antt =====
-- internal/snapshot/write.go: a snapshot's file, which is its bytes. A write to it, its sync and its
-- renaming do not fail here.
pub mod Load
pub mod Tests
use kvstore.Prelude.{
  ℕ, ◌+◌, ◌*◌, ◌-◌, ◌%◌, ◌^◌, Bool, true, false, Option, none, some, List, [], ◌∷◌, ◌++◌, arith,
  ltb, if◌then◌else◌, length,
}
use kvstore.Prelude.Bytes.{byte, le16, le32, le64}
use kvstore.Wal.Checksum.{update}

abbrev pub header_len : ℕ
header_len = 32

abbrev pub footer_len : ℕ
footer_len = 20

abbrev pub format_version : ℕ
format_version = 1

abbrev pub entry_header_len : ℕ
entry_header_len = 14

abbrev pub max_key_len : ℕ
max_key_len = 2 ^ 16 - 1

abbrev pub max_val_len : ℕ
max_val_len = 16 * 2 ^ 20

-- "KVSNAP01"
abbrev pub header_magic : List ℕ
header_magic = 0x4B ∷ 0x56 ∷ 0x53 ∷ 0x4E ∷ 0x41 ∷ 0x50 ∷ 0x30 ∷ 0x31 ∷ []

-- "KVSNAPFT"
abbrev pub footer_magic : List ℕ
footer_magic = 0x4B ∷ 0x56 ∷ 0x53 ∷ 0x4E ∷ 0x41 ∷ 0x50 ∷ 0x46 ∷ 0x54 ∷ []

pub record Entry : Type 0 where
  pub key : List ℕ
  pub value : List ℕ
  pub expire_at_ms : ℕ

pub record Writer : Type 0 where
  pub file : List ℕ
  pub crc : ℕ
  pub count : ℕ
  pub lsn : ℕ
  pub written : ℕ
  pub closed : Bool

pub data Error : Type 0 where
  key_too_long value_too_long already_closed : Error

unfoldable pub write : Writer → List ℕ → Writer
write w b = record w { file = w.file ++ b; crc = update w.crc b; written = w.written + length b }

-- The header's 32 bytes, of which the last four are reserved.
unfoldable pub header_bytes : ℕ → ℕ → List ℕ
header_bytes created_at_ms last_included_lsn =
    header_magic
    ++ (le32 format_version
        ++ (le64 created_at_ms ++ (le64 last_included_lsn ++ (0 ∷ 0 ∷ 0 ∷ 0 ∷ []))))

unfoldable pub create : ℕ → ℕ → Writer
create last_included_lsn created_at_ms =
    let w : Writer = record {
      file = [];
      crc = 0;
      count = 0;
      lsn = last_included_lsn;
      written = 0;
      closed = false;
    } in
    write w (header_bytes created_at_ms last_included_lsn)

unfoldable pub entry_bytes : Entry → List ℕ
entry_bytes e =
    (le16 (length e.key) ++ (le32 (length e.value) ++ le64 e.expire_at_ms)) ++ (e.key ++ e.value)

-- The writer after an entry, and the error.
unfoldable pub add : Writer → Entry → Writer × Option Error
add w e =
    if ltb max_key_len (length e.key)
    then (w, some key_too_long)
    else if ltb max_val_len (length e.value)
    then (w, some value_too_long)
    else let w1 = write w (entry_bytes e) in (record w1 { count = (w1.count + 1) % 2 ^ 64 }, none)

-- The footer is written past the checksum, which covers all before it.
unfoldable pub commit : Writer → Writer × Option Error
commit w =
    if w.closed
    then (w, some already_closed)
    else let head = footer_magic ++ le64 w.count in
      (record w { file = w.file ++ (head ++ le32 (update w.crc head)); closed = true }, none)

-- The loop of Snapshot in internal/engine/commands.go over the entries, which stops at an error.
unfoldable pub add_all : Writer → List Entry → Writer × Option Error
add_all w [] = (w, none)
add_all w (e ∷ es) = elim (add w e).1 [
  | none ↦ add_all (add w e).0 es
  | some x ↦ ((add w e).0, some x)
]
