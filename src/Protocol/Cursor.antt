-- ===== src/Protocol/Cursor.antt =====
-- The bounds-checked body reader of internal/protocol/command.go.
pub mod Reads
use kvstore.Prelude.{
  ℕ, ◌^◌, ◌<◌, ◌≤◌, ◌≡◌, refl, Bool, true, false, Option, none, some, List, [], ◌∷◌, ◌++◌, arith,
  ltb, if◌then◌else◌, length, take, drop, take-append, drop-append, length-append,
}
use kvstore.Prelude.Bytes.{
  IsByte, byte, le16, le32, le64, word16, word32, word64, word16_le16, word32_le32, word64_le64,
}
use kvstore.Protocol.Limits.{Error, truncated, trailing_bytes}

-- `rest` is what is not read yet, `c.b[c.off:]`; the reader uses `b` and `off` in no other way.
pub record Cursor : Type 0 where
  pub rest : List ℕ
  pub error : Option Error

abbrev pub start : List ℕ → Cursor
start b = record { rest = b; error = none }

unfoldable pub fail : Cursor → Cursor
fail c = record c { error = some truncated }

unfoldable pub remaining : Cursor → ℕ
remaining c = length c.rest

-- The reads of one, two, four and eight bytes, on a cursor that has met no error.
read8 : List ℕ → Cursor → ℕ × Cursor
unfolding fail
read8 (a ∷ r) c = (a, record c { rest = r })
read8 _ c = (0, fail c)

read16 : List ℕ → Cursor → ℕ × Cursor
unfolding fail
read16 (a ∷ b ∷ r) c = (word16 a b, record c { rest = r })
read16 _ c = (0, fail c)

read32 : List ℕ → Cursor → ℕ × Cursor
unfolding fail
read32 (a ∷ b ∷ d ∷ e ∷ r) c = (word32 a b d e, record c { rest = r })
read32 _ c = (0, fail c)

read64 : List ℕ → Cursor → ℕ × Cursor
unfolding fail
read64 (a ∷ b ∷ d ∷ e ∷ f ∷ g ∷ h ∷ i ∷ r) c = (word64 a b d e f g h i, record c { rest = r })
read64 _ c = (0, fail c)

-- A cursor that has failed reads nothing more.
guarded : (List ℕ → Cursor → ℕ × Cursor) → Cursor → ℕ × Cursor
unfolding fail
guarded read c = elim c.error [ none ↦ read c.rest c | some e ↦ (0, fail c) ]

unfoldable pub u8 : Cursor → ℕ × Cursor
unfolding guarded read8
u8 c = guarded read8 c

unfoldable pub u16 : Cursor → ℕ × Cursor
unfolding guarded read16
u16 c = guarded read16 c

unfoldable pub u32 : Cursor → ℕ × Cursor
unfolding guarded read32
u32 c = guarded read32 c

unfoldable pub u64 : Cursor → ℕ × Cursor
unfolding guarded read64
u64 c = guarded read64 c

-- The caller's `n` is an unsigned field, so the source's test `n < 0` fails.
unfoldable pub bytes : ℕ → Cursor → List ℕ × Cursor
unfolding fail remaining
bytes n c = elim c.error [
  | none ↦
      if ltb (remaining c) n
      then ([], fail c)
      else (take n c.rest, record c { rest = drop n c.rest })
  | some e ↦ ([], fail c)
]

-- `c.bytes(int(c.u16()))`
unfoldable pub short_bytes : Cursor → List ℕ × Cursor
short_bytes c = let (n, c') = u16 c in bytes n c'

unfoldable pub done : Cursor → Option Error
unfolding remaining
done c = elim c.error [
  | none ↦ elim c.rest [ [] ↦ none | _ ↦ some trailing_bytes ]
  | some e ↦ some e
]

-- Reading what the appenders wrote, with anything behind it.
module _ (v : ℕ) (r : List ℕ) where
  pub u16-le16 : v < 2 ^ 16 → u16 (start (le16 v ++ r)) ≡ (v, start r)
  unfolding u16
  u16-le16 h = ground (arith, word16_le16 v)

  pub u32-le32 : v < 2 ^ 32 → u32 (start (le32 v ++ r)) ≡ (v, start r)
  unfolding u32
  u32-le32 h = ground (arith, word32_le32 v)

  pub u64-le64 : v < 2 ^ 64 → u64 (start (le64 v ++ r)) ≡ (v, start r)
  unfolding u64
  u64-le64 h = ground (arith, word64_le64 v)

module _ (k r : List ℕ) where
  pub bytes-append : bytes (length k) (start (k ++ r)) ≡ (k, start r)
  unfolding bytes
  bytes-append = ground (arith, take-append k r, drop-append k r, length-append k r)

  pub short_bytes-append :
      length k < 2 ^ 16 → short_bytes (start (le16 (length k) ++ k ++ r)) ≡ (k, start r)
  unfolding short_bytes
  short_bytes-append h = rw (u16-le16 (length k) (k ++ r) h, bytes-append)
