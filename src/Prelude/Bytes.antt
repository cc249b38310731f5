-- ===== src/Prelude/Bytes.antt =====
-- Unsigned words and their little-endian bytes: Go's `encoding/binary.LittleEndian`, and the
-- `appendU16`, `appendU32`, `appendU64` of internal/protocol/command.go.
use Prim.Native.Nat.{ℕ, ◌+◌, ◌*◌, ◌/◌, ◌%◌, ◌^◌, ◌<◌}
use mathlib.Core.Path.{◌≡◌}
use mathlib.Core.List.{List, [], ◌∷◌, ◌++◌}
use native.Mathlib.Omega.{arith}

abbrev pub IsByte : ℕ → Type 0
IsByte b = b < 256

-- byte(v)
abbrev pub byte : ℕ → ℕ
byte v = v % 256

-- `byte(v>>8)` is the byte of `v / 256`, and so on up.
abbrev pub le16 : ℕ → List ℕ
le16 v = byte v ∷ byte (v / 2 ^ 8) ∷ []

abbrev pub le32 : ℕ → List ℕ
le32 v = byte v ∷ byte (v / 2 ^ 8) ∷ byte (v / 2 ^ 16) ∷ byte (v / 2 ^ 24) ∷ []

abbrev pub le64 : ℕ → List ℕ
le64 v =
    byte v
    ∷ byte (v / 2 ^ 8)
    ∷ byte (v / 2 ^ 16)
    ∷ byte (v / 2 ^ 24)
    ∷ byte (v / 2 ^ 32)
    ∷ byte (v / 2 ^ 40)
    ∷ byte (v / 2 ^ 48)
    ∷ byte (v / 2 ^ 56)
    ∷ []

unfoldable pub append_u16 : List ℕ → ℕ → List ℕ
append_u16 dst v = dst ++ le16 v

unfoldable pub append_u32 : List ℕ → ℕ → List ℕ
append_u32 dst v = dst ++ le32 v

unfoldable pub append_u64 : List ℕ → ℕ → List ℕ
append_u64 dst v = dst ++ le64 v

-- binary.LittleEndian.Uint16, Uint32 and Uint64 on the bytes read.
unfoldable pub word16 : ℕ → ℕ → ℕ
word16 a b = a + b * 2 ^ 8

unfoldable pub word32 : ℕ → ℕ → ℕ → ℕ → ℕ
word32 a b c d = a + b * 2 ^ 8 + c * 2 ^ 16 + d * 2 ^ 24

unfoldable pub word64 : ℕ → ℕ → ℕ → ℕ → ℕ → ℕ → ℕ → ℕ → ℕ
word64 a b c d e f g h =
    a + b * 2 ^ 8 + c * 2 ^ 16 + d * 2 ^ 24 + e * 2 ^ 32 + f * 2 ^ 40 + g * 2 ^ 48 + h * 2 ^ 56

module _ (v : ℕ) where
  pub word16_le16 : v < 2 ^ 16 → word16 (byte v) (byte (v / 2 ^ 8)) ≡ v
  unfolding word16
  word16_le16 h = omega arith

  pub word32_le32 :
      v < 2 ^ 32 → word32 (byte v) (byte (v / 2 ^ 8)) (byte (v / 2 ^ 16)) (byte (v / 2 ^ 24)) ≡ v
  unfolding word32
  word32_le32 h = omega arith

  pub word64_le64 :
      v < 2 ^ 64
      → word64
          (byte v)
          (byte (v / 2 ^ 8))
          (byte (v / 2 ^ 16))
          (byte (v / 2 ^ 24))
          (byte (v / 2 ^ 32))
          (byte (v / 2 ^ 40))
          (byte (v / 2 ^ 48))
          (byte (v / 2 ^ 56))
        ≡ v
  unfolding word64
  word64_le64 h = omega arith

module _ (a b : ℕ) (ha : IsByte a) (hb : IsByte b) where
  word16-lt : word16 a b < 2 ^ 16
  unfolding word16
  word16-lt = omega arith

  pub le16-word16 : le16 (word16 a b) ≡ a ∷ b ∷ []
  unfolding word16
  le16-word16 = ground arith

module _ (a b c d : ℕ) (ha : IsByte a) (hb : IsByte b) (hc : IsByte c) (hd : IsByte d) where
  pub word32-lt : word32 a b c d < 2 ^ 32
  unfolding word32
  word32-lt = omega arith

  pub le32-word32 : le32 (word32 a b c d) ≡ a ∷ b ∷ c ∷ d ∷ []
  unfolding word32
  le32-word32 = ground arith

  module _ (e f g h : ℕ) (he : IsByte e) (hf : IsByte f) (hg : IsByte g) (hh : IsByte h) where
    word64-lt : word64 a b c d e f g h < 2 ^ 64
    unfolding word64
    word64-lt = omega arith

    pub le64-word64 : le64 (word64 a b c d e f g h) ≡ a ∷ b ∷ c ∷ d ∷ e ∷ f ∷ g ∷ h ∷ []
    unfolding word64
    le64-word64 = ground arith
