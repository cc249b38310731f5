-- ===== src/Wal/Checksum.antt =====
-- CRC32C, crc32.Checksum with the Castagnoli table, bit by bit.
use Prim.Native.Nat.{bit_xor}
use mathlib.Core.List.{foldl, foldl-append}
use kvstore.Prelude.{
  ℕ, zero, suc, ◌/◌, ◌%◌, ◌^◌, ◌<◌, ◌≡◌, refl, List, [], ◌∷◌, ◌++◌, arith, ◌==◌, if◌then◌else◌,
}

shift_bits : ℕ → ℕ → ℕ
shift_bits zero c = c
shift_bits (suc n) c = shift_bits n (if c % 2 == 1 then bit_xor (c / 2) 0x82F63B78 else c / 2)

add_byte : ℕ → ℕ → ℕ
add_byte c b = shift_bits 8 (bit_xor c b)

unfoldable pub checksum : List ℕ → ℕ
unfolding shift_bits add_byte
checksum p = bit_xor (foldl add_byte 0xFFFFFFFF p) 0xFFFFFFFF % 2 ^ 32

pub checksum-lt : (p : List ℕ) → checksum p < 2 ^ 32
unfolding checksum
checksum-lt p = omega arith

-- The check value of CRC32C, of the text "123456789".
check_value :
    checksum (0x31 ∷ 0x32 ∷ 0x33 ∷ 0x34 ∷ 0x35 ∷ 0x36 ∷ 0x37 ∷ 0x38 ∷ 0x39 ∷ []) ≡ 0xE3069283
unfolding checksum
check_value = refl

not32 : ℕ → ℕ
not32 c = bit_xor c 0xFFFFFFFF % 2 ^ 32

update_byte : ℕ → ℕ → ℕ
unfolding not32 add_byte shift_bits
update_byte c b = not32 (add_byte (not32 c) b)

-- crc32.Update, byte by byte: each byte is added to the register that the checksum stands for.
unfoldable pub update : ℕ → List ℕ → ℕ
unfolding update_byte not32 add_byte shift_bits
update c p = foldl update_byte c p

pub update-append : (c : ℕ) (p q : List ℕ) → update c (p ++ q) ≡ update (update c p) q
unfolding update
update-append c p q = foldl-append update_byte c p q

pub update-lt : (p : List ℕ) (c : ℕ) → c < 2 ^ 32 → update c p < 2 ^ 32
unfolding update update_byte not32
update-lt [] c h = h
update-lt (x ∷ p) c h = update-lt p (update_byte c x) (omega arith)

update_check_value :
    update 0 (0x31 ∷ 0x32 ∷ 0x33 ∷ 0x34 ∷ 0x35 ∷ 0x36 ∷ 0x37 ∷ 0x38 ∷ 0x39 ∷ []) ≡ 0xE3069283
unfolding update
update_check_value = refl
