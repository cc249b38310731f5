-- ===== src/Store/Hash.antt =====
-- Hash64 of internal/store/hash.go. A loop `for len(b) >= n` runs once for each n bytes.
use Prim.Native.Nat.{bit_xor}
use kvstore.Prelude.{
  ℕ, suc, zero, ◌+◌, ◌-◌, ◌*◌, ◌/◌, ◌^◌, List, [], ◌∷◌, ltb, if◌then◌else◌, length, drop,
}
use kvstore.Wal.Record.{uint32, uint64}
use kvstore.Store.Random.{word}

abbrev prime1 : ℕ
prime1 = 11400714785074694791

abbrev prime2 : ℕ
prime2 = 14029467366897019727

abbrev prime3 : ℕ
prime3 = 1609587929392839161

abbrev prime4 : ℕ
prime4 = 9650029242287828579

abbrev prime5 : ℕ
prime5 = 2870177450012600261

-- bits.RotateLeft64 on a word, by less than 64.
unfoldable pub rotate_left : ℕ → ℕ → ℕ
rotate_left x n = word (x * 2 ^ n) + x / 2 ^ (64 - n)

unfoldable pub round : ℕ → ℕ → ℕ
round acc input = word (rotate_left (word (acc + input * prime2)) 31 * prime1)

unfoldable pub merge_round : ℕ → ℕ → ℕ
merge_round acc val = word (bit_xor acc (round 0 val) * prime1 + prime4)

-- The four lanes of the first loop.
pub record Lanes : Type 0 where
  pub v1 : ℕ
  pub v2 : ℕ
  pub v3 : ℕ
  pub v4 : ℕ

unfoldable pub lanes : ℕ → Lanes → List ℕ → Lanes
lanes zero v b = v
lanes (suc n) v b =
    lanes n
      (record {
        v1 = round v.v1 (uint64 b);
        v2 = round v.v2 (uint64 (drop 8 b));
        v3 = round v.v3 (uint64 (drop 16 b));
        v4 = round v.v4 (uint64 (drop 24 b));
      })
      (drop 32 b)

unfoldable pub merge_lanes : Lanes → ℕ
merge_lanes v =
    let h =
      word (rotate_left v.v1 1 + rotate_left v.v2 7 + rotate_left v.v3 12 + rotate_left v.v4 18) in
    merge_round (merge_round (merge_round (merge_round h v.v1) v.v2) v.v3) v.v4

-- The loop over eight bytes.
unfoldable pub eights : ℕ → ℕ → List ℕ → ℕ
eights zero h b = h
eights (suc n) h b =
    eights n (word (rotate_left (bit_xor h (round 0 (uint64 b))) 27 * prime1 + prime4)) (drop 8 b)

-- The loop over the bytes that are left.
unfoldable pub bytes : ℕ → List ℕ → ℕ
bytes h [] = h
bytes h (c ∷ cs) = bytes (word (rotate_left (bit_xor h (word (c * prime5))) 11 * prime1)) cs

unfoldable pub avalanche : ℕ → ℕ
avalanche h =
    let h1 = word (bit_xor h (h / 2 ^ 33) * prime2) in
    let h2 = word (bit_xor h1 (h1 / 2 ^ 29) * prime3) in bit_xor h2 (h2 / 2 ^ 32)

-- What follows the eights: four bytes where there are four, and the rest.
unfoldable pub tail_bytes : ℕ → List ℕ → ℕ
tail_bytes h b =
    if ltb (length b) 4
    then bytes h b
    else bytes (word (rotate_left (bit_xor h (word (uint32 b * prime1))) 23 * prime2 + prime3))
        (drop 4 b)

unfoldable pub hash64 : ℕ → List ℕ → ℕ
hash64 seed b =
    let n = length b in
    let h =
      if ltb n 32
      then word (seed + prime5)
      else merge_lanes (
          lanes (n / 32)
            (record {
              v1 = word (seed + prime1 + prime2);
              v2 = word (seed + prime2);
              v3 = seed;
              v4 = word (seed + 2 ^ 64 - prime1);
            })
            b) in
    let rest = drop (n / 32 * 32) b in
    let count = length rest / 8 in
    avalanche (tail_bytes (eights count (word (h + n)) rest) (drop (count * 8) rest))
