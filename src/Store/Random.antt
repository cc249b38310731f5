-- ===== src/Store/Random.antt =====
-- The splitmix64 generator of internal/store/hash.go.
use Prim.Native.Nat.{bit_xor}
use kvstore.Prelude.{ℕ, ◌+◌, ◌*◌, ◌/◌, ◌%◌, ◌^◌, ◌<◌, ◌≡◌, refl, arith, leb, if◌then◌else◌}

abbrev pub word : ℕ → ℕ
word x = x % 2 ^ 64

-- The value, and the state behind it.
unfoldable pub next : ℕ → ℕ × ℕ
next state =
    let state' = word (state + 0x9E3779B97F4A7C15) in
    let z1 = word (bit_xor state' (state' / 2 ^ 30) * 0xBF58476D1CE4E5B9) in
    let z2 = word (bit_xor z1 (z1 / 2 ^ 27) * 0x94D049BB133111EB) in
    (bit_xor z2 (z2 / 2 ^ 31), state')

-- `intn n` draws nothing for n ≤ 1.
unfoldable pub intn : ℕ → ℕ → ℕ × ℕ
intn n state = if leb n 1 then (0, state) else (let (v, state') = next state in (v % n, state'))

-- A draw is an index of the slice it is drawn for.
pub intn-lt : (n state : ℕ) → 0 < n → (intn n state).0 < n
unfolding intn
intn-lt n state h = ground arith

first_draw : (next 1).1 ≡ 0x9E3779B97F4A7C16
unfolding next
first_draw = refl
