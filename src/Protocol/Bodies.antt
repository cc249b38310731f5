-- ===== src/Protocol/Bodies.antt =====
-- The response bodies of internal/protocol/command.go.
pub mod RoundTrip
use kvstore.Prelude.{
  ℕ, zero, suc, ◌/◌, Bool, true, false, not, ◌||◌, Option, none, some, List, [], ◌∷◌, ◌++◌, ltb,
  ◌==◌, if◌then◌else◌, length, take,
}
use kvstore.Prelude.Bytes.{append_u16, append_u32, append_u64}
use kvstore.Protocol.Limits.{Error, truncated}
use kvstore.Protocol.Cursor.{Cursor, start, u8, u32, u64, bytes, short_bytes, remaining, done}

pub data Result {ℓ} (A : Type ℓ) : Type ℓ where
  ok : A → Result A
  err : Error → Result A

-- `if err := c.done(); err != nil { return nil, err }; return v, nil`
abbrev close {ℓ} : {A : Type ℓ} → A → Cursor → Result A
close a c = elim (done c) [ none ↦ ok a | some e ↦ err e ]

unfoldable pub encode_value_body : List ℕ → List ℕ → List ℕ
encode_value_body dst v = append_u32 dst (length v) ++ v

unfoldable pub decode_value_body : List ℕ → Result (List ℕ)
decode_value_body body = let (n, c1) = u32 (start body) in let (v, c2) = bytes n c1 in close v c2

unfoldable pub encode_bool_body : List ℕ → Bool → List ℕ
encode_bool_body dst b = if b then dst ++ (1 ∷ []) else dst ++ (0 ∷ [])

unfoldable pub decode_bool_body : List ℕ → Result Bool
decode_bool_body body = let (v, c) = u8 (start body) in close (not (v == 0)) c

-- The int64 is the bit pattern that stands for it, a number below 2 ^ 64.
unfoldable pub encode_ttl_body : List ℕ → ℕ → List ℕ
encode_ttl_body dst ms = append_u64 dst ms

unfoldable pub decode_ttl_body : List ℕ → Result ℕ
decode_ttl_body body = let (v, c) = u64 (start body) in close v c

unfoldable pub encode_keys : List ℕ → List (List ℕ) → List ℕ
encode_keys dst [] = dst
encode_keys dst (k ∷ ks) = encode_keys (append_u16 dst (length k) ++ k) ks

unfoldable pub encode_keys_body : List ℕ → List (List ℕ) → List ℕ
encode_keys_body dst ks = encode_keys (append_u32 dst (length ks)) ks

-- The loop of DecodeKeysBody, over the keys that are left to read.
unfoldable pub decode_keys : ℕ → List (List ℕ) → Cursor → List (List ℕ) × Cursor
decode_keys zero out c = (out, c)
decode_keys (suc n) out c = let (k, c') = short_bytes c in decode_keys n (out ++ (k ∷ [])) c'

abbrev is_failed : Option Error → Bool
is_failed none = false
is_failed (some e) = true

-- The count is compared with the bytes that are there before anything is sized by it.
unfoldable pub decode_keys_body : List ℕ → Result (List (List ℕ))
decode_keys_body body =
    let (n, c) = u32 (start body) in
    if is_failed c.error || ltb (remaining c / 2) n
    then err truncated
    else (let (ks, c') = decode_keys n [] c in close ks c')

unfoldable pub encode_error_body : List ℕ → List ℕ → List ℕ
encode_error_body dst msg = if ltb 1024 (length msg) then dst ++ take 1024 msg else dst ++ msg
