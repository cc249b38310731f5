-- ===== src/Protocol/Bodies/RoundTrip.antt =====
-- Response bodies are read back.
use kvstore.Prelude.{
  ℕ, suc, ◌*◌, ◌^◌, ◌≤◌, ◌<◌, ◌≡◌, refl, sym, ap, ◌∙◌, Bool, true, false, List, [], ◌∷◌, ◌++◌,
  append-nil, append_assoc, arith, All, length, length-append,
}
use kvstore.Prelude.Bytes.{le16, le32, append_u16, append_u32, append_u64}
use kvstore.Protocol.Cursor.{
  Cursor, start, u8, bytes, short_bytes, remaining, done, u32-le32, u64-le64, bytes-append,
  short_bytes-append,
}
use kvstore.Protocol.Bodies.{
  ok, encode_value_body, decode_value_body, encode_bool_body, decode_bool_body, encode_ttl_body,
  decode_ttl_body, encode_keys, encode_keys_body, decode_keys, decode_keys_body,
}

bytes_end : (k : List ℕ) → bytes (length k) (start k) ≡ (k, start [])
bytes_end k = rw append-nil at (bytes-append k [])

value_body : (v : List ℕ) → length v < 2 ^ 32 → decode_value_body (encode_value_body [] v) ≡ ok v
unfolding decode_value_body encode_value_body append_u32 done
value_body v h = rw (u32-le32 (length v) v h, bytes_end v)

bool_body : (b : Bool) → decode_bool_body (encode_bool_body [] b) ≡ ok b
unfolding decode_bool_body encode_bool_body u8 done
bool_body true = refl
bool_body false = refl

ttl_body : (ms : ℕ) → ms < 2 ^ 64 → decode_ttl_body (encode_ttl_body [] ms) ≡ ok ms
unfolding decode_ttl_body encode_ttl_body append_u64 done
ttl_body ms h = rw (u64-le64 ms [] h)

abbrev pub IsKey : List ℕ → Type 0
IsKey k = length k < 2 ^ 16

abbrev packed : List (List ℕ) → List ℕ
packed [] = []
packed (k ∷ ks) = le16 (length k) ++ (k ++ packed ks)

encode_keys-packed : (dst : List ℕ) (ks : List (List ℕ)) → encode_keys dst ks ≡ dst ++ packed ks
unfolding encode_keys append_u16
encode_keys-packed dst [] = sym (append-nil dst)
encode_keys-packed dst (k ∷ ks) =
    encode_keys-packed ((dst ++ le16 (length k)) ++ k) ks ∙ simp append_assoc

decode_keys_step :
    (n : ℕ) (out : List (List ℕ)) (c : Cursor) (k : List ℕ) (c' : Cursor)
    → short_bytes c ≡ (k, c')
    → decode_keys (suc n) out c ≡ decode_keys n (out ++ (k ∷ [])) c'
unfolding decode_keys
decode_keys_step n out c k c' e =
    ap (λ (r : List ℕ × Cursor). decode_keys n (out ++ (r.0 ∷ [])) r.1) e

decode_keys-packed :
    (ks out : List (List ℕ))
    → All IsKey ks
    → decode_keys (length ks) out (start (packed ks)) ≡ (out ++ ks, start [])
decode_keys-packed [] out h = unfold decode_keys in rw append-nil
decode_keys-packed (k ∷ ks) out h =
    decode_keys_step (length ks) out _ k _ (short_bytes-append k (packed ks) h.0)
    ∙ rw (decode_keys-packed ks (out ++ (k ∷ [])) h.1, append_assoc)

packed_room : (ks : List (List ℕ)) → 2 * length ks ≤ length (packed ks)
packed_room [] = omega arith
packed_room (k ∷ ks) = omega (arith, packed_room ks, length-append k (packed ks))

-- A KEYS response is read back, for fewer than 2^32 keys each shorter than 2^16 bytes: the guard
-- on the count never refuses an honest response.
pub decode_keys_body-encode_keys_body :
    (ks : List (List ℕ))
    → length ks < 2 ^ 32
    → All IsKey ks
    → decode_keys_body (encode_keys_body [] ks) ≡ ok ks
unfolding decode_keys_body encode_keys_body append_u32 remaining done
decode_keys_body-encode_keys_body ks n h =
    rw
      (
        encode_keys-packed (le32 (length ks)) ks,
        u32-le32 (length ks) (packed ks) n,
        decode_keys-packed ks [] h,
      )
      (ground (arith, packed_room ks))

-- A value, a Boolean and a TTL response are read back, the first for values shorter than 2^32
-- bytes and the last for any 64-bit pattern.
pub bodies_lem :
    (v : List ℕ) (b : Bool) (ms : ℕ)
    → length v < 2 ^ 32
    → ms < 2 ^ 64
    → (decode_value_body (encode_value_body [] v) ≡ ok v)
      × (decode_bool_body (encode_bool_body [] b) ≡ ok b)
      × (decode_ttl_body (encode_ttl_body [] ms) ≡ ok ms)
bodies_lem v b ms hv hm = (value_body v hv, bool_body b, ttl_body ms hm)
