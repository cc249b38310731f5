-- ===== src/Protocol/Frame/HeaderCodec.antt =====
-- The header codec: what is written is read back, and what is accepted is what would be written.
use kvstore.Prelude.{ℕ, ◌^◌, ◌≤◌, ◌<◌, ◌≡◌, ap, sym, ◌∙◌, none, List, ◌∷◌, ◌++◌, arith, All, take}
use kvstore.Prelude.Bytes.{
  IsByte, byte, le16, word16, word32, word16_le16, word32_le32, le16-word16, le32-word32, word32-lt,
}
use kvstore.Protocol.Limits.{Error, max_frame_len, header_len, magic}
use kvstore.Protocol.Limits
use kvstore.Protocol.Frame.{
  unknown_bits, Header, header_bytes, encode_header, check_fields, decode_header,
}

-- A header that this version of the protocol may send.
pub record IsLegal (h : Header) : Type 0 where
  pub version_known : h.version ≡ Limits.version
  pub code_fits : h.code < 256
  pub flags_known : h.flags < 2
  pub reserved_clear : h.reserved ≡ 0
  pub id_fits : h.request_id < 2 ^ 32
  pub body_fits : h.body_len ≤ max_frame_len

check_fields_lem :
    (h : Header)
    → IsLegal h
    → check_fields magic h.version h.code h.flags h.reserved h.request_id h.body_len ≡ (h, none)
unfolding check_fields
check_fields_lem h l = ground arith

byte_small : (v : ℕ) → v < 256 → byte v ≡ v
byte_small v h = omega arith

-- A legal header is read back from the bytes that were written, whatever stands behind them.
pub decode_header-encode_header :
    (h : Header) (dst rest : List ℕ)
    → IsLegal h
    → decode_header (encode_header dst h ++ rest) ≡ (h, none)
unfolding encode_header decode_header
decode_header-encode_header h dst rest l =
    rw
      (
        word16_le16 h.flags (omega arith),
        word16_le16 h.reserved (omega arith),
        word32_le32 h.request_id l.id_fits,
        word32_le32 h.body_len (omega arith),
        byte_small h.version (omega arith),
        byte_small h.code l.code_fits,
      )
      (unfold word16 in check_fields_lem h l)

module _ (m v c f r i l : ℕ) (h : Header) (p : check_fields m v c f r i l ≡ (h, none)) where
  checked :
      (m ≡ magic) × (v ≡ Limits.version) × (unknown_bits f ≡ 0) × (r ≡ 0) × (l ≤ max_frame_len)
  unfolding check_fields
  checked = ground arith

  checked_header :
      h ≡ record { version = v; code = c; flags = f; reserved = r; request_id = i; body_len = l }
  unfolding check_fields
  checked_header = ground arith

-- An accepted header is legal, and its encoding is the sixteen bytes that were read.
pub encode_header-decode_header :
    (src : List ℕ) (h : Header)
    → All IsByte src
    → decode_header src ≡ (h, none)
    → IsLegal h × (header_bytes h ≡ take header_len src)
unfolding decode_header
encode_header-decode_header
      (m0 ∷ m1 ∷ v ∷ c ∷ f0 ∷ f1 ∷ r0 ∷ r1 ∷ i0 ∷ i1 ∷ i2 ∷ i3 ∷ l0 ∷ l1 ∷ l2 ∷ l3 ∷ rest) h
      (
        hm0,
        (
          hm1,
          (
            hv,
            (
              hc,
              (hf0, (hf1, (hr0, (hr1, (hi0, (hi1, (hi2, (hi3, (hl0, (hl1, (hl2, (hl3, _)))))))))))),
            ),
          ),
        ),
      )
      p =
    let m = word16 m0 m1 in
    let f = word16 f0 f1 in
    let r = word16 r0 r1 in
    let n = word32 i0 i1 i2 i3 in
    let l = word32 l0 l1 l2 l3 in
    let k = checked m v c f r n l h p in
    let mark = ap le16 (sym k.0) ∙ le16-word16 m0 m1 hm0 hm1 in
    rw (checked_header m v c f r n l h p) (
      record {
        version_known = k.1;
        code_fits = hc;
        flags_known = omega (arith, k.2);
        reserved_clear = k.3;
        id_fits = word32-lt i0 i1 i2 i3 hi0 hi1 hi2 hi3;
        body_fits = k.4;
      },
      λ i.
          mark i
          ++ (byte_small v hv i
              ∷ byte_small c hc i
              ∷ (le16-word16 f0 f1 hf0 hf1 i
                  ++ (le16-word16 r0 r1 hr0 hr1 i
                      ++ (le32-word32 i0 i1 i2 i3 hi0 hi1 hi2 hi3 i
                          ++ le32-word32 l0 l1 l2 l3 hl0 hl1 hl2 hl3 i)))),
    )
encode_header-decode_header _ h o p = cc
