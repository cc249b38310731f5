-- ===== src/Protocol/Frame.antt =====
-- internal/protocol/frame.go: the frame header, and frames read from and written to a stream.
pub mod HeaderCodec
pub mod Stream
pub mod Writer
use kvstore.Prelude.{
  ℕ, ◌+◌, ◌-◌, ◌*◌, ◌/◌, ◌%◌, ◌^◌, Bool, true, false, not, ◌||◌, Option, none, some, List, [], ◌∷◌,
  ◌++◌, ltb, ◌==◌, if◌then◌else◌, length, take, drop, replicate, arith, suc, zero, refl, ◌≡◌,
}
use kvstore.Prelude.Bytes.{byte, le16, le32, word16, word32}
use kvstore.Protocol.Limits.{
  Error, truncated, bad_magic, bad_version, unknown_flags, reserved_set, frame_too_large, eof,
  unexpected_eof, header_len, magic, max_frame_len,
}
use kvstore.Protocol.Limits

pub record Header : Type 0 where
  pub version : ℕ
  pub code : ℕ
  pub flags : ℕ
  pub reserved : ℕ
  pub request_id : ℕ
  pub body_len : ℕ

-- Header{}
abbrev zero_header : Header
zero_header = record {
  version = 0;
  code = 0;
  flags = 0;
  reserved = 0;
  request_id = 0;
  body_len = 0;
}

abbrev pub header_bytes : Header → List ℕ
header_bytes h =
    le16 magic
    ++ (byte h.version
        ∷ byte h.code
        ∷ (le16 h.flags ++ (le16 h.reserved ++ (le32 h.request_id ++ le32 h.body_len))))

-- The first sixteen bytes of `dst` are overwritten.
unfoldable pub encode_header : List ℕ → Header → List ℕ
encode_header dst h = header_bytes h ++ drop header_len dst

-- `flags &^ AllFlags` and `flags & FlagNoReply`: both masks are bit 0.
abbrev pub unknown_bits : ℕ → ℕ
unknown_bits flags = flags / 2 * 2

-- The fields in the order of the checks, each field stored before it is tested.
unfoldable pub check_fields : ℕ → ℕ → ℕ → ℕ → ℕ → ℕ → ℕ → Header × Option Error
check_fields m v c f r i l =
    let h0 = zero_header in
    if not (m == magic)
    then (h0, some bad_magic)
    else let h1 = record h0 { version = v } in
      if not (v == Limits.version)
      then (h1, some bad_version)
      else let h2 = record h1 { code = c; flags = f } in
        if not (unknown_bits f == 0)
        then (h2, some unknown_flags)
        else let h3 = record h2 { reserved = r } in
          if not (r == 0)
          then (h3, some reserved_set)
          else let h4 = record h3 { request_id = i; body_len = l } in
            if ltb max_frame_len l then (h4, some frame_too_large) else (h4, none)

unfoldable pub decode_header : List ℕ → Header × Option Error
decode_header (m0 ∷ m1 ∷ v ∷ c ∷ f0 ∷ f1 ∷ r0 ∷ r1 ∷ i0 ∷ i1 ∷ i2 ∷ i3 ∷ l0 ∷ l1 ∷ l2 ∷ l3 ∷ rest) =
    check_fields (word16 m0 m1) v c (word16 f0 f1) (word16 r0 r1) (word32 i0 i1 i2 i3)
      (word32 l0 l1 l2 l3)
decode_header _ = (zero_header, some truncated)

pub record Frame : Type 0 where
  pub header : Header
  pub body : List ℕ

unfoldable pub no_reply : Frame → Bool
no_reply f = not (f.header.flags % 2 == 0)

-- io.ReadFull of `n` bytes from a stream that ends after `src`: the bytes, or an error, and what is
-- left of the stream.
pub data Got : Type 0 where
  full : List ℕ → List ℕ → Got
  failed : Error → List ℕ → Got

unfoldable pub read_full : ℕ → List ℕ → Got
read_full zero src = full [] src
read_full (suc n) [] = failed eof []
read_full (suc n) (x ∷ src) =
    if ltb (length src) n
    then failed unexpected_eof []
    else full (take (suc n) (x ∷ src)) (drop (suc n) (x ∷ src))

-- What ReadFrame returns, the stream behind it, and the capacity of the scratch buffer.
pub record Outcome : Type 0 where
  pub frame : Frame
  pub cap : ℕ
  pub error : Option Error
  pub stream : List ℕ

abbrev no_body : Header → Frame
no_body h = record { header = h; body = [] }

-- `if maxBody == 0 || maxBody > MaxFrameLen { maxBody = MaxFrameLen }`
unfoldable pub effective : ℕ → ℕ
effective max_body = if max_body == 0 || ltb max_frame_len max_body then max_frame_len else max_body

-- `err == io.EOF` inside a body.
unfoldable pub inside_body : Error → Error
inside_body eof = unexpected_eof
inside_body e = e

unfoldable pub read_body : Header → ℕ → List ℕ → Outcome
read_body h room src =
    let room' = (if ltb room h.body_len then h.body_len else room) in
    elim (read_full h.body_len src) [
      | full body rest ↦ record {
        frame = record { header = h; body = body };
        cap = room';
        error = none;
        stream = rest;
      }
      | failed e rest ↦ record {
        frame = no_body h;
        cap = room';
        error = some (inside_body e);
        stream = rest;
      }
    ]

unfoldable pub after_header : ℕ → ℕ → Header × Option Error → List ℕ → Outcome
after_header room max_body (h, some e) src = record {
  frame = no_body zero_header;
  cap = room;
  error = some e;
  stream = src;
}
after_header room max_body (h, none) src =
    if ltb (effective max_body) h.body_len
    then record { frame = no_body h; cap = room; error = some frame_too_large; stream = src }
    else if h.body_len == 0
    then record { frame = no_body h; cap = room; error = none; stream = src }
    else read_body h room src

-- `room` is the capacity of the caller's scratch buffer; its contents are overwritten.
unfoldable pub read_frame : ℕ → ℕ → List ℕ → Outcome
read_frame room max_body src = elim (read_full header_len src) [
  | failed e rest ↦ record {
    frame = no_body zero_header;
    cap = room;
    error = some e;
    stream = rest;
  }
  | full hdr rest ↦ after_header room max_body (decode_header hdr) rest
]

unfoldable pub write_frame : List ℕ → Header → List ℕ → List ℕ
write_frame dst h body =
    let h' = record h { body_len = length body % 2 ^ 32 } in
    (dst ++ encode_header (replicate header_len 0) h') ++ body
