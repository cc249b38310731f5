-- ===== src/Protocol/Frame/Stream.antt =====
-- Frames on a stream: what is written is read back, a frame that is cut short is refused, and the
-- scratch buffer stays within the limit.
use kvstore.Prelude.{
  ℕ, zero, suc, ◌+◌, ◌%◌, ◌^◌, ◌≤◌, ◌<◌, ◌≡◌, ◌⊎◌, inl, inr, refl, ◌∙◌, none, some, List, [], ◌∷◌,
  ◌++◌, append-nil, subst, ◌-◌, arith, ltb, ◌==◌, if◌then◌else◌, length, length-append, take,
  take-append, take-append_add, length-take, Bool-cases, drop-append,
}
use kvstore.Protocol.Limits.{Error, max_frame_len, header_len, eof, unexpected_eof}
use kvstore.Protocol.Frame.{
  Header, header_bytes, encode_header, decode_header, full, failed, read_full, effective, read_body,
  after_header, read_frame, write_frame, inside_body,
}
use kvstore.Protocol.Frame.HeaderCodec.{IsLegal, decode_header-encode_header}

pub read_full-append : (xs rest : List ℕ) → read_full (length xs) (xs ++ rest) ≡ full xs rest
unfolding read_full
read_full-append [] rest = refl
read_full-append (x ∷ xs) rest =
    ground (arith, take-append xs rest, drop-append xs rest, length-append xs rest)

-- io.ReadFull says EOF only if it has read nothing.
abbrev pub cut_error : ℕ → Error
cut_error n = if n == 0 then eof else unexpected_eof

-- A stream that ends inside the `n` bytes gives an error.
pub read_full_short :
    (n : ℕ) (src : List ℕ) → length src < n → read_full n src ≡ failed (cut_error (length src)) []
unfolding read_full
read_full_short zero src h = absurd (omega arith)
read_full_short (suc n) [] h = refl
read_full_short (suc n) (x ∷ src) h = ground arith

List-cases : (xs : List ℕ) → (xs ≡ []) ⊎ (0 < length xs)
List-cases [] = inl refl
List-cases (x ∷ xs) = inr (omega arith)

read_frame_full :
    (room max_body : ℕ) (src hdr rest : List ℕ)
    → read_full header_len src ≡ full hdr rest
    → read_frame room max_body src ≡ after_header room max_body (decode_header hdr) rest
unfolding read_frame
read_frame_full room max_body src hdr rest e = rw (e, read_frame)

read_frame_failed :
    (room max_body : ℕ) (src rest : List ℕ) (e : Error)
    → read_full header_len src ≡ failed e rest
    → (read_frame room max_body src).error ≡ some e
unfolding read_frame
read_frame_failed room max_body src rest x e = rw (e, read_frame)

abbrev pub sent : Header → List ℕ → Header
sent h body = record h { body_len = length body }

abbrev pub grown : ℕ → ℕ → ℕ
grown room n = if ltb room n then n else room

module _ (h : Header) (body : List ℕ) (l : IsLegal (sent h body)) where
  write_frame_layout :
      (rest : List ℕ) → write_frame [] h body ++ rest ≡ header_bytes (sent h body) ++ (body ++ rest)
  unfolding write_frame encode_header
  write_frame_layout rest =
      let e : length body % 2 ^ 32 ≡ length body = omega (arith, l.body_fits) in rw e

  write_frame_text : write_frame [] h body ≡ header_bytes (sent h body) ++ body
  write_frame_text = rw (append-nil, append-nil) at (write_frame_layout [])

  header_read :
      (rest : List ℕ)
      → read_full header_len (header_bytes (sent h body) ++ rest)
        ≡ full (header_bytes (sent h body)) rest
  header_read rest = read_full-append (header_bytes (sent h body)) rest

  header_decoded : decode_header (header_bytes (sent h body)) ≡ (sent h body, none)
  header_decoded = unfold encode_header in decode_header-encode_header (sent h body) [] [] l

  body_read :
      (room max_body : ℕ) (rest : List ℕ)
      → length body ≤ effective max_body
      → after_header room max_body (sent h body, none) (body ++ rest) ≡ record {
        frame = record { header = sent h body; body = body };
        cap = grown room (length body);
        error = none;
        stream = rest;
      }
  unfolding after_header read_body
  body_read room max_body rest fits = elim (List-cases body) [
    | inl e ↦ ground (arith, e)
    | inr e ↦ ground (arith, read_full-append body rest)
  ]

  -- A frame with a legal header and a body within the reader's limit is read back whole, and
  -- the stream behind it is left as it was.
  pub read_frame-write_frame :
      (room max_body : ℕ) (rest : List ℕ)
      → length body ≤ effective max_body
      → read_frame room max_body (write_frame [] h body ++ rest) ≡ record {
        frame = record { header = sent h body; body = body };
        cap = grown room (length body);
        error = none;
        stream = rest;
      }
  read_frame-write_frame room max_body rest fits =
      rw
        (
          write_frame_layout rest,
          read_frame_full room max_body _ _ _ (header_read (body ++ rest)),
          header_decoded,
        )
        (body_read room max_body rest fits)

  cut_body :
      (room max_body n : ℕ)
      → n < length body
      → length body ≤ effective max_body
      → (after_header room max_body (sent h body, none) (take n body)).error ≡ some unexpected_eof
  unfolding after_header read_body inside_body
  cut_body room max_body n short fits =
      ground (arith, read_full_short (length body) (take n body), length-take n body)

  -- A frame with a legal header and a body within the reader's limit that is cut short is
  -- refused: with EOF if nothing of it has come, and otherwise with an unexpected EOF.
  pub read_frame_cut :
      (room max_body n : ℕ)
      → n < header_len + length body
      → length body ≤ effective max_body
      → (read_frame room max_body (take n (write_frame [] h body))).error ≡ some (cut_error n)
  read_frame_cut room max_body n short fits = elim (Bool-cases (ltb n header_len)) [
    | inl early ↦
        let bytes = header_bytes (sent h body) ++ body in
        let e =
          length-take n bytes (omega (arith, length-append (header_bytes (sent h body)) body)) in
        rw (write_frame_text) (
          read_frame_failed room max_body _ _ _ (
            subst (λ k. read_full header_len (take n bytes) ≡ failed (cut_error k) []) e
              (read_full_short header_len (take n bytes) (ground arith))))
    | inr late ↦
        let m = n - header_len in
        let e : n ≡ header_len + m = ground arith in
        rw
          (
            write_frame_text,
            e,
            take-append_add (header_bytes (sent h body)) body m,
            read_frame_full room max_body _ _ _ (header_read (take m body)),
            header_decoded,
          )
          (cut_body room max_body m (omega arith) fits ∙ ground arith)
  ]

effective-le : (max_body : ℕ) → effective max_body ≤ max_frame_len
unfolding effective
effective-le n = ground arith

room_cases :
    (room max_body : ℕ) (src : List ℕ)
    → ((read_frame room max_body src).cap ≡ room)
      ⊎ ((read_frame room max_body src).cap ≤ effective max_body)
unfolding read_frame after_header read_body
room_cases room max_body src = ground arith

-- Whatever the peer sends, the scratch buffer keeps its capacity or grows to at most the reader's
-- limit, which is never above the protocol's.
pub read_frame_room :
    (room max_body : ℕ) (src : List ℕ)
    → (((read_frame room max_body src).cap ≡ room)
        ⊎ ((read_frame room max_body src).cap ≤ effective max_body))
      × (effective max_body ≤ max_frame_len)
read_frame_room room max_body src = (room_cases room max_body src, effective-le max_body)
