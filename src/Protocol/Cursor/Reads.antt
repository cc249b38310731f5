-- ===== src/Protocol/Cursor/Reads.antt =====
-- Reads of the body cursor, backwards: what a clean cursor says of the bytes that were read.
use kvstore.Prelude.{
  ℕ, zero, suc, ◌≡◌, refl, ap, sym, ◌∙◌, Option, none, some, List, [], ◌∷◌, ◌++◌, arith, All,
  length, Bool-cases, inl, inr, length-take, take-append-drop, drop, ltb,
}
use kvstore.Prelude.Bytes.{IsByte, le16, le32, le64, le16-word16, le32-word32, le64-word64}
use kvstore.Protocol.Limits.{Error, truncated}
use kvstore.Protocol.Cursor.{Cursor, u16, u32, u64, bytes, short_bytes}

-- The step from `c` to `c'` read the bytes `text` and met no error.
pub record Consumed (c : Cursor) (text : List ℕ) (c' : Cursor) : Type 0 where
  pub clean : c.error ≡ none
  pub split : c.rest ≡ text ++ c'.rest
  pub octets : All IsByte c'.rest

All-drop : (n : ℕ) (xs : List ℕ) → All IsByte xs → All IsByte (drop n xs)
All-drop zero xs h = h
All-drop (suc n) [] h = tt
All-drop (suc n) (x ∷ xs) h = All-drop n xs h.1

abbrev at : List ℕ → Option Error → Cursor
at rest e = record { rest = rest; error = e }

-- A read that leaves the cursor clean has taken the encoding of what it returns.
u16-at :
    (rest : List ℕ) (e : Option Error)
    → All IsByte rest
    → (u16 (at rest e)).1.error ≡ none
    → Consumed (at rest e) (le16 (u16 (at rest e)).0) (u16 (at rest e)).1
unfolding u16
u16-at (a ∷ b ∷ r) none h p = record {
  clean = refl;
  split = ap (λ l. l ++ r) (sym (le16-word16 a b h.0 h.1.0));
  octets = h.1.1;
}
u16-at (a ∷ []) none h p = cc
u16-at [] none h p = cc
u16-at rest (some e) h p = cc

u32-at :
    (rest : List ℕ) (e : Option Error)
    → All IsByte rest
    → (u32 (at rest e)).1.error ≡ none
    → Consumed (at rest e) (le32 (u32 (at rest e)).0) (u32 (at rest e)).1
unfolding u32
u32-at (a ∷ b ∷ c ∷ d ∷ r) none (ha, (hb, (hc, (hd, h)))) p = record {
  clean = refl;
  split = ap (λ l. l ++ r) (sym (le32-word32 a b c d ha hb hc hd));
  octets = h;
}
u32-at (a ∷ b ∷ c ∷ []) none h p = cc
u32-at (a ∷ b ∷ []) none h p = cc
u32-at (a ∷ []) none h p = cc
u32-at [] none h p = cc
u32-at rest (some e) h p = cc

u64-at :
    (rest : List ℕ) (e : Option Error)
    → All IsByte rest
    → (u64 (at rest e)).1.error ≡ none
    → Consumed (at rest e) (le64 (u64 (at rest e)).0) (u64 (at rest e)).1
unfolding u64
u64-at (a ∷ b ∷ c ∷ d ∷ e ∷ f ∷ g ∷ i ∷ r) none (ha, (hb, (hc, (hd, (he, (hf, (hg, (hi, h))))))))
      p =
    record {
      clean = refl;
      split = ap (λ l. l ++ r) (sym (le64-word64 a b c d ha hb hc hd e f g i he hf hg hi));
      octets = h;
    }
u64-at (a ∷ b ∷ c ∷ d ∷ e ∷ f ∷ g ∷ []) none h p = cc
u64-at (a ∷ b ∷ c ∷ d ∷ e ∷ f ∷ []) none h p = cc
u64-at (a ∷ b ∷ c ∷ d ∷ e ∷ []) none h p = cc
u64-at (a ∷ b ∷ c ∷ d ∷ []) none h p = cc
u64-at (a ∷ b ∷ c ∷ []) none h p = cc
u64-at (a ∷ b ∷ []) none h p = cc
u64-at (a ∷ []) none h p = cc
u64-at [] none h p = cc
u64-at rest (some e) h p = cc

bytes-at :
    (n : ℕ) (rest : List ℕ) (e : Option Error)
    → All IsByte rest
    → (bytes n (at rest e)).1.error ≡ none
    → Consumed (at rest e) (bytes n (at rest e)).0 (bytes n (at rest e)).1
      × (length (bytes n (at rest e)).0 ≡ n)
unfolding bytes
bytes-at n rest (some e) h p = cc
bytes-at n rest none h p = elim (Bool-cases (ltb (length rest) n)) [
  | inl short ↦ let bad : some truncated ≡ none = rw short at p in cc
  | inr fits ↦ rw fits (
    record { clean = refl; split = sym (take-append-drop n rest); octets = All-drop n rest h },
    length-take n rest (ground arith),
  )
]

-- A cursor that is clean after a read was clean before it.
module _ (c : Cursor) where
  pub u16_clean : (u16 c).1.error ≡ none → c.error ≡ none
  unfolding u16
  u16_clean p = ground arith

  pub u32_clean : (u32 c).1.error ≡ none → c.error ≡ none
  unfolding u32
  u32_clean p = ground arith

  pub u64_clean : (u64 c).1.error ≡ none → c.error ≡ none
  unfolding u64
  u64_clean p = ground arith

  pub bytes_clean : (n : ℕ) → (bytes n c).1.error ≡ none → c.error ≡ none
  unfolding bytes
  bytes_clean n p = ground arith

short_bytes_clean : (c : Cursor) → (short_bytes c).1.error ≡ none → c.error ≡ none
unfolding short_bytes
short_bytes_clean c p = u16_clean c (bytes_clean (u16 c).1 (u16 c).0 p)

module _ (c : Cursor) (h : All IsByte c.rest) where
  pub u16-Consumed : (u16 c).1.error ≡ none → Consumed c (le16 (u16 c).0) (u16 c).1
  u16-Consumed = u16-at c.rest c.error h

  pub u32-Consumed : (u32 c).1.error ≡ none → Consumed c (le32 (u32 c).0) (u32 c).1
  u32-Consumed = u32-at c.rest c.error h

  pub u64-Consumed : (u64 c).1.error ≡ none → Consumed c (le64 (u64 c).0) (u64 c).1
  u64-Consumed = u64-at c.rest c.error h

  pub bytes-Consumed :
      (n : ℕ)
      → (bytes n c).1.error ≡ none
      → Consumed c (bytes n c).0 (bytes n c).1 × (length (bytes n c).0 ≡ n)
  bytes-Consumed n = bytes-at n c.rest c.error h

  pub short_bytes-Consumed :
      (short_bytes c).1.error ≡ none
      → Consumed c (le16 (length (short_bytes c).0) ++ (short_bytes c).0) (short_bytes c).1
  unfolding short_bytes
  short_bytes-Consumed p =
      let a = u16-Consumed (bytes_clean (u16 c).1 (u16 c).0 p) in
      let (b, n) = bytes-at (u16 c).0 (u16 c).1.rest (u16 c).1.error a.octets p in
      record { clean = a.clean; split = a.split ∙ rw (n, b.split); octets = b.octets }
