-- ===== src/Snapshot/Load/Body.antt =====
-- The loop over the entries: that it ends, and that it reads back what Add wrote.
use mathlib.Core.List.{foldl}
use kvstore.Prelude.{
  ℕ, zero, suc, ◌+◌, ◌-◌, ◌%◌, ◌^◌, ◌<◌, ◌≤◌, ◌≡◌, ◌≢◌, ◌⊎◌, inl, inr, refl, ap, ◌∙◌, List, [], ◌∷◌,
  ◌++◌, append_assoc, arith, length, length-append, take, drop, take-append, drop-append, All,
  Option-cases,
}
use kvstore.Prelude.Bytes.{word16_le16, word32_le32, word64_le64}
use kvstore.Wal.Record.{uint16, uint32, uint64}
use kvstore.Wal.Scan.{Visit}
use kvstore.Wal.Scan.Segment.{visit}
use kvstore.Snapshot.{Entry, entry_bytes, entry_header_len, max_key_len, max_val_len}
use kvstore.Snapshot.Load.{
  Turn, finished, refused, got, LoadError, loaded, stuck, entry_of, read_entry, read_body,
}

-- Every field is in the range of its Go type and within the format's limits.
pub record InRange (e : Entry) : Type 0 where
  pub key_fits : length e.key ≤ max_key_len
  pub value_fits : length e.value ≤ max_val_len
  pub expire_fits : e.expire_at_ms < 2 ^ 64

Turn-cases :
    (t : Turn)
    → ((t ≡ finished) ⊎ ((x : LoadError) × (t ≡ refused x)))
      ⊎ ((e : Entry) × (n : ℕ) × (t ≡ got e n))
Turn-cases finished = inl (inl refl)
Turn-cases (refused x) = inl (inr (x, refl))
Turn-cases (got e n) = inr (e, n, refl)

got_progress :
    (left : ℕ) (rest : List ℕ) (e : Entry) (n : ℕ)
    → read_entry left rest ≡ got e n
    → left - n < left
unfolding read_entry
got_progress left rest e n h = ground arith

module _ {ℓ κ} {S : Type ℓ} {E : Type κ} (fn : S → Entry → Visit S E) where
  -- The loop ends, whatever the bytes and the callback, when there is more fuel than bytes left.
  pub read_body-ne-stuck :
      (fuel left : ℕ) (rest : List ℕ) (seen : ℕ) (s : S)
      → left < fuel
      → read_body fn fuel left rest seen s ≢ stuck
  unfolding read_body
  read_body-ne-stuck zero left rest seen s h = absurd (omega arith)
  read_body-ne-stuck (suc fuel) left rest seen s h = elim (Turn-cases (read_entry left rest)) [
    | inl (inl q) ↦ rw (q, read_body) (λ x. cc)
    | inl (inr (y, q)) ↦ rw (q, read_body) (λ x. cc)
    | inr (e, n, q) ↦
        let less : left - n < fuel = omega (arith, got_progress left rest e n q) in
        elim (Option-cases (fn s e).error) [
          | inl o ↦
              rw (q, o, read_body)
                (read_body-ne-stuck fuel (left - n) (drop n rest) ((seen + 1) % 2 ^ 64)
                  (fn s e).next less)
          | inr (y, o) ↦ rw (q, o, read_body) (λ x. cc)
        ]
  ]

abbrev pub body : List Entry → List ℕ
body [] = []
body (e ∷ es) = entry_bytes e ++ body es

module _ (e : Entry) (i : InRange e) (rest : List ℕ) where
  key_size : uint16 (entry_bytes e ++ rest) ≡ length e.key
  unfolding entry_bytes
  key_size = word16_le16 (length e.key) (omega (arith, i.key_fits))

  value_size : uint32 (drop 2 (entry_bytes e ++ rest)) ≡ length e.value
  unfolding entry_bytes
  value_size = word32_le32 (length e.value) (omega (arith, i.value_fits))

  expiry : uint64 (drop 6 (entry_bytes e ++ rest)) ≡ e.expire_at_ms
  unfolding entry_bytes
  expiry = word64_le64 e.expire_at_ms i.expire_fits

  key_read : take (length e.key) (drop 14 (entry_bytes e ++ rest)) ≡ e.key
  unfolding entry_bytes
  key_read = rw (append_assoc e.key e.value rest) (take-append e.key (e.value ++ rest))

  value_read :
      take (length e.value) (drop (length e.key) (drop 14 (entry_bytes e ++ rest))) ≡ e.value
  unfolding entry_bytes
  value_read =
      rw (append_assoc e.key e.value rest)
        (rw (drop-append e.key (e.value ++ rest)) (take-append e.value rest))

  entry_read : entry_of (entry_bytes e ++ rest) (length e.key) (length e.value) ≡ e
  unfolding entry_of
  entry_read = rw (expiry, key_read, value_read) refl

  pub length-entry_bytes :
      length (entry_bytes e) ≡ entry_header_len + (length e.key + length e.value)
  unfolding entry_bytes
  length-entry_bytes = omega (arith, length-append e.key e.value)

  read_entry-entry_bytes :
      (left : ℕ)
      → length (entry_bytes e) ≤ left
      → read_entry left (entry_bytes e ++ rest) ≡ got e (length (entry_bytes e))
  unfolding read_entry
  read_entry-entry_bytes left h =
      let size = length-entry_bytes in
      let key = i.key_fits in
      let value = i.value_fits in rw (key_size, value_size, entry_read) (ground arith)

module _ {ℓ κ} {S : Type ℓ} {E : Type κ} (step : S → Entry → S) where
  no_entries :
      (fuel : ℕ) (tail : List ℕ) (seen : ℕ) (s : S)
      → read_body (visit {E = E} step) (suc fuel) 0 tail seen s ≡ loaded (seen + 0) s
  unfolding read_body read_entry
  no_entries fuel tail seen s = ap (λ n. loaded n s) (omega arith)

  one_entry :
      (e : Entry) (i : InRange e) (rest : List ℕ) (more fuel seen : ℕ) (s : S)
      → read_body
          (visit {E = E} step)
          (suc fuel)
          (length (entry_bytes e) + more)
          (entry_bytes e ++ rest)
          seen
          s
        ≡ read_body (visit {E = E} step) fuel more rest ((seen + 1) % 2 ^ 64) (step s e)
  unfolding read_body
  one_entry e i rest more fuel seen s =
      let left : length (entry_bytes e) + more - length (entry_bytes e) ≡ more = omega arith in
      rw (read_entry-entry_bytes e i rest (length (entry_bytes e) + more) (omega arith), read_body)
        (ap
          (λ (p : ℕ × List ℕ).
            read_body (visit {E = E} step) fuel p.0 p.1 ((seen + 1) % 2 ^ 64) (step s e))
          (λ j. (left j, drop-append (entry_bytes e) rest j)))

  -- The loop hands every entry that was written to the callback, once and in order.
  pub read_body-body :
      (es : List Entry) (is : All InRange es) (tail : List ℕ) (fuel seen : ℕ) (s : S)
      → length (body es) < fuel
      → seen + length es < 2 ^ 64
      → read_body (visit {E = E} step) fuel (length (body es)) (body es ++ tail) seen s
        ≡ loaded (seen + length es) (foldl step s es)
  read_body-body [] is tail zero seen s h n = absurd (omega arith)
  read_body-body [] is tail (suc fuel) seen s h n = no_entries fuel tail seen s
  read_body-body (e ∷ es) is tail zero seen s h n = absurd (omega arith)
  read_body-body (e ∷ es) is tail (suc fuel) seen s h n =
      let size = length-append (entry_bytes e) (body es) in
      let shape = length-entry_bytes e is.0 [] in
      let small : (seen + 1) % 2 ^ 64 ≡ seen + 1 = omega arith in
      let sum : seen + 1 + length es ≡ seen + suc (length es) = omega arith in
      let again : read_body (visit {E = E} step) fuel (length (body es)) (body es ++ tail)
            ((seen + 1) % 2 ^ 64) (step s e)
          ≡ loaded (seen + suc (length es)) (foldl step (step s e) es) =
        rw small (
          read_body-body es is.1 tail fuel (seen + 1) (step s e) (omega arith) (omega arith)
          ∙ ap (λ n. loaded n (foldl step (step s e) es)) sum) in
      rw (append_assoc (entry_bytes e) (body es) tail, length-append (entry_bytes e) (body es))
        (one_entry e is.0 (body es ++ tail) (length (body es)) fuel seen s ∙ again)
