-- ===== src/Snapshot/Load/Newest.antt =====
-- Loading ends, and a snapshot that was not written to its end is passed over.
use kvstore.Prelude.{
  ℕ, suc, ◌+◌, ◌-◌, ◌<◌, ◌≡◌, ◌≢◌, ◌⊎◌, inl, inr, refl, ◌∙◌, false, List, [], ◌∷◌, ◌++◌, arith, ltb,
  ◌==◌, key_eq, length, take, drop, All, Bool-cases,
}
use kvstore.Wal.Checksum.{update}
use kvstore.Wal.Record.{uint32, uint64}
use kvstore.Wal.Scan.{Visit}
use kvstore.Snapshot.{Entry, header_magic, footer_magic, header_len, footer_len, format_version}
use kvstore.Snapshot.Load.{
  Header, Failure, own, incomplete, bad_footer, bad_crc, no_snapshot, Loaded, loaded, failed, stuck,
  counted, load_content, load_footer, load, load_any, load_newest_valid,
}
use kvstore.Snapshot.Load.Body.{read_body-ne-stuck}

abbrev footer_of : List ℕ → List ℕ
footer_of file = drop (length file - footer_len) file

-- The file is too short, or its end is no footer, or the footer's checksum is not that of the file.
abbrev pub IsTorn : List ℕ → Type 0
IsTorn file =
    (length file < header_len + footer_len)
    ⊎ ((key_eq (take 8 (footer_of file)) footer_magic ≡ false)
        ⊎ ((update 0 (take (length file - 4) file) == uint32 (drop 16 (footer_of file))) ≡ false))

module _ {ℓ κ} {S : Type ℓ} {E : Type κ} (fn : S → Entry → Visit S E) where
  counted-ne-stuck : (h : Header) (t : Loaded S E ℕ) → t ≢ stuck → counted fn h t ≢ stuck
  counted-ne-stuck h (loaded seen s) q = elim (Bool-cases (seen == h.entry_count)) [
    | inl e ↦ rw e (λ x. cc)
    | inr e ↦ rw e (λ x. cc)
  ]
  counted-ne-stuck h (failed e s) q = λ x. cc
  counted-ne-stuck h stuck q = absurd (q refl)

  load_content-ne-stuck : (file : List ℕ) (n : ℕ) (s : S) → load_content fn file n s ≢ stuck
  unfolding load_content
  load_content-ne-stuck file n s =
      let ends =
        read_body-ne-stuck fn (suc (length file)) (length file - header_len - footer_len)
          (drop header_len file) 0 s (omega arith) in
      elim (Bool-cases (key_eq (take 8 file) header_magic)) [
        | inr e ↦ rw e (λ x. cc)
        | inl e ↦ elim (Bool-cases (uint32 (drop 8 file) == format_version)) [
          | inr d ↦ rw (e, d) (λ x. cc)
          | inl d ↦ rw (e, d) (counted-ne-stuck _ _ ends)
        ]
      ]

  -- The loading of any file, with any callback, ends within its fuel.
  pub load_ends : (file : List ℕ) (s : S) → load fn file s ≢ stuck
  unfolding load load_footer
  load_ends file s = elim (Bool-cases (ltb (length file) (header_len + footer_len))) [
    | inl a ↦ rw a (λ x. cc)
    | inr a ↦ elim (Bool-cases (key_eq (take 8 (footer_of file)) footer_magic)) [
      | inr b ↦ rw (a, b) (λ x. cc)
      | inl b ↦
          elim (Bool-cases
            (update 0 (take (length file - 4) file) == uint32 (drop 16 (footer_of file)))) [
              | inr c ↦ rw (a, b, c) (λ x. cc)
              | inl c ↦
                  rw (a, b, c) (load_content-ne-stuck file (uint64 (drop 8 (footer_of file))) s)
            ]
    ]
  ]

  -- A torn snapshot is refused, and the callback has not been called.
  load_torn :
      (file : List ℕ) → IsTorn file → (s : S) → (e : Failure E) × (load fn file s ≡ failed e s)
  unfolding load load_footer
  load_torn file h s = elim (Bool-cases (ltb (length file) (header_len + footer_len))) [
    | inl a ↦ (own incomplete, rw a refl)
    | inr a ↦ elim (Bool-cases (key_eq (take 8 (footer_of file)) footer_magic)) [
      | inr b ↦ (own bad_footer, rw (a, b) refl)
      | inl b ↦ elim h [
        | inl l ↦ absurd (ground arith)
        | inr (inl c) ↦ absurd (cc)
        | inr (inr c) ↦ (own bad_crc, rw (a, b, c) refl)
      ]
    ]
  ]

  load_any_torn :
      (torn : List (List ℕ))
      → All IsTorn torn
      → (rest : List (List ℕ)) (s : S) (e : Failure E)
      → (e' : Failure E) × (load_any fn e (torn ++ rest) s ≡ load_any fn e' rest s)
  unfolding load_any
  load_any_torn [] h rest s e = (e, refl)
  load_any_torn (f ∷ torn) h rest s e =
      let (x, q) = load_torn f h.0 s in
      let (e', r) = load_any_torn torn h.1 rest s x in (e', rw (q, load_any) r)

  -- Snapshots that were not written to their end do not matter: if the newest ones are torn and the
  -- next one loads, LoadNewestValid gives that one, from the state as it was.
  pub load_newest_valid_lem :
      (torn : List (List ℕ)) (is : All IsTorn torn) (file : List ℕ) (older : List (List ℕ))
      (s s' : S) (h : Header)
      → load fn file s ≡ loaded h s'
      → load_newest_valid fn (torn ++ (file ∷ older)) s ≡ loaded h s'
  unfolding load_newest_valid load_any
  load_newest_valid_lem torn is file older s s' h q =
      let (e, r) = load_any_torn torn is (file ∷ older) s (own no_snapshot) in
      r ∙ rw (q, load_any) refl
