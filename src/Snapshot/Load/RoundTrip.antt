-- ===== src/Snapshot/Load/RoundTrip.antt =====
-- A snapshot that was committed is loaded back.
use mathlib.Core.List.{foldl}
use kvstore.Prelude.{
  ℕ, suc, ◌+◌, ◌-◌, ◌^◌, ◌<◌, ◌≡◌, refl, ap, sym, true, false, none, List, [], ◌∷◌, ◌++◌,
  append-nil, append_assoc, arith, ltb, ◌==◌, eq→==, length, length-append, take, drop, take-append,
  drop-append, All, key_eq_refl,
}
use native.Mathlib.Nat.{zero-add}
use kvstore.Prelude.Bytes.{word32, le32, le64, word32_le32, word64_le64}
use kvstore.Wal.Checksum.{update, update-append, update-lt}
use kvstore.Wal.Record.{uint32}
use kvstore.Wal.Scan.Segment.{visit}
use kvstore.Snapshot.{
  Entry, Writer, write, create, add, add_all, commit, header_bytes, entry_bytes, header_magic,
  footer_magic, header_len, footer_len, max_key_len, max_val_len, format_version,
}
use kvstore.Snapshot.Load.{Header, loaded, load_content, load_footer, load}
use kvstore.Snapshot.Load.Body.{InRange, body, read_body-body}

-- What a writer holds after the entries `es` under a header of 32 bytes.
record IsAt (head : List ℕ) (es : List Entry) (w : Writer) : Type 0 where
  file : w.file ≡ head ++ body es
  crc : w.crc ≡ update 0 (head ++ body es)
  count : w.count ≡ length es
  opened : w.closed ≡ false

body-snoc : (es : List Entry) (e : Entry) → body (es ++ (e ∷ [])) ≡ body es ++ entry_bytes e
body-snoc [] e = append-nil (entry_bytes e)
body-snoc (x ∷ es) e =
    rw (body-snoc es e) (sym (append_assoc (entry_bytes x) (body es) (entry_bytes e)))

create-IsAt : (lsn created : ℕ) → IsAt (header_bytes created lsn) [] (create lsn created)
unfolding create write
create-IsAt lsn created = record {
  file = sym (append-nil (header_bytes created lsn));
  crc = ap (λ b. update 0 b) (sym (append-nil (header_bytes created lsn)));
  count = refl;
  opened = refl;
}

module _ (head : List ℕ) where
  written :
      (w : Writer) (es : List Entry) (e : Entry)
      → head ++ body (es ++ (e ∷ [])) ≡ (head ++ body es) ++ entry_bytes e
  written w es e = rw (body-snoc es e) (sym (append_assoc head (body es) (entry_bytes e)))

  add-IsAt :
      (w : Writer) (es : List Entry) (e : Entry) (i : InRange e)
      → IsAt head es w
      → length es + 1 < 2 ^ 64
      → ((add w e).1 ≡ none) × IsAt head (es ++ (e ∷ [])) (add w e).0
  unfolding add write
  add-IsAt w es e i a small =
      let key : ltb max_key_len (length e.key) ≡ false = (let h = i.key_fits in ground arith) in
      let value : ltb max_val_len (length e.value) ≡ false =
        (let h = i.value_fits in ground arith) in
      let counted = a.count in
      let size = length-append es (e ∷ []) in
      rw (key, value, add)
        (
          refl,
          record {
            file = rw (a.file, written w es e) refl;
            crc =
                rw (a.crc, written w es e)
                  (sym (update-append 0 (head ++ body es) (entry_bytes e)));
            count = omega arith;
            opened = a.opened;
          },
        )

  add_all-IsAt :
      (more : List Entry) (w : Writer) (es : List Entry) (is : All InRange more)
      → IsAt head es w
      → length es + length more < 2 ^ 64
      → ((add_all w more).1 ≡ none) × IsAt head (es ++ more) (add_all w more).0
  unfolding add_all
  add_all-IsAt [] w es is a small = (refl, rw (append-nil es) a)
  add_all-IsAt (e ∷ more) w es is a small =
      let size = length-append es (e ∷ []) in
      let (ok, a') = add-IsAt w es e is.0 a (omega arith) in
      let again = add_all-IsAt more (add w e).0 (es ++ (e ∷ [])) is.1 a' (omega arith) in
      rw (ok, add_all) (rw (append_assoc es (e ∷ []) more) at again)

-- The bytes of the file that is committed.
abbrev file_for : List ℕ → List Entry → List ℕ
file_for head es =
    let before = head ++ body es in
    let foot = footer_magic ++ le64 (length es) in
    before ++ (foot ++ le32 (update (update 0 before) foot))

commit_file :
    (head : List ℕ) (es : List Entry) (w : Writer)
    → IsAt head es w
    → ((commit w).1 ≡ none) × ((commit w).0.file ≡ file_for head es)
unfolding commit
commit_file head es w a = rw (a.opened, commit) (refl, rw (a.file, a.crc, a.count) refl)

abbrev pub header_for : ℕ → ℕ → ℕ → Header
header_for created lsn n = record {
  version = format_version;
  created_at_ms = created;
  last_included_lsn = lsn;
  entry_count = n;
}

version_read :
    (created lsn : ℕ) (rest : List ℕ)
    → uint32 (drop 8 (header_bytes created lsn ++ rest)) ≡ format_version
unfolding header_bytes word32
version_read created lsn rest = refl

module _ (created lsn : ℕ) (es : List Entry) where
  abbrev before : List ℕ
  before = header_bytes created lsn ++ body es

  abbrev foot_head : List ℕ
  foot_head = footer_magic ++ le64 (length es)

  abbrev check : ℕ
  check = update (update 0 before) foot_head

  length-before : length before ≡ 32 + length (body es)
  unfolding header_bytes
  length-before = omega arith

  check-lt : check < 2 ^ 32
  check-lt = update-lt foot_head (update 0 before) (update-lt before 0 (omega arith))

module _ {ℓ κ} {S : Type ℓ} {E : Type κ} (step : S → Entry → S) (created lsn : ℕ)
    (hc : created < 2 ^ 64) (hl : lsn < 2 ^ 64) (es : List Entry) (is : All InRange es)
    (few : length es < 2 ^ 64) where
  content :
      (foot : List ℕ) (s : S)
      → length foot ≡ 20
      → load_content
          (visit {E = E} step)
          (header_bytes created lsn ++ (body es ++ foot))
          (length es)
          s
        ≡ loaded (header_for created lsn (length es)) (foldl step s es)
  unfolding load_content header_bytes
  content foot s h =
      let size = length-append (body es) foot in
      let inside : length (header_bytes created lsn ++ (body es ++ foot)) - header_len - footer_len
          ≡ length (body es) =
        omega arith in
      let all_seen : (length es == length es) ≡ true = eq→== (length es) (length es) refl in
      rw (key_eq_refl header_magic, word64_le64 created hc, word64_le64 lsn hl)
        (rw (version_read created lsn (body es ++ foot)) (
          rw inside (
            rw
              (read_body-body step es is foot
                (suc (length (header_bytes created lsn ++ (body es ++ foot)))) 0 s (omega arith)
                (omega arith))
              (rw zero-add (rw all_seen refl)))))

  file_loaded :
      (s : S)
      → load (visit {E = E} step) (file_for (header_bytes created lsn) es) s
        ≡ loaded (header_for created lsn (length es)) (foldl step s es)
  unfolding load load_footer
  file_loaded s =
      let b = before created lsn es in
      let h = foot_head created lsn es in
      let k = check created lsn es in
      let foot = h ++ le32 k in
      let size = length-append b foot in
      let at_footer : length (b ++ foot) - footer_len ≡ length b = omega arith in
      let at_crc : length (b ++ foot) - 4 ≡ length (b ++ h) = omega (arith, length-append b h) in
      let long : ltb (length (b ++ foot)) (header_len + footer_len) ≡ false =
        (let l = length-before created lsn es in ground arith) in
      let covered : take (length (b ++ foot) - 4) (b ++ foot) ≡ b ++ h =
        rw (at_crc, ← append_assoc b h (le32 k)) (take-append (b ++ h) (le32 k)) in
      let summed : update 0 (b ++ h) ≡ k = update-append 0 b h in
      let same : (k == k) ≡ true = eq→== k k refl in
      rw (long, at_footer, drop-append b foot, key_eq_refl footer_magic, covered, summed)
        (rw (word32_le32 k (check-lt created lsn es), same, word64_le64 (length es) few)
          (rw (append_assoc (header_bytes created lsn) (body es) foot) (content foot s refl)))

  -- A snapshot of entries in range, fewer than 2^64, is written without an error, and loading its
  -- file gives its header back and hands every entry to a callback that does not fail, once and in
  -- order. The time and the log number in the header are below 2^64.
  pub load-commit :
      (s : S)
      → ((add_all (create lsn created) es).1 ≡ none)
        × ((commit (add_all (create lsn created) es).0).1 ≡ none)
        × (load (visit {E = E} step) (commit (add_all (create lsn created) es).0).0.file s
            ≡ loaded (header_for created lsn (length es)) (foldl step s es))
  load-commit s =
      let (ok, at_end) =
        add_all-IsAt (header_bytes created lsn) es (create lsn created) [] is
          (create-IsAt lsn created) (omega arith) in
      let (done, same) =
        commit_file (header_bytes created lsn) es (add_all (create lsn created) es).0 at_end in
      (ok, done, rw same (file_loaded s))
