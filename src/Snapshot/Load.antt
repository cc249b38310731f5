-- ===== src/Snapshot/Load.antt =====
-- internal/snapshot/read.go: Load and LoadNewestValid. A file is its bytes; the errors of reading it
-- are not modelled, nor the header that Load returns beside an error.
pub mod Body
pub mod RoundTrip
pub mod Newest
use kvstore.Prelude.{
  ℕ, zero, suc, ◌+◌, ◌-◌, ◌%◌, ◌^◌, Bool, true, false, not, ◌||◌, Option, none, some, List, [], ◌∷◌,
  ltb, ◌==◌, key_eq, if◌then◌else◌, length, take, drop,
}
use kvstore.Wal.Checksum.{update}
use kvstore.Wal.Record.{uint16, uint32, uint64}
use kvstore.Wal.Scan.{Visit}
use kvstore.Snapshot.{
  Entry, header_len, footer_len, format_version, entry_header_len, max_key_len, max_val_len,
  header_magic, footer_magic,
}

pub record Header : Type 0 where
  pub version : ℕ
  pub created_at_ms : ℕ
  pub last_included_lsn : ℕ
  pub entry_count : ℕ

pub data LoadError : Type 0 where
  bad_magic bad_version incomplete bad_footer bad_crc entry_count implausible no_snapshot :
      LoadError

-- Why a load failed: an error of its own, or one of the callback.
pub data Failure {κ} (E : Type κ) : Type κ where
  own : LoadError → Failure E
  callback : E → Failure E

-- `stuck` is no Go value: the loop ran out of fuel.
pub data Loaded {ℓ κ} (S : Type ℓ) (E : Type κ) (H : Type 0) : Type (ℓ ⊔ κ) where
  loaded : H → S → Loaded S E H
  failed : Failure E → S → Loaded S E H
  stuck : Loaded S E H

-- The entry at the front of `rest`, with the lengths that its header declares.
unfoldable pub entry_of : List ℕ → ℕ → ℕ → Entry
entry_of rest key_len val_len = record {
  key = take key_len (drop entry_header_len rest);
  value = take val_len (drop key_len (drop entry_header_len rest));
  expire_at_ms = uint64 (drop 6 rest);
}

-- What one turn of the loop finds, where `left` bytes of the body are not consumed.
pub data Turn : Type 0 where
  finished : Turn
  refused : LoadError → Turn
  got : Entry → ℕ → Turn

abbrev turn_at : ℕ → List ℕ → ℕ → ℕ → Turn
turn_at left rest key_len val_len =
    if ltb max_val_len val_len || ltb max_key_len key_len
    then refused implausible
    else if ltb left (entry_header_len + (key_len + val_len))
    then refused incomplete
    else got (entry_of rest key_len val_len) (entry_header_len + (key_len + val_len))

unfoldable pub read_entry : ℕ → List ℕ → Turn
read_entry left rest =
    if left == 0
    then finished
    else if ltb left entry_header_len
    then refused incomplete
    else turn_at left rest (uint16 rest) (uint32 (drop 2 rest))

module _ {ℓ κ} {S : Type ℓ} {E : Type κ} (fn : S → Entry → Visit S E) where
  -- The loop gives the number of entries that it has seen.
  unfoldable pub read_body : ℕ → ℕ → List ℕ → ℕ → S → Loaded S E ℕ
  read_body zero left rest seen s = stuck
  read_body (suc fuel) left rest seen s = elim (read_entry left rest) [
    | finished ↦ loaded seen s
    | refused e ↦ failed (own e) s
    | got e n ↦
        let v = fn s e in
        elim v.error [
          | some x ↦ failed (callback x) v.next
          | none ↦ read_body fuel (left - n) (drop n rest) ((seen + 1) % 2 ^ 64) v.next
        ]
  ]

  abbrev counted : Header → Loaded S E ℕ → Loaded S E Header
  counted h (loaded seen s) =
      if seen == h.entry_count then loaded h s else failed (own entry_count) s
  counted h (failed e s) = failed e s
  counted h stuck = stuck

  -- What follows the verification of the checksum.
  unfoldable pub load_content : List ℕ → ℕ → S → Loaded S E Header
  load_content file entries s =
      if not (key_eq (take 8 file) header_magic)
      then failed (own bad_magic) s
      else if not (uint32 (drop 8 file) == format_version)
      then failed (own bad_version) s
      else let h : Header = record {
        version = uint32 (drop 8 file);
        created_at_ms = uint64 (drop 12 file);
        last_included_lsn = uint64 (drop 20 file);
        entry_count = entries;
      } in
        counted h (
          read_body (suc (length file)) (length file - header_len - footer_len)
            (drop header_len file) 0 s)

  unfoldable pub load_footer : List ℕ → List ℕ → S → Loaded S E Header
  load_footer file footer s =
      if not (key_eq (take 8 footer) footer_magic)
      then failed (own bad_footer) s
      else if not (update 0 (take (length file - 4) file) == uint32 (drop 16 footer))
      then failed (own bad_crc) s
      else load_content file (uint64 (drop 8 footer)) s

  -- Each turn that goes on takes an entry's header, so a turn for every byte and one more are
  -- enough.
  unfoldable pub load : List ℕ → S → Loaded S E Header
  load file s =
      if ltb (length file) (header_len + footer_len)
      then failed (own incomplete) s
      else load_footer file (drop (length file - footer_len) file) s

  -- The snapshots, newest first, and the error of the last one that failed. The state passes from
  -- one to the next.
  unfoldable pub load_any : Failure E → List (List ℕ) → S → Loaded S E Header
  load_any e [] s = failed e s
  load_any e (file ∷ older) s = elim (load file s) [
    | loaded h s' ↦ loaded h s'
    | failed e' s' ↦ load_any e' older s'
    | stuck ↦ stuck
  ]

  unfoldable pub load_newest_valid : List (List ℕ) → S → Loaded S E Header
  load_newest_valid files s = load_any (own no_snapshot) files s
