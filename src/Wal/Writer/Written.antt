-- ===== src/Wal/Writer/Written.antt =====
-- What the writer's flushes leave in the directory, as long as none fails.
use mathlib.Core.List.{foldl, map, map-append}
use kvstore.Prelude.{
  ℕ, ◌^◌, ◌<◌, ◌≡◌, refl, ap, sym, ◌∙◌, Option, none, some, List, [], ◌∷◌, ◌++◌, append-nil,
  append_assoc, arith, length, All, Option-cases, inl, inr, key_eq_refl,
}
use kvstore.Prelude.Bytes.{word32}
use kvstore.Wal.Record.{
  Record, append_record, new_segment_header, parse_segment_header, segment_magic, valid,
}
use kvstore.Wal.Record.RoundTrip.{InRange}
use kvstore.Wal.Scan.Segment.{log}
use kvstore.Wal.Replay.{File}
use kvstore.Wal.Replay.Recovery.{Whole, IsWhole, file_of, records_of}
use kvstore.Wal.Writer.{Segment, Io, Options, Writer, create_segment, fsynced, open_new, rotate}

-- A segment as ListSegments and the scan see it.
abbrev pub listed : Segment → File
listed s = (record { path = s.path; first_lsn = s.first_lsn; size = length s.bytes }, s.bytes)

pub appended : (rs : List Record) (b : List ℕ) → foldl append_record b rs ≡ b ++ log rs
unfolding append_record
appended [] b = sym (append-nil b)
appended (r ∷ rs) b = appended rs (append_record b r) ∙ append_assoc b (append_record [] r) (log rs)

pub log-append : (xs ys : List Record) → log (xs ++ ys) ≡ log xs ++ log ys
log-append [] ys = refl
log-append (r ∷ xs) ys =
    ap (λ b. append_record [] r ++ b) (log-append xs ys)
    ∙ sym (append_assoc (append_record [] r) (log xs) (log ys))

pub All-append {ℓ κ} :
    {A : Type ℓ} (P : A → Type κ) (xs ys : List A) → All P xs → All P ys → All P (xs ++ ys)
All-append P [] ys h k = k
All-append P (x ∷ xs) ys h k = (h.0, All-append P xs ys h.1 k)

header-InRange :
    (first now : ℕ) → first < 2 ^ 64 → now < 2 ^ 64 → InRange (new_segment_header first now)
unfolding valid new_segment_header
header-InRange first now f n = record {
  lsn_fits = f;
  created_fits = n;
  type_known = refl;
  flags_fit = omega arith;
  key_fits = omega arith;
  value_fits = omega arith;
  expire_fits = omega arith;
}

header_parses : (first now : ℕ) → parse_segment_header (new_segment_header first now) ≡ some 1
unfolding parse_segment_header new_segment_header word32
header_parses first now = rw (key_eq_refl segment_magic) refl

-- The segment that createSegment makes.
abbrev pub whole_new : (ℕ → List ℕ) → ℕ → ℕ → Whole
whole_new path_of first now =
    ((listed (create_segment path_of first now)).0, new_segment_header first now, [])

pub whole_new-IsWhole :
    (path_of : ℕ → List ℕ) (first now : ℕ)
    → first < 2 ^ 64
    → now < 2 ^ 64
    → IsWhole (whole_new path_of first now)
whole_new-IsWhole path_of first now f n = record {
  header_fits = header-InRange first now f n;
  version = 1;
  header_parses = header_parses first now;
  records_fit = tt;
}

new_listed :
    (path_of : ℕ → List ℕ) (first now : ℕ)
    → listed (create_segment path_of first now) ≡ file_of (whole_new path_of first now)
unfolding create_segment
new_listed path_of first now =
    ap (λ b. ((listed (create_segment path_of first now)).0, b))
      (sym (append-nil (append_record [] (new_segment_header first now))))

records_of-snoc :
    (ws : List Whole) (w : Whole) → records_of (ws ++ (w ∷ [])) ++ [] ≡ records_of ws ++ w.2
records_of-snoc [] w = append-nil (w.2 ++ []) ∙ append-nil w.2
records_of-snoc (u ∷ ws) w =
    append_assoc u.2 (records_of (ws ++ (w ∷ []))) []
    ∙ ap (λ rs. u.2 ++ rs) (records_of-snoc ws w)
    ∙ sym (append_assoc u.2 (records_of ws) w.2)

module _ {ℓ} {X : Type ℓ} where
  -- A commit that was finished without an error.
  abbrev pub acknowledged : Record → ℕ × Option X
  acknowledged r = (r.lsn, none)

  -- The directory holds the records `rs` in whole segments, and they are what was acknowledged.
  pub record Holds (w : Writer X) (rs : List Record) : Type ℓ where
    pub others : List Whole
    pub last : Whole
    pub others_listed : map listed w.older ≡ map file_of others
    pub last_listed : listed w.seg ≡ file_of last
    pub others_whole : All IsWhole others
    pub last_whole : IsWhole last
    pub contents : records_of others ++ last.2 ≡ rs
    pub finished : w.finished ≡ map acknowledged rs

  pub open_new-Holds :
      (path_of : ℕ → List ℕ) (o : Options) (start now : ℕ)
      → start < 2 ^ 64
      → now < 2 ^ 64
      → Holds (open_new path_of o start now) []
  unfolding open_new
  open_new-Holds path_of o start now f n = record {
    others = [];
    last = whole_new path_of start now;
    others_listed = refl;
    last_listed = new_listed path_of start now;
    others_whole = tt;
    last_whole = whole_new-IsWhole path_of start now f n;
    contents = refl;
    finished = refl;
  }

  pub rotate-Holds :
      (path_of : ℕ → List ℕ) (w : Writer X) (rs : List Record) (first : ℕ) (io : Io X)
      → first < 2 ^ 64
      → io.now_ms < 2 ^ 64
      → Holds w rs
      → (rotate path_of w first io).1 ≡ none
      → Holds (rotate path_of w first io).0 rs
  unfolding rotate
  rotate-Holds path_of w rs first io f n h e = elim (Option-cases io.sync_old) [
    | inr (x, s) ↦ absurd (let c = (rw (s, rotate) at e) in cc)
    | inl s ↦ elim (Option-cases io.close_old) [
      | inr (x, c) ↦ absurd (let d = (rw (s, c, rotate) at e) in cc)
      | inl c ↦ elim (Option-cases io.create) [
        | inr ((x, none), m) ↦ absurd (let d = (rw (s, c, m, rotate) at e) in cc)
        | inr ((x, some k), m) ↦ absurd (let d = (rw (s, c, m, rotate) at e) in cc)
        | inl m ↦
            rw (s, c, m, rotate)
              (record {
                others = h.others ++ (h.last ∷ []);
                last = whole_new path_of first io.now_ms;
                others_listed =
                    map-append listed w.older (fsynced w.seg ∷ [])
                    ∙ ap (λ d. d ++ (listed w.seg ∷ [])) h.others_listed
                    ∙ ap (λ f. map file_of h.others ++ (f ∷ [])) h.last_listed
                    ∙ sym (map-append file_of h.others (h.last ∷ []));
                last_listed = new_listed path_of first io.now_ms;
                others_whole =
                    All-append IsWhole h.others (h.last ∷ []) h.others_whole (h.last_whole, tt);
                last_whole = whole_new-IsWhole path_of first io.now_ms f n;
                contents = records_of-snoc h.others h.last ∙ h.contents;
                finished = h.finished;
              })
      ]
    ]
  ]
