-- ===== src/Wal/Writer/Torn.antt =====
-- The writer and Replay together: a directory whose last segment ends inside a batch.
use mathlib.Core.List.{foldl, map}
use kvstore.Prelude.{
  ℕ, zero, suc, ◌+◌, ◌-◌, ◌%◌, ◌^◌, ◌<◌, ◌≤◌, ◌≡◌, refl, ap, sym, subst, ◌∙◌, Bool, true, false,
  Option, none, List, [], ◌∷◌, ◌++◌, append_assoc, arith, ltb, leb, length, take, drop,
  take-append-drop, take-append_add, All, Bool-cases, inl, inr,
}
use kvstore.Wal.Record.{Record, append_record, encoded_len}
use kvstore.Wal.Record.RoundTrip.{InRange, length-bytes, encoded_len_lem}
use kvstore.Wal.Scan.Segment.{log, visit}
use kvstore.Wal.Truncation.{SegmentInfo}
use kvstore.Wal.Replay.{File, Replayed, success, replay}
use kvstore.Wal.Replay.Recovery.{
  Whole, IsWhole, file_of, records_of, apply_new, later_lsn, fits, replay-Recovers,
}
use kvstore.Wal.Writer.{Segment, Writer, written}
use kvstore.Wal.Writer.Written.{listed, acknowledged, appended, log-append, All-append, Holds}
use kvstore.Wal.Writer.Run.{Keeps, Numbered, All-take}

take-append_le {ℓ} :
    {A : Type ℓ} (n : ℕ) (xs ys : List A) → n ≤ length xs → take n (xs ++ ys) ≡ take n xs
take-append_le zero xs ys h = refl
take-append_le (suc n) [] ys h = absurd (omega arith)
take-append_le (suc n) (x ∷ xs) ys h = ap (λ t. x ∷ t) (take-append_le n xs ys (omega arith))

pub take_nil {ℓ} : {A : Type ℓ} (n : ℕ) → take {A = A} n [] ≡ []
take_nil zero = refl
take_nil (suc n) = refl

-- Bytes of a log that was cut: whole records, and less than one more record.
record IsCut (rs : List Record) (b : List ℕ) : Type 0 where
  whole : List Record
  whole_fits : All InRange whole
  lost : List Record
  parts : whole ++ lost ≡ rs
  cut : Record
  cut_fits : InRange cut
  size : ℕ
  short : size < encoded_len cut
  bytes : b ≡ log whole ++ take size (append_record [] cut)

log-IsCut :
    (d : Record) (i : InRange d) (rs : List Record)
    → All InRange rs
    → (m : ℕ) → IsCut rs (take m (log rs))
log-IsCut d i [] is m = record {
  whole = [];
  whole_fits = tt;
  lost = [];
  parts = refl;
  cut = d;
  cut_fits = i;
  size = 0;
  short = omega (arith, encoded_len_lem d);
  bytes = take_nil m;
}
log-IsCut d i (r ∷ rs) is m =
    let whole_size = length-bytes r is.0 in
    elim (Bool-cases (ltb m (encoded_len r))) [
      | inl l ↦ record {
        whole = [];
        whole_fits = tt;
        lost = r ∷ rs;
        parts = refl;
        cut = r;
        cut_fits = is.0;
        size = m;
        short = ground arith;
        bytes = take-append_le m (append_record [] r) (log rs) (ground arith);
      }
      | inr l ↦
          let c = log-IsCut d i rs is.1 (m - encoded_len r) in
          let at : m ≡ length (append_record [] r) + (m - encoded_len r) = ground arith in
          record {
            whole = r ∷ c.whole;
            whole_fits = (is.0, c.whole_fits);
            lost = c.lost;
            parts = ap (λ t. r ∷ t) c.parts;
            cut = c.cut;
            cut_fits = c.cut_fits;
            size = c.size;
            short = c.short;
            bytes =
                ap (λ n. take n (append_record [] r ++ log rs)) at
                ∙ take-append_add (append_record [] r) (log rs) (m - encoded_len r)
                ∙ ap (λ b. append_record [] r ++ b) c.bytes
                ∙ sym (
                    append_assoc (append_record [] r) (log c.whole)
                      (take c.size (append_record [] c.cut)));
          }
    ]

Numbered-front : (xs ys : List Record) (n : ℕ) → Numbered n (xs ++ ys) → Numbered n xs
Numbered-front [] ys n h = tt
Numbered-front (x ∷ xs) ys n h = (h.0, Numbered-front xs ys (n + 1) h.1)

-- Records above the snapshot are all applied.
all_applied {ℓ} :
    {S : Type ℓ} (step : S → Record → S) (min_lsn n : ℕ) (rs : List Record) (s : S)
    → min_lsn < n
    → Numbered n rs
    → foldl (apply_new step min_lsn) s rs ≡ foldl step s rs
all_applied step min_lsn n [] s l h = refl
all_applied step min_lsn n (r ∷ rs) s l h =
    let above : leb r.lsn min_lsn ≡ false = (let e = h.0 in ground arith) in
    rw above (all_applied step min_lsn (n + 1) rs (step s r) (omega arith) h.1)

last_number :
    (min_lsn l : ℕ) (rs : List Record)
    → min_lsn ≤ l
    → Numbered (l + 1) rs
    → foldl (later_lsn min_lsn) l rs ≡ l + length rs
last_number min_lsn l [] le h = omega arith
last_number min_lsn l (r ∷ rs) le h =
    let e = h.0 in
    let above : leb r.lsn min_lsn ≡ false = ground arith in
    let later : ltb l r.lsn ≡ true = ground arith in
    rw (above, later, e) (omega (arith, last_number min_lsn (l + 1) rs (omega arith) h.1))

-- The directory with `m` bytes of the first `n` records of the queue behind the last segment.
abbrev pub in_write {ℓ} : {X : Type ℓ} → Writer X → ℕ → ℕ → List File
in_write w n m =
    map listed w.older
    ++ (listed (written w.seg (take m (foldl append_record [] (take n w.queue)))) ∷ [])

-- What was recovered: the acknowledged records, and perhaps the first ones of the queue. The
-- accepted records are the acknowledged ones and those in the queue.
pub record Survives {ℓ κ μ} {S : Type ℓ} {E : Type κ} {X : Type μ} (step : S → Record → S)
    (start : ℕ) (w : Writer X) (rs : List Record) (s : S) (t : Replayed S E X)
    : Type (ℓ ⊔ κ ⊔ μ) where
  pub done : List Record
  pub more : List Record
  pub lost : List Record
  pub accepted : done ++ w.queue ≡ rs
  pub queued : more ++ lost ≡ w.queue
  pub acknowledged_done : w.finished ≡ map acknowledged done
  pub ending : t.ending ≡ success
  pub state : t.state ≡ foldl step s (done ++ more)
  pub next : t.result.next_lsn ≡ (start + length (done ++ more)) % 2 ^ 64

module _ {μ} {X : Type μ} (start : ℕ) (w : Writer X) (n m : ℕ) where
  abbrev torn : Segment
  torn = written w.seg (take m (foldl append_record [] (take n w.queue)))

  -- The last segment as a replay reads it: whole records and a part of one more.
  abbrev last_with : Whole → IsCut (take n w.queue) (take m (log (take n w.queue))) → Whole
  last_with l c = ((listed torn).0, l.1, l.2 ++ c.whole)

  torn_bytes :
      (l : Whole) (c : IsCut (take n w.queue) (take m (log (take n w.queue))))
      → listed w.seg ≡ file_of l
      → torn.bytes ≡ (file_of (last_with l c)).1 ++ take c.size (append_record [] c.cut)
  torn_bytes l c e =
      let t = take c.size (append_record [] c.cut) in
      ap (λ b. w.seg.bytes ++ take m b) (appended (take n w.queue) [])
      ∙ ap (λ b. w.seg.bytes ++ b) c.bytes
      ∙ ap (λ f. f.1 ++ (log c.whole ++ t)) e
      ∙ sym (append_assoc (log (l.1 ∷ l.2)) (log c.whole) t)
      ∙ ap (λ b. b ++ t) (sym (log-append (l.1 ∷ l.2) c.whole))

  written_dir :
      (rs : List Record) (h : Holds w rs)
      (c : IsCut (take n w.queue) (take m (log (take n w.queue))))
      → in_write w n m
        ≡ map file_of h.others
          ++ ((
            (last_with h.last c).0,
            (file_of (last_with h.last c)).1 ++ take c.size (append_record [] c.cut),
          )
              ∷ [])
  written_dir rs h c =
      ap (λ d. d ++ (listed torn ∷ [])) h.others_listed
      ∙ ap (λ b. map file_of h.others ++ (((listed torn).0, b) ∷ []))
          (torn_bytes h.last c h.last_listed)

  rest_queued :
      (c : IsCut (take n w.queue) (take m (log (take n w.queue))))
      → c.whole ++ (c.lost ++ drop n w.queue) ≡ w.queue
  rest_queued c =
      sym (append_assoc c.whole c.lost (drop n w.queue))
      ∙ ap (λ q. q ++ drop n w.queue) c.parts
      ∙ take-append-drop n w.queue

  pieces :
      (rs fs : List Record) (c : IsCut (take n w.queue) (take m (log (take n w.queue))))
      → fs ++ w.queue ≡ rs
      → (fs ++ c.whole) ++ (c.lost ++ drop n w.queue) ≡ rs
  pieces rs fs c e =
      append_assoc fs c.whole (c.lost ++ drop n w.queue) ∙ ap (λ q. fs ++ q) (rest_queued c) ∙ e

  module _ {ℓ κ} {S : Type ℓ} {E : Type κ} (step : S → Record → S) (remove : SegmentInfo → Option X)
      (unsafe : Bool) where
    -- Replay of this directory gives the acknowledged records, and perhaps more of the queue.
    pub replay-Survives :
        (rs : List Record) (k : Keeps start w rs) (clean : w.fatal ≡ none) (min_lsn : ℕ)
        → min_lsn + 1 ≡ start
        → (s : S)
        → Survives step start w rs s
            (replay (visit {E = E} step) fits remove min_lsn unsafe (in_write w n m) s)
    replay-Survives rs k clean min_lsn above s =
        let (fs, all, h) = k.flushed clean in
        let c =
          log-IsCut h.last.1 h.last_whole.header_fits (take n w.queue)
            (All-take InRange n w.queue k.queue_fits) m in
        let whole : IsWhole (last_with h.last c) = record {
          header_fits = h.last_whole.header_fits;
          version = h.last_whole.version;
          header_parses = h.last_whole.header_parses;
          records_fit = All-append InRange h.last.2 c.whole h.last_whole.records_fit c.whole_fits;
        } in
        let (ok, state, dir, path, offset, next) =
          replay-Recovers step min_lsn {E = E} remove unsafe c.cut c.cut_fits c.size c.short
            h.others h.others_whole (last_with h.last c) whole s in
        let kept : records_of h.others ++ (h.last.2 ++ c.whole) ≡ fs ++ c.whole =
          sym (append_assoc (records_of h.others) h.last.2 c.whole)
          ∙ ap (λ r. r ++ c.whole) h.contents in
        let numbered : Numbered start (fs ++ c.whole) =
          Numbered-front (fs ++ c.whole) (c.lost ++ drop n w.queue) start
            (subst (Numbered start) (sym (pieces rs fs c all)) k.numbered) in
        let following : foldl (later_lsn min_lsn) min_lsn (fs ++ c.whole) + 1
            ≡ start + length (fs ++ c.whole) =
          omega (
            arith,
            last_number min_lsn min_lsn (fs ++ c.whole) (omega arith)
                (subst (λ i. Numbered i (fs ++ c.whole)) (sym above) numbered),
          ) in
        rw (written_dir fs h c) (record {
          done = fs;
          more = c.whole;
          lost = c.lost ++ drop n w.queue;
          accepted = all;
          queued = rest_queued c;
          acknowledged_done = h.finished;
          ending = ok;
          state =
              state
              ∙ ap (λ r. foldl (apply_new step min_lsn) s r) kept
              ∙ all_applied step min_lsn start (fs ++ c.whole) s (omega arith) numbered;
          next =
              next
              ∙ ap (λ r. (foldl (later_lsn min_lsn) min_lsn r + 1) % 2 ^ 64) kept
              ∙ ap (λ x. x % 2 ^ 64) following;
        })
