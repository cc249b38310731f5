-- ===== src/Wal/Writer/Flush.antt =====
-- A flush of the writer, which keeps what the directory holds, or sets the error.
use mathlib.Core.List.{foldl, map, map-append}
use kvstore.Prelude.{
  ℕ, ◌^◌, ◌<◌, ◌≡◌, ◌≢◌, refl, ap, sym, ◌∙◌, Option, none, some, List, [], ◌∷◌, ◌++◌, append-nil,
  append_assoc, arith, leb, length, All, Bool-cases, Option-cases, inl, inr,
}
use kvstore.Wal.Record.{Record, append_record}
use kvstore.Wal.Record.RoundTrip.{InRange}
use kvstore.Wal.Scan.Segment.{log}
use kvstore.Wal.Replay.Recovery.{Whole, IsWhole, file_of, records_of}
use kvstore.Wal.Writer.{
  FsyncPolicy, fsync_always, fsync_every_sec, fsync_no, Segment, Io, Writer, finish, fail_batch,
  first_error, rotate, written, make_durable, plus, last_lsn_of, write_batch, flush_batch,
}
use kvstore.Wal.Writer.Written.{
  listed, appended, log-append, All-append, acknowledged, Holds, rotate-Holds,
}

module _ {ℓ} {X : Type ℓ} where
  -- A flush that leaves the writer without an error: there was none before, and the batch is added.
  abbrev Flushed : Writer X → Writer X → List Record → Type ℓ
  Flushed w w' batch =
      w'.fatal ≡ none
      → (w.fatal ≡ none) × ((rs : List Record) → Holds w rs → Holds w' (rs ++ batch))

  fail_batch-Flushed :
      (w v : Writer X) (batch : List Record) (x : X) → Flushed w (fail_batch v batch x) batch
  unfolding fail_batch finish
  fail_batch-Flushed w v batch x e = absurd (by_first v.fatal e)
    where
      by_first : (o : Option X) → first_error o x ≢ none
      by_first none = λ h. cc
      by_first (some y) = λ h. cc

  module _ (w : Writer X) (rs batch : List Record) (h : Holds w rs) (is : All InRange batch) where
    abbrev seg_after : Segment
    seg_after = written w.seg (foldl append_record [] batch)

    abbrev last_after : Whole
    last_after = ((listed seg_after).0, h.last.1, h.last.2 ++ batch)

    bytes_after : seg_after.bytes ≡ (file_of last_after).1
    bytes_after =
        ap (λ b. w.seg.bytes ++ b) (appended batch [])
        ∙ ap (λ f. f.1 ++ log batch) h.last_listed
        ∙ sym (log-append (h.last.1 ∷ h.last.2) batch)

    last_after-IsWhole : IsWhole last_after
    last_after-IsWhole = record {
      header_fits = h.last_whole.header_fits;
      version = h.last_whole.version;
      header_parses = h.last_whole.header_parses;
      records_fit = All-append InRange h.last.2 batch h.last_whole.records_fit is;
    }

    -- The batch is written and acknowledged.
    added :
        (w' : Writer X)
        → w'.older ≡ w.older
        → listed w'.seg ≡ listed seg_after
        → w'.finished ≡ w.finished ++ map acknowledged batch
        → Holds w' (rs ++ batch)
    added w' o g f = record {
      others = h.others;
      last = last_after;
      others_listed = ap (map listed) o ∙ h.others_listed;
      last_listed = g ∙ ap (λ b. ((listed seg_after).0, b)) bytes_after;
      others_whole = h.others_whole;
      last_whole = last_after-IsWhole;
      contents =
          sym (append_assoc (records_of h.others) h.last.2 batch) ∙ ap (λ r. r ++ batch) h.contents;
      finished =
          f
          ∙ ap (λ c. c ++ map acknowledged batch) h.finished
          ∙ sym (map-append acknowledged rs batch);
    }

  write_batch-Flushed :
      (w : Writer X) (batch : List Record) (io : Io X)
      → All InRange batch
      → Flushed w (write_batch w batch io) batch
  unfolding write_batch make_durable finish
  write_batch-Flushed w batch io is = elim (Option-cases io.write) [
    | inr ((x, n), e) ↦ rw (e, write_batch) (fail_batch-Flushed w _ batch x)
    | inl e ↦ rw (e, write_batch) (by_policy w.options.fsync io.sync)
  ]
    where
      by_policy :
          (p : FsyncPolicy) (s : Option X)
          → Flushed w
              (make_durable p
                (record w {
                  seg = written w.seg (foldl append_record [] batch);
                  bytes = plus w.bytes (length (foldl append_record [] batch));
                  records = plus w.records (length batch);
                  batches = plus w.batches 1;
                  written_lsn = last_lsn_of batch;
                })
                batch
                (last_lsn_of batch)
                s)
              batch
      by_policy fsync_always (some x) = fail_batch-Flushed w _ batch x
      by_policy fsync_always none = λ z. (z, λ rs h. added w rs batch h is _ refl refl refl)
      by_policy fsync_every_sec s = λ z. (z, λ rs h. added w rs batch h is _ refl refl refl)
      by_policy fsync_no s = λ z. (z, λ rs h. added w rs batch h is _ refl refl refl)

  rotate_fatal :
      (path_of : ℕ → List ℕ) (w : Writer X) (first : ℕ) (io : Io X)
      → (rotate path_of w first io).0.fatal ≡ w.fatal
  unfolding rotate
  rotate_fatal path_of w first io = ground arith

  pub flush_batch-Flushed :
      (path_of : ℕ → List ℕ) (w : Writer X) (batch : List Record) (io : Io X)
      → All InRange batch
      → io.now_ms < 2 ^ 64
      → Flushed w (flush_batch path_of w batch io) batch
  unfolding flush_batch
  flush_batch-Flushed path_of w [] io is n = λ z. (z, λ rs h. rw (append-nil rs) h)
  flush_batch-Flushed path_of w (r ∷ rs) io is n =
      elim (Bool-cases (leb w.options.segment_size w.seg.size)) [
        | inr e ↦ rw e (write_batch-Flushed w (r ∷ rs) io is)
        | inl e ↦ elim (Option-cases (rotate path_of w r.lsn io).1) [
          | inr (x, f) ↦ rw (e, f) (fail_batch-Flushed w _ (r ∷ rs) x)
          | inl f ↦
              rw (e, f)
                (λ z.
                  let (g, k) = write_batch-Flushed (rotate path_of w r.lsn io).0 (r ∷ rs) io is z in
                  (
                    sym (rotate_fatal path_of w r.lsn io) ∙ g,
                    λ qs h. k qs (rotate-Holds path_of w qs r.lsn io is.0.lsn_fits n h f),
                  ))
        ]
      ]

  -- What a flush leaves alone.
  abbrev Rest : Writer X → Writer X → Type 0
  Rest w v = (v.queue ≡ w.queue) × (v.next_lsn ≡ w.next_lsn)

  write_batch-Rest :
      (w : Writer X) (batch : List Record) (io : Io X) → Rest w (write_batch w batch io)
  unfolding write_batch make_durable finish fail_batch
  write_batch-Rest w batch io = elim (Option-cases io.write) [
    | inr ((x, n), e) ↦ rw (e, write_batch) (refl, refl)
    | inl e ↦ rw (e, write_batch) (by_policy w.options.fsync io.sync)
  ]
    where
      by_policy :
          (p : FsyncPolicy) (s : Option X)
          → Rest w (
              make_durable p
                (record w {
                  seg = written w.seg (foldl append_record [] batch);
                  bytes = plus w.bytes (length (foldl append_record [] batch));
                  records = plus w.records (length batch);
                  batches = plus w.batches 1;
                  written_lsn = last_lsn_of batch;
                })
                batch
                (last_lsn_of batch)
                s)
      by_policy fsync_always (some x) = (refl, refl)
      by_policy fsync_always none = (refl, refl)
      by_policy fsync_every_sec s = (refl, refl)
      by_policy fsync_no s = (refl, refl)

  rotate-Rest :
      (path_of : ℕ → List ℕ) (w : Writer X) (first : ℕ) (io : Io X)
      → Rest w (rotate path_of w first io).0
  unfolding rotate
  rotate-Rest path_of w first io = (ground arith, ground arith)

  pub flush_batch-Rest :
      (path_of : ℕ → List ℕ) (w : Writer X) (batch : List Record) (io : Io X)
      → Rest w (flush_batch path_of w batch io)
  unfolding flush_batch fail_batch finish
  flush_batch-Rest path_of w [] io = (refl, refl)
  flush_batch-Rest path_of w (r ∷ rs) io =
      let v = (rotate path_of w r.lsn io).0 in
      let (q, n) = rotate-Rest path_of w r.lsn io in
      elim (Bool-cases (leb w.options.segment_size w.seg.size)) [
        | inr e ↦ rw e (write_batch-Rest w (r ∷ rs) io)
        | inl e ↦ elim (Option-cases (rotate path_of w r.lsn io).1) [
          | inr (x, f) ↦ rw (e, f) (q, n)
          | inl f ↦ let (q', n') = write_batch-Rest v (r ∷ rs) io in rw (e, f) (q' ∙ q, n' ∙ n)
        ]
      ]
