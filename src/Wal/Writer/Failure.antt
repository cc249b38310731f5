-- ===== src/Wal/Writer/Failure.antt =====
-- What the writer does after a write that failed.
use mathlib.Core.List.{map, foldl}
use kvstore.Prelude.{
  ℕ, ◌≡◌, ◌≢◌, refl, ap, ◌∙◌, false, Option, none, some, List, [], ◌∷◌, ◌++◌, append_assoc, leb,
  length, take,
}
use kvstore.Wal.Record.{Record, append_record}
use kvstore.Wal.Scan.Segment.{log}
use kvstore.Wal.Writer.{
  FsyncPolicy, fsync_always, fsync_every_sec, fsync_no, Io, Writer, finish, fail_batch, first_error,
  make_durable, write_batch, flush_batch, plus, last_lsn_of, written,
}
use kvstore.Wal.Writer.Written.{acknowledged, appended}

module _ {ℓ} {X : Type ℓ} (path_of : ℕ → List ℕ) where
  -- A flush that does not rotate, and whose calls do not fail.
  flush_clean :
      (v : Writer X) (q : Record) (qs : List Record) (io : Io X)
      → leb v.options.segment_size v.seg.size ≡ false
      → io.write ≡ none
      → io.sync ≡ none
      → ((flush_batch path_of v (q ∷ qs) io).finished ≡ v.finished ++ map acknowledged (q ∷ qs))
        × ((flush_batch path_of v (q ∷ qs) io).seg.bytes ≡ v.seg.bytes ++ log (q ∷ qs))
  unfolding flush_batch write_batch make_durable finish
  flush_clean v q qs io room e f = rw (room, e, f, write_batch) (by_policy v.options.fsync)
    where
      by_policy :
          (p : FsyncPolicy)
          → ((make_durable p
                (record v {
                  seg = written v.seg (foldl append_record [] (q ∷ qs));
                  bytes = plus v.bytes (length (foldl append_record [] (q ∷ qs)));
                  records = plus v.records (length (q ∷ qs));
                  batches = plus v.batches 1;
                  written_lsn = last_lsn_of (q ∷ qs);
                })
                (q ∷ qs)
                (last_lsn_of (q ∷ qs))
                none).finished
              ≡ v.finished ++ map acknowledged (q ∷ qs))
            × ((make_durable p
                  (record v {
                    seg = written v.seg (foldl append_record [] (q ∷ qs));
                    bytes = plus v.bytes (length (foldl append_record [] (q ∷ qs)));
                    records = plus v.records (length (q ∷ qs));
                    batches = plus v.batches 1;
                    written_lsn = last_lsn_of (q ∷ qs);
                  })
                  (q ∷ qs)
                  (last_lsn_of (q ∷ qs))
                  none).seg.bytes
                ≡ v.seg.bytes ++ log (q ∷ qs))
      by_policy fsync_always = (refl, ap (λ b. v.seg.bytes ++ b) (appended (q ∷ qs) []))
      by_policy fsync_every_sec = (refl, ap (λ b. v.seg.bytes ++ b) (appended (q ∷ qs) []))
      by_policy fsync_no = (refl, ap (λ b. v.seg.bytes ++ b) (appended (q ∷ qs) []))

  flush_failed :
      (w : Writer X) (r : Record) (rs : List Record) (io : Io X) (x : X) (n : ℕ)
      → leb w.options.segment_size w.seg.size ≡ false
      → io.write ≡ some (x, n)
      → ((flush_batch path_of w (r ∷ rs) io).fatal ≢ none)
        × ((flush_batch path_of w (r ∷ rs) io).seg.bytes ≡ w.seg.bytes ++ take n (log (r ∷ rs)))
  unfolding flush_batch write_batch fail_batch finish
  flush_failed w r rs io x n room e =
      rw (room, e, write_batch)
        (by_first w.fatal, ap (λ b. w.seg.bytes ++ take n b) (appended (r ∷ rs) []))
    where
      by_first : (o : Option X) → first_error o x ≢ none
      by_first none = λ h. cc
      by_first (some y) = λ h. cc

  -- After a write that failed and left `n` bytes of its batch, the writer has its fatal error; but
  -- the next batch of the queue is written behind those bytes, and is acknowledged without an
  -- error, if its own calls do not fail. Neither flush rotates.
  pub flush-after-failure :
      (w : Writer X) (r : Record) (rs : List Record) (io : Io X) (x : X) (n : ℕ)
      → leb w.options.segment_size w.seg.size ≡ false
      → io.write ≡ some (x, n)
      → (q : Record) (qs : List Record) (io' : Io X)
      → leb
          (flush_batch path_of w (r ∷ rs) io).options.segment_size
          (flush_batch path_of w (r ∷ rs) io).seg.size
        ≡ false
      → io'.write ≡ none
      → io'.sync ≡ none
      → ((flush_batch path_of w (r ∷ rs) io).fatal ≢ none)
        × ((flush_batch path_of (flush_batch path_of w (r ∷ rs) io) (q ∷ qs) io').finished
            ≡ (flush_batch path_of w (r ∷ rs) io).finished ++ map acknowledged (q ∷ qs))
        × ((flush_batch path_of (flush_batch path_of w (r ∷ rs) io) (q ∷ qs) io').seg.bytes
            ≡ w.seg.bytes ++ (take n (log (r ∷ rs)) ++ log (q ∷ qs)))
  flush-after-failure w r rs io x n room e q qs io' room' e' f' =
      let (bad, left) = flush_failed w r rs io x n room e in
      let (acked, bytes) = flush_clean (flush_batch path_of w (r ∷ rs) io) q qs io' room' e' f' in
      (
        bad,
        acked,
        bytes
            ∙ ap (λ b. b ++ log (q ∷ qs)) left
            ∙ append_assoc w.seg.bytes (take n (log (r ∷ rs))) (log (q ∷ qs)),
      )
