-- ===== src/Wal/Writer/Synced.antt =====
-- Under the policy `always`, a writer without an error has fsynced all that it has written.
use kvstore.Prelude.{
  ℕ, ◌≡◌, ◌≢◌, refl, Option, none, some, List, [], ◌∷◌, arith, leb, length, drop, take, Bool-cases,
  Option-cases, inl, inr,
}
use kvstore.Wal.Record.{Record}
use kvstore.Wal.Writer.{
  FsyncPolicy, fsync_always, fsync_every_sec, fsync_no, Io, Writer, submit, open_new,
  create_segment, finish, fail_batch, first_error, rotate, make_durable, last_lsn_of, write_batch,
  flush_batch, run_once, sync, tick,
}
use kvstore.Wal.Writer.Run.{Run, opens, submits, flushes, syncs, ticks}

module _ {ℓ} {X : Type ℓ} where
  abbrev pub IsSynced : Writer X → Type ℓ
  IsSynced w = w.options.fsync ≡ fsync_always → w.fatal ≡ none → w.seg.synced ≡ length w.seg.bytes

  fail_batch-IsSynced :
      (v : Writer X) (batch : List Record) (x : X) → IsSynced (fail_batch v batch x)
  unfolding fail_batch finish
  fail_batch-IsSynced v batch x a e = absurd (by_first v.fatal e)
    where
      by_first : (o : Option X) → first_error o x ≢ none
      by_first none = λ h. cc
      by_first (some y) = λ h. cc

  make_durable-IsSynced :
      (p : FsyncPolicy) (v : Writer X) (batch : List Record) (last : ℕ) (e : Option X)
      → v.options.fsync ≡ p
      → IsSynced (make_durable p v batch last e)
  unfolding make_durable finish
  make_durable-IsSynced fsync_always v batch last (some x) q = fail_batch-IsSynced v batch x
  make_durable-IsSynced fsync_always v batch last none q = λ a e. refl
  make_durable-IsSynced fsync_every_sec v batch last e q = λ a. cc
  make_durable-IsSynced fsync_no v batch last e q = λ a. cc

  write_batch-IsSynced :
      (w : Writer X) (batch : List Record) (io : Io X) → IsSynced (write_batch w batch io)
  unfolding write_batch
  write_batch-IsSynced w batch io = elim (Option-cases io.write) [
    | inr ((x, n), e) ↦ rw (e, write_batch) (fail_batch-IsSynced _ batch x)
    | inl e ↦
        rw (e, write_batch)
          (make_durable-IsSynced w.options.fsync _ batch (last_lsn_of batch) io.sync refl)
  ]

  pub flush_batch-IsSynced :
      (path_of : ℕ → List ℕ) (w : Writer X) (batch : List Record) (io : Io X)
      → IsSynced w
      → IsSynced (flush_batch path_of w batch io)
  unfolding flush_batch
  flush_batch-IsSynced path_of w [] io h = h
  flush_batch-IsSynced path_of w (r ∷ rs) io h =
      elim (Bool-cases (leb w.options.segment_size w.seg.size)) [
        | inr e ↦ rw e (write_batch-IsSynced w (r ∷ rs) io)
        | inl e ↦ elim (Option-cases (rotate path_of w r.lsn io).1) [
          | inr (x, f) ↦ rw (e, f) (fail_batch-IsSynced _ (r ∷ rs) x)
          | inl f ↦ rw (e, f) (write_batch-IsSynced (rotate path_of w r.lsn io).0 (r ∷ rs) io)
        ]
      ]

  submit-IsSynced : (w : Writer X) (r : Record) (now : ℕ) → IsSynced w → IsSynced (submit w r now).0
  unfolding submit
  submit-IsSynced w r now h = ground arith

  sync-IsSynced : (w : Writer X) (e : Option X) → IsSynced w → IsSynced (sync w e).0
  unfolding sync
  sync-IsSynced w e h = ground arith

  tick-IsSynced : (w : Writer X) (e : Option X) → IsSynced w → IsSynced (tick w e)
  unfolding tick
  tick-IsSynced w e h = ground arith

  pub Run-IsSynced :
      (path_of : ℕ → List ℕ) (start : ℕ) (w : Writer X) (rs : List Record)
      → Run path_of start w rs
      → IsSynced w
  unfolding open_new create_segment run_once
  Run-IsSynced path_of start _ _ (opens o now f n) = λ a e. refl
  Run-IsSynced path_of start _ _ (submits {w} {rs} r now i n l e run) =
      submit-IsSynced w r now (Run-IsSynced path_of start w rs run)
  Run-IsSynced path_of start _ rs (flushes {w} n io l run) =
      flush_batch-IsSynced path_of (record w { queue = drop n w.queue }) (take n w.queue) io
        (Run-IsSynced path_of start w rs run)
  Run-IsSynced path_of start _ rs (syncs {w} e run) =
      sync-IsSynced w e (Run-IsSynced path_of start w rs run)
  Run-IsSynced path_of start _ rs (ticks {w} e run) =
      tick-IsSynced w e (Run-IsSynced path_of start w rs run)
