-- ===== src/Wal/Writer/Durable.antt =====
-- The writer and Replay together: what a crash leaves.
use mathlib.Core.List.{foldl, map}
use kvstore.Prelude.{
  ℕ, zero, suc, ◌+◌, ◌^◌, ◌<◌, ◌≡◌, ◌⊎◌, refl, ap, sym, ◌∙◌, Bool, false, Option, none, some, List,
  [], ◌∷◌, ◌++◌, append-nil, leb, length, take, drop, take-append_add, All, Bool-cases, inl, inr,
}
use kvstore.Wal.Record.{Record, append_record}
use kvstore.Wal.Record.RoundTrip.{InRange}
use kvstore.Wal.Scan.Segment.{visit}
use kvstore.Wal.Truncation.{SegmentInfo}
use kvstore.Wal.Replay.{File, replay}
use kvstore.Wal.Replay.Recovery.{fits}
use kvstore.Wal.Writer.{
  fsync_always, Segment, Io, Writer, create_segment, fsynced, rotate, finish, fail_batch,
  write_batch, flush_batch, run_once, plus,
}
use kvstore.Wal.Writer.Written.{listed, rotate-Holds}
use kvstore.Wal.Writer.Run.{Run, Keeps, Run-Keeps, All-take}
use kvstore.Wal.Writer.Torn.{Survives, in_write, replay-Survives, take_nil}
use kvstore.Wal.Writer.Crash.{Crash, killed, power_lost, left_of, directory}
use kvstore.Wal.Writer.Synced.{IsSynced, Run-IsSynced}

-- A flush that is interrupted in its write, after `m` bytes; a rotation before it does not fail.
-- The writer's error `x` is seen by nobody.
abbrev pub interrupted {ℓ} : {X : Type ℓ} → ℕ → X → ℕ → Io X
interrupted now x m = record {
  sync_old = none;
  close_old = none;
  create = none;
  write = some (x, m);
  sync = none;
  now_ms = now;
}

-- The directory after a crash in a turn of run that has taken `n` records, when `m` bytes of their
-- write were written; with none taken, it is a crash between two turns.
abbrev pub crashed {ℓ} : {X : Type ℓ} → (ℕ → List ℕ) → Writer X → ℕ → ℕ → X → ℕ → Crash → List File
crashed path_of w n m x now c = directory c (run_once path_of w n (interrupted now x m))

abbrev dir_of : List Segment → List ℕ → ℕ → List ℕ → List File
dir_of older path first b =
    map listed older ++ ((record { path = path; first_lsn = first; size = length b }, b) ∷ [])

smaller : ℕ → ℕ → ℕ
smaller zero m = zero
smaller (suc p) zero = zero
smaller (suc p) (suc m) = suc (smaller p m)

take-take {ℓ} : {A : Type ℓ} (p m : ℕ) (xs : List A) → take p (take m xs) ≡ take (smaller p m) xs
unfolding smaller
take-take zero m xs = refl
take-take (suc p) zero xs = refl
take-take (suc p) (suc m) [] = refl
take-take (suc p) (suc m) (x ∷ xs) = ap (λ t. x ∷ t) (take-take p m xs)

module _ {μ} {X : Type μ} (path_of : ℕ → List ℕ) (start : ℕ) (w : Writer X) (rs : List Record)
    (kept : Keeps start w rs) (clean : w.fatal ≡ none) (synced : IsSynced w) (now m : ℕ)
    (x : X) where
  -- The writer `v` after the interrupted write of a batch, from the writer `at` before that write.
  record IsWriting (batch : List Record) (v : Writer X) : Type μ where
    at : Writer X
    keeps : Keeps start at rs
    running : at.fatal ≡ none
    at_synced : IsSynced at
    policy : at.options.fsync ≡ w.options.fsync
    queue : at.queue ≡ w.queue
    finished : at.finished ≡ w.finished
    older : v.older ≡ at.older
    path : v.seg.path ≡ at.seg.path
    first : v.seg.first_lsn ≡ at.seg.first_lsn
    bytes : v.seg.bytes ≡ at.seg.bytes ++ take m (foldl append_record [] batch)
    synced_to : v.seg.synced ≡ at.seg.synced

  -- The writer behind its rotation.
  abbrev rotated : ℕ → Writer X
  rotated first = record w {
    older = w.older ++ (fsynced w.seg ∷ []);
    seg = create_segment path_of first now;
    rotations = plus w.rotations 1;
    pending_sync = false;
  }

  rotated-Keeps : (first : ℕ) → first < 2 ^ 64 → now < 2 ^ 64 → Keeps start (rotated first) rs
  unfolding rotate
  rotated-Keeps first f n = record {
    numbered = kept.numbered;
    next = kept.next;
    queue_fits = kept.queue_fits;
    flushed = λ z.
        let (fs, all, held) = kept.flushed z in
        (fs, all, rotate-Holds path_of w fs first (interrupted now x m) f n held refl);
  }

  writing :
      (n : ℕ) (batch : List Record)
      → All InRange batch
      → now < 2 ^ 64
      → IsWriting batch
          (flush_batch path_of (record w { queue = drop n w.queue }) batch (interrupted now x m))
  unfolding flush_batch write_batch rotate fail_batch finish create_segment
  writing n [] is l = record {
    at = w;
    keeps = kept;
    running = clean;
    at_synced = synced;
    policy = refl;
    queue = refl;
    finished = refl;
    older = refl;
    path = refl;
    first = refl;
    bytes = sym (append-nil w.seg.bytes) ∙ ap (λ b. w.seg.bytes ++ b) (sym (take_nil m));
    synced_to = refl;
  }
  writing n (r ∷ rs) is l = elim (Bool-cases (leb w.options.segment_size w.seg.size)) [
    | inr e ↦ rw e (record {
      at = w;
      keeps = kept;
      running = clean;
      at_synced = synced;
      policy = refl;
      queue = refl;
      finished = refl;
      older = refl;
      path = refl;
      first = refl;
      bytes = refl;
      synced_to = refl;
    })
    | inl e ↦ rw e (record {
      at = rotated r.lsn;
      keeps = rotated-Keeps r.lsn is.0.lsn_fits l;
      running = clean;
      at_synced = λ a z. refl;
      policy = refl;
      queue = refl;
      finished = refl;
      older = refl;
      path = refl;
      first = refl;
      bytes = refl;
      synced_to = refl;
    })
  ]

  -- What is left of the segment: some of the batch behind what was there.
  left_bytes :
      (batch : List Record) (v : Writer X) (i : IsWriting batch v) (c : Crash)
      → (c ≡ killed) ⊎ (w.options.fsync ≡ fsync_always)
      → (k : ℕ) × (left_of c v.seg ≡ i.at.seg.bytes ++ take k (foldl append_record [] batch))
  left_bytes batch v i killed safe = (m, i.bytes)
  left_bytes batch v i (power_lost more) (inl e) = cc
  left_bytes batch v i (power_lost more) (inr always) =
      let buf = foldl append_record [] batch in
      let all = i.at_synced (i.policy ∙ always) i.running in
      (
        smaller more m,
        ap (λ b. take (v.seg.synced + more) b) i.bytes
            ∙ ap (λ k. take (k + more) (i.at.seg.bytes ++ take m buf)) (i.synced_to ∙ all)
            ∙ take-append_add i.at.seg.bytes (take m buf) more
            ∙ ap (λ b. i.at.seg.bytes ++ b) (take-take more m buf),
      )

  -- What Replay reads is a directory whose last segment ends inside the batch.
  directory_left :
      (n : ℕ) (v : Writer X) (i : IsWriting (take n w.queue) v) (c : Crash)
      → (c ≡ killed) ⊎ (w.options.fsync ≡ fsync_always)
      → (k : ℕ) × (directory c v ≡ in_write i.at n k)
  directory_left n v i c safe =
      let (k, e) = left_bytes (take n w.queue) v i c safe in
      let same : left_of c v.seg
          ≡ i.at.seg.bytes ++ take k (foldl append_record [] (take n i.at.queue)) =
        rw i.queue e in
      (
        k,
        ap (λ o. dir_of o v.seg.path v.seg.first_lsn (left_of c v.seg)) i.older
            ∙ ap (λ p. dir_of i.at.older p v.seg.first_lsn (left_of c v.seg)) i.path
            ∙ ap (λ f. dir_of i.at.older i.at.seg.path f (left_of c v.seg)) i.first
            ∙ ap (λ b. dir_of i.at.older i.at.seg.path i.at.seg.first_lsn b) same,
      )

  module _ {ℓ κ} {S : Type ℓ} {E : Type κ} (step : S → Record → S) (remove : SegmentInfo → Option X)
      (unsafe : Bool) (min_lsn : ℕ) where
    survived :
        (n : ℕ) (v : Writer X) (i : IsWriting (take n w.queue) v) (c : Crash)
        → (c ≡ killed) ⊎ (w.options.fsync ≡ fsync_always)
        → min_lsn + 1 ≡ start
        → (s : S)
        → Survives step start w rs s
            (replay (visit {E = E} step) fits remove min_lsn unsafe (directory c v) s)
    survived n v i c safe above s =
        let (k, e) = directory_left n v i c safe in
        let t =
          replay-Survives start i.at n k {E = E} step remove unsafe rs i.keeps i.running min_lsn
            above s in
        rw e (record {
          done = t.done;
          more = t.more;
          lost = t.lost;
          accepted = ap (λ q. t.done ++ q) (sym i.queue) ∙ t.accepted;
          queued = t.queued ∙ i.queue;
          acknowledged_done = sym i.finished ∙ t.acknowledged_done;
          ending = t.ending;
          state = t.state;
          next = t.next;
        })

module _ {ℓ κ μ} {S : Type ℓ} {E : Type κ} {X : Type μ} (path_of : ℕ → List ℕ) (start : ℕ)
    (step : S → Record → S) (remove : SegmentInfo → Option X) (unsafe : Bool) where
  -- Take any run of the writer, from a first number `start`, in which no error has been set, and a
  -- crash in its next turn, whose rotation, if one is due, does not fail: after any `m` bytes of the
  -- write of the first `n` records of the queue, or, with `n` zero, between two turns. The process
  -- is killed, under any fsync policy; or the power is lost, under the policy `always`, and of the
  -- last segment there is left what was fsynced and any number of bytes more. Replay from the
  -- snapshot just before `start`, with a callback and calls that do not fail, succeeds. It applies
  -- every record whose commit was finished, and perhaps more of the accepted records, each once and
  -- in order and none without those before it; and the next number follows them.
  pub replay_durable :
      (w : Writer X) (rs : List Record) (run : Run path_of start w rs) (clean : w.fatal ≡ none)
      (n m : ℕ) (x : X) (now : ℕ) (c : Crash)
      → now < 2 ^ 64
      → (c ≡ killed) ⊎ (w.options.fsync ≡ fsync_always)
      → (min_lsn : ℕ) → min_lsn + 1 ≡ start
      → (s : S)
      → Survives step start w rs s
          (replay (visit {E = E} step) fits remove min_lsn unsafe (crashed path_of w n m x now c) s)
  unfolding run_once
  replay_durable w rs run clean n m x now c l safe min_lsn above s =
      let k = Run-Keeps path_of start w rs run in
      let synced = Run-IsSynced path_of start w rs run in
      let i =
        writing path_of start w rs k clean synced now m x n (take n w.queue)
          (All-take InRange n w.queue k.queue_fits) l in
      survived path_of start w rs k clean synced now m x step remove unsafe min_lsn n _ i c safe
        above s
