-- ===== src/Wal/Writer.antt =====
-- internal/wal/writer.go and the segments of internal/wal/segment.go: the writer's state, and one
-- function for each of its steps. What the file system answers is an argument of a step. The
-- queue's channel is the list of what it holds; a send does not block here.
pub mod Written
pub mod Flush
pub mod Run
pub mod Torn
pub mod Crash
pub mod Synced
pub mod Durable
pub mod Failure
pub mod Tests
use mathlib.Core.List.{foldl, map}
use kvstore.Prelude.{
  ℕ, ◌+◌, ◌-◌, ◌%◌, ◌^◌, Bool, true, false, not, ◌||◌, Option, none, some, List, [], ◌∷◌, ◌++◌, ltb,
  leb, ◌==◌, if◌then◌else◌, length, take, drop,
}
use kvstore.Wal.Record.{
  Record, append_record, new_segment_header, valid, rec_segment_hdr, max_key_len, max_val_len,
}

pub data FsyncPolicy : Type 0 where
  fsync_always fsync_every_sec fsync_no : FsyncPolicy

-- A segment and its file. The last field is the file system's: how many of the bytes an fsync has
-- brought to the disk.
pub record Segment : Type 0 where
  pub path : List ℕ
  pub first_lsn : ℕ
  pub size : ℕ
  pub bytes : List ℕ
  pub synced : ℕ

-- What the file system answers during one flush: `none` is success. A write that fails has written
-- some bytes; a creation that fails may leave a file with some bytes of the header.
pub record Io {ℓ} (X : Type ℓ) : Type ℓ where
  pub sync_old : Option X
  pub close_old : Option X
  pub create : Option (X × Option ℕ)
  pub write : Option (X × ℕ)
  pub sync : Option X
  pub now_ms : ℕ

pub record Options : Type 0 where
  pub fsync : FsyncPolicy
  pub segment_size : ℕ
  pub group_commit_max : ℕ

-- `older` and `orphans` are the other segments of the directory. `finished` holds the commits that
-- were finished, with their errors, oldest first.
pub record Writer {ℓ} (X : Type ℓ) : Type ℓ where
  pub options : Options
  pub older : List Segment
  pub seg : Segment
  pub orphans : List Segment
  pub queue : List Record
  pub closed : Bool
  pub next_lsn : ℕ
  pub durable_lsn : ℕ
  pub written_lsn : ℕ
  pub records : ℕ
  pub batches : ℕ
  pub bytes : ℕ
  pub fsyncs : ℕ
  pub rotations : ℕ
  pub pending_sync : Bool
  pub fatal : Option X
  pub finished : List (ℕ × Option X)

-- `x += n` on an atomic uint64.
abbrev pub plus : ℕ → ℕ → ℕ
plus x n = (x + n) % 2 ^ 64

pub data SubmitError {ℓ} (X : Type ℓ) : Type ℓ where
  closed_writer key_too_long value_too_long bad_type : SubmitError X
  fatal_error : X → SubmitError X

-- The record with its number and its time.
unfoldable pub stamp : Record → ℕ → ℕ → Record
stamp r lsn now_ms = record r {
  lsn = lsn;
  created_at_ms = if r.created_at_ms == 0 then now_ms else r.created_at_ms;
}

-- createSegment when nothing fails.
unfoldable pub create_segment : (ℕ → List ℕ) → ℕ → ℕ → Segment
create_segment path_of first_lsn now_ms =
    let header = append_record [] (new_segment_header first_lsn now_ms) in
    record {
      path = path_of first_lsn;
      first_lsn = first_lsn;
      size = length header;
      bytes = header;
      synced = length header;
    }

-- segment.write: what was written counts, also when it fails.
abbrev pub written : Segment → List ℕ → Segment
written seg b = record seg { bytes = seg.bytes ++ b; size = seg.size + length b }

-- segment.sync when it does not fail.
abbrev pub fsynced : Segment → Segment
fsynced seg = record seg { synced = length seg.bytes }

abbrev pub last_lsn_of : List Record → ℕ
last_lsn_of batch = foldl (λ l r. r.lsn) 0 batch

module _ {ℓ} {X : Type ℓ} where
  -- Open without a segment to resume, with the options' defaults filled in, when nothing fails.
  unfoldable pub open_new : (ℕ → List ℕ) → Options → ℕ → ℕ → Writer X
  open_new path_of o start_lsn now_ms = record {
    options = o;
    older = [];
    seg = create_segment path_of start_lsn now_ms;
    orphans = [];
    queue = [];
    closed = false;
    next_lsn = start_lsn;
    durable_lsn = plus start_lsn (2 ^ 64 - 1);
    written_lsn = plus start_lsn (2 ^ 64 - 1);
    records = 0;
    batches = 0;
    bytes = 0;
    fsyncs = 0;
    rotations = 0;
    pending_sync = false;
    fatal = none;
    finished = [];
  }

  -- Submit, at a time that its clock gives. The commit's number is the one before `next_lsn`.
  unfoldable pub submit : Writer X → Record → ℕ → Writer X × Option (SubmitError X)
  submit w r now_ms = if w.closed then (w, some closed_writer) else elim w.fatal [
    | some x ↦ (w, some (fatal_error x))
    | none ↦
        if ltb max_key_len (length r.key)
        then (w, some key_too_long)
        else if ltb max_val_len (length r.value)
        then (w, some value_too_long)
        else if not (valid r.rec_type) || (r.rec_type == rec_segment_hdr)
        then (w, some bad_type)
        else (
          record w {
            next_lsn = (w.next_lsn + 1) % 2 ^ 64;
            queue = w.queue ++ (stamp r w.next_lsn now_ms ∷ []);
          },
          none,
        )
  ]

  -- setFatal keeps the first error.
  abbrev first_error : Option X → X → Option X
  first_error none x = some x
  first_error (some y) x = some y

  unfoldable pub finish : Writer X → List Record → Option X → Writer X
  finish w batch e = record w { finished = w.finished ++ map (λ r. (r.lsn, e)) batch }

  unfoldable pub fail_batch : Writer X → List Record → X → Writer X
  fail_batch w batch x = finish (record w { fatal = first_error w.fatal x }) batch (some x)

  -- The new segment is the last one when it is made; a failed one is left to the directory.
  unfoldable pub rotate : (ℕ → List ℕ) → Writer X → ℕ → Io X → Writer X × Option X
  rotate path_of w first_lsn io =
      let fresh = create_segment path_of first_lsn io.now_ms in
      elim io.sync_old [
        | some x ↦ (w, some x)
        | none ↦ elim io.close_old [
          | some x ↦ (w, some x)
          | none ↦ elim io.create [
            | some (x, none) ↦ (w, some x)
            | some (x, some n) ↦ (
              record w {
                orphans =
                    w.orphans ++ (record fresh { bytes = take n fresh.bytes; synced = 0 } ∷ []);
              },
              some x,
            )
            | none ↦ (
              record w {
                older = w.older ++ (fsynced w.seg ∷ []);
                seg = fresh;
                rotations = plus w.rotations 1;
                pending_sync = false;
              },
              none,
            )
          ]
        ]
      ]

  -- The switch on the policy, after a write.
  unfoldable pub make_durable : FsyncPolicy → Writer X → List Record → ℕ → Option X → Writer X
  make_durable fsync_always w batch last (some x) = fail_batch w batch x
  make_durable fsync_always w batch last none =
      finish (record w { seg = fsynced w.seg; fsyncs = plus w.fsyncs 1; durable_lsn = last }) batch
        none
  make_durable policy w batch last e =
      finish (record w { pending_sync = true; durable_lsn = last }) batch none

  unfoldable pub write_batch : Writer X → List Record → Io X → Writer X
  write_batch w batch io =
      let buf = foldl append_record [] batch in
      elim io.write [
        | some (x, n) ↦ fail_batch (record w { seg = written w.seg (take n buf) }) batch x
        | none ↦
            make_durable w.options.fsync
              (record w {
                seg = written w.seg buf;
                bytes = plus w.bytes (length buf);
                records = plus w.records (length batch);
                batches = plus w.batches 1;
                written_lsn = last_lsn_of batch;
              })
              batch (last_lsn_of batch) io.sync
      ]

  -- flushBatch; a batch has a first record.
  unfoldable pub flush_batch : (ℕ → List ℕ) → Writer X → List Record → Io X → Writer X
  flush_batch path_of w [] io = w
  flush_batch path_of w (r ∷ rs) io =
      if leb w.options.segment_size w.seg.size
      then (let (w1, e) = rotate path_of w r.lsn io in
          elim e [ some x ↦ fail_batch w1 (r ∷ rs) x | none ↦ write_batch w1 (r ∷ rs) io ])
      else write_batch w (r ∷ rs) io

  -- One turn of run, whose timer and queue gave it `n` records. The limit of a batch is
  -- GroupCommitMax, but one record at least.
  unfoldable pub run_once : (ℕ → List ℕ) → Writer X → ℕ → Io X → Writer X
  run_once path_of w n io =
      flush_batch path_of (record w { queue = drop n w.queue }) (take n w.queue) io

  -- Sync, and its error.
  unfoldable pub sync : Writer X → Option X → Writer X × Option X
  sync w e = elim w.fatal [
    | some x ↦ (w, some x)
    | none ↦ elim e [
      | some x ↦ (record w { pending_sync = false; fatal = some x }, some x)
      | none ↦ (
        record w {
          seg = fsynced w.seg;
          pending_sync = false;
          fsyncs = plus w.fsyncs 1;
          durable_lsn = w.written_lsn;
        },
        none,
      )
    ]
  ]

  -- One tick of everySecLoop.
  unfoldable pub tick : Writer X → Option X → Writer X
  tick w e = if not w.pending_sync then w else elim e [
    | some x ↦ record w { pending_sync = false; fatal = first_error w.fatal x }
    | none ↦ record w { seg = fsynced w.seg; pending_sync = false; fsyncs = plus w.fsyncs 1 }
  ]
