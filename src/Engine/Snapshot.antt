-- ===== src/Engine/Snapshot.antt =====
-- Engine.Snapshot, Flush and ResetForFullResync of internal/engine/commands.go over one shard, with
-- the directory of snapshots, snapshot.Prune and the segments that wal.TruncateBelow removes. The
-- clock does not move while a snapshot is written.
pub mod Restored
pub mod Kept
pub mod Tests
use mathlib.Core.List.{map}
use kvstore.Prelude.{
  ℕ, ◌+◌, ◌%◌, ◌^◌, Bool, true, false, Option, none, some, List, [], ◌∷◌, ◌++◌, ltb, ◌==◌,
  if◌then◌else◌, take, drop,
}
use kvstore.Store.Operations
use kvstore.Store.Range.{Copy, batch_size, range}
use kvstore.Wal.Writer.{Writer, Segment, plus}
use kvstore.Wal.Truncation.{SegmentInfo, Truncation, truncate_below}
use kvstore.Snapshot
use kvstore.Snapshot.{Entry, create, add_all, commit}
use kvstore.Engine.{Engine}

-- A file of the snapshot directory: the number that its name holds, and its bytes.
pub record SnapFile : Type 0 where
  pub lsn : ℕ
  pub bytes : List ℕ

-- The engine, its snapshots with the newest first, and what it counts of them.
pub record Saved {ℓ} (X : Type ℓ) : Type ℓ where
  pub engine : Engine X
  pub files : List SnapFile
  pub last_snap_lsn : ℕ
  pub snapshots : ℕ

-- What the file system answers: `none` is success. A commit that fails may have renamed the file.
-- `created_ms` is the clock at the creation of the file, before the listing reads it again.
pub record SnapIo {ℓ} (X : Type ℓ) : Type ℓ where
  pub create : Option X
  pub created_ms : ℕ
  pub commit : Option (X × Bool)
  pub remove_segment : SegmentInfo → Option X
  pub sync_dir : Option X
  pub remove_file : SnapFile → Option X

pub data SnapError {ℓ} (X : Type ℓ) : Type ℓ where
  create_failed commit_failed : X → SnapError X
  add_failed : Snapshot.Error → SnapError X
  read_only : SnapError X

abbrev pub entry_of : Copy → Entry
entry_of c = record { key = c.key; value = c.value; expire_at_ms = c.expire_at }

-- The renaming: a file of the same name is replaced, and the list stays ordered.
unfoldable pub put_file : SnapFile → List SnapFile → List SnapFile
put_file f [] = f ∷ []
put_file f (g ∷ gs) =
    let rest = put_file f gs in
    if f.lsn == g.lsn then f ∷ gs else if ltb g.lsn f.lsn then f ∷ (g ∷ gs) else g ∷ rest

abbrev info_of : Segment → SegmentInfo
info_of g = record { path = g.path; first_lsn = g.first_lsn; size = g.size }

module _ {ℓ} {X : Type ℓ} where
  -- The loop of Prune, which stops at a file that cannot be removed.
  unfoldable pub prune_from : (SnapFile → Option X) → List SnapFile → List SnapFile
  prune_from remove [] = []
  prune_from remove (f ∷ fs) =
      let rest = prune_from remove fs in elim (remove f) [ some x ↦ f ∷ fs | none ↦ rest ]

  unfoldable pub prune : (SnapFile → Option X) → ℕ → List SnapFile → List SnapFile
  prune remove keep files =
      let kept = if ltb keep 1 then 1 else keep in
      take kept files ++ prune_from remove (drop kept files)

  -- TruncateBelow over the writer's directory, whose last segment is the writer's own. A writer whose
  -- rotations did not fail has no orphans, which the listing would hold too.
  unfoldable pub truncate_log : SnapIo X → Writer X → ℕ → Writer X
  truncate_log io w lsn =
      let t =
        truncate_below io.remove_segment io.sync_dir (map info_of (w.older ++ (w.seg ∷ []))) lsn in
      record w { older = drop t.removed w.older }

  -- What follows the commit. The errors of the truncation and of the pruning are passed over.
  unfoldable pub after_commit : SnapIo X → Saved X → ℕ → SnapFile → Saved X
  after_commit io s lsn file =
      let e = s.engine in
      record {
        engine = record e { mutations = 0; wal = truncate_log io e.wal lsn };
        files = prune io.remove_file 2 (put_file file s.files);
        last_snap_lsn = lsn;
        snapshots = plus s.snapshots 1;
      }

  unfoldable pub commit_file :
      SnapIo X → Saved X → ℕ → SnapFile → Option (X × Bool) → Saved X × Option (SnapError X)
  commit_file io s lsn file none = (after_commit io s lsn file, none)
  commit_file io s lsn file (some (x, placed)) =
      (if placed then record s { files = put_file file s.files } else s, some (commit_failed x))

  abbrev pub written :
      SnapIo X → Saved X → ℕ → SnapFile → Option Snapshot.Error → Saved X × Option (SnapError X)
  written io s lsn file none = commit_file io s lsn file io.commit
  written io s lsn file (some x) = (s, some (add_failed x))

  abbrev pub started : SnapIo X → Saved X → ℕ → Option X → Saved X × Option (SnapError X)
  started io s now_ms (some x) = (s, some (create_failed x))
  started io s now_ms none =
      let lsn = s.engine.wal.durable_lsn in
      let (w, failed) =
        add_all (create lsn io.created_ms)
          (map entry_of (range batch_size s.engine.shard now_ms)) in
      written io s lsn (record { lsn = lsn; bytes = (commit w).0.file }) failed

  -- Snapshot: the log's number is taken before the entries are listed.
  unfoldable pub snapshot : SnapIo X → Saved X → ℕ → Saved X × Option (SnapError X)
  snapshot io s now_ms = started io s now_ms io.create

  -- resetKeyspace, which is ResetForFullResync.
  unfoldable pub reset_keyspace : SnapIo X → Saved X → ℕ → Saved X × Option (SnapError X)
  reset_keyspace io s now_ms =
      let e = s.engine in
      snapshot io (record s { engine = record e { shard = Operations.flush e.shard } }) now_ms

  -- Engine.Flush
  unfoldable pub flush : SnapIo X → Saved X → ℕ → Saved X × Option (SnapError X)
  flush io s now_ms = if s.engine.read_only then (s, some read_only) else reset_keyspace io s now_ms
