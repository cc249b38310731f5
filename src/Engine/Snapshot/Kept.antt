-- ===== src/Engine/Snapshot/Kept.antt =====
-- What a snapshot does not change of the engine.
use kvstore.Prelude.{ℕ, ◌≡◌, refl, Bool, true, false, Option, none, some, List}
use kvstore.Store.Operations
use kvstore.Wal.Writer.{Segment}
use kvstore.Snapshot
use kvstore.Engine.{Engine}
use kvstore.Engine.Snapshot.{
  Saved, SnapIo, SnapFile, truncate_log, after_commit, commit_file, written, started, snapshot,
  reset_keyspace,
}

-- A snapshot changes the older segments and the counter of mutations, and nothing else.
module _ {ℓ κ} {X : Type ℓ} {A : Type κ} (f : Engine X → A)
    (same : (e : Engine X) (o : List Segment)
      → f (record e { mutations = 0; wal = record (e.wal) { older = o } }) ≡ f e)
    (io : SnapIo X) where
  commit_kept :
      (s : Saved X) (n : ℕ) (file : SnapFile) (o : Option (X × Bool))
      → f (commit_file io s n file o).0.engine ≡ f s.engine
  unfolding commit_file after_commit truncate_log
  commit_kept s n file none = same s.engine _
  commit_kept s n file (some (x, true)) = refl
  commit_kept s n file (some (x, false)) = refl

  written_kept :
      (s : Saved X) (n : ℕ) (file : SnapFile) (o : Option Snapshot.Error)
      → f (written io s n file o).0.engine ≡ f s.engine
  written_kept s n file none = commit_kept s n file io.commit
  written_kept s n file (some x) = refl

  started_kept :
      (s : Saved X) (now : ℕ) (o : Option X) → f (started io s now o).0.engine ≡ f s.engine
  started_kept s now none = written_kept s _ _ _
  started_kept s now (some x) = refl

  pub snapshot_kept : (s : Saved X) (now : ℕ) → f (snapshot io s now).0.engine ≡ f s.engine
  unfolding snapshot
  snapshot_kept s now = started_kept s now io.create

  pub reset_kept :
      (s : Saved X) (now : ℕ)
      → let e = s.engine in
        f (reset_keyspace io s now).0.engine ≡ f (record e { shard = Operations.flush e.shard })
  unfolding reset_keyspace
  reset_kept s now = snapshot_kept _ now
