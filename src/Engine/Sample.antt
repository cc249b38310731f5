-- ===== src/Engine/Sample.antt =====
-- A small engine with one key, for the tests of the modules that use an engine.
use kvstore.Prelude.{ℕ, ◌^◌, ◌<◌, refl, false, none, [], ◌∷◌, arith, length}
use kvstore.Store.Entry.{entry_cost}
use kvstore.Store.Shard.{Shard, Key, all_keys_lru, new_shard}
use kvstore.Store.Operations
use kvstore.Store.Invariant.Sound.{IsSound}
use kvstore.Store.Invariant.Operations.{new_shard-IsSound}
use kvstore.Store.Invariant.Admission.{set-IsSound}
use kvstore.Wal.Writer.{fsync_always, open_new}
use kvstore.Engine.{Engine}
use kvstore.Engine.Steps.{IsRoomy}
use kvstore.Engine.Snapshot.{Saved, SnapIo}

abbrev pub fresh : Shard
fresh = new_shard 5 10 7 false all_keys_lru

abbrev pub letter : Key
letter = 0x6B ∷ []

-- The key is its own value, without a deadline.
abbrev pub one : Shard
one = (Operations.set fresh letter letter 0 1).0

pub fresh-IsRoomy : IsRoomy fresh
unfolding new_shard
fresh-IsRoomy = record {
  unlimited = refl;
  sampled = refl;
  room = record { slots_fit = omega arith; ttl_fit = omega arith };
}

pub fresh-IsSound : IsSound fresh
fresh-IsSound = new_shard-IsSound 5 10 7 false all_keys_lru

small_cost : entry_cost (length letter) (length letter) < 2 ^ 32
unfolding entry_cost
small_cost = omega arith

pub one-IsSound : IsSound one
unfolding new_shard
one-IsSound = set-IsSound fresh fresh-IsSound refl fresh-IsRoomy.room letter letter 0 1 small_cost

abbrev pub engine_with : Shard → Engine ℕ
engine_with s = record {
  shard = s;
  wal =
      open_new (λ l. [])
        (record { fsync = fsync_always; segment_size = 1000; group_commit_max = 4 }) 1 5;
  evict_q = [];
  evict_drops = 0;
  read_only = false;
  closed = false;
  mutations = 0;
}

abbrev pub saved_with : Shard → Saved ℕ
saved_with s = record { engine = engine_with s; files = []; last_snap_lsn = 0; snapshots = 0 }

-- A file system that does not fail.
abbrev pub disk : SnapIo ℕ
disk = record {
  create = none;
  created_ms = 8;
  commit = none;
  remove_segment = λ g. none;
  sync_dir = none;
  remove_file = λ f. none;
}
