-- ===== src/Engine/Snapshot/Tests.antt =====
-- A snapshot of a small engine.
use mathlib.Core.List.{map}
use kvstore.Prelude.{ℕ, ◌^◌, ◌<◌, ◌≤◌, ◌≡◌, refl, true, none, some, arith, length}
use kvstore.Store.Entry.{is_expired}
use kvstore.Store.Shard.{Shard, Key, new_shard}
use kvstore.Store.Invariant.Sound.{IsSound}
use kvstore.Store.Refinement.Growth.{IsFillable}
use kvstore.Store.Slots.{push}
use kvstore.Store.Evict.{admit}
use kvstore.Store.Operations
use kvstore.Store.Operations.{set_at, insert}
use kvstore.Store.Range.{clone, range, range_from, fill}
use kvstore.Store.Refinement.{shows, visible}
use kvstore.Wal.Scan.Segment.{visit}
use kvstore.Wal.Writer.{open_new}
use kvstore.Snapshot.Load.{Header, loaded, load_newest_valid}
use kvstore.Snapshot.Load.Body.{InRange}
use kvstore.Engine.Snapshot.{entry_of, snapshot}
use kvstore.Engine.Snapshot.Restored.{load_step, lsn_of, listed, snapshot-restored}
use kvstore.Engine.Sample.{fresh, fresh-IsSound, one, one-IsSound, saved_with, disk}

one-InRange : (r : ℕ) → one.entries (one.key r) ≡ some r → InRange (entry_of (clone one r))
unfolding new_shard Operations.set set_at admit insert
one-InRange r h = record {
  key_fits = ground arith;
  value_fits = ground arith;
  expire_fits = ground arith;
}

one-listed : length (listed (saved_with one) 9) ≤ 2 ^ 31
unfolding range range_from fill new_shard Operations.set set_at admit insert push is_expired
one-listed = omega arith

first_number : lsn_of (saved_with one) < 2 ^ 64
unfolding open_new
first_number = omega arith

fresh-IsFillable : IsFillable (2 ^ 31) fresh
unfolding new_shard
fresh-IsFillable = record {
  sound = fresh-IsSound;
  unlimited = refl;
  sampled = refl;
  slots_room = omega arith;
  ttl_room = omega arith;
}

snapshot-restored_example :
    ((snapshot disk (saved_with one) 9).1 ≡ none)
    × ((h : Header) × (t : Shard) × (load_newest_valid
            (visit {E = ℕ} (load_step 3))
            (map (λ f. f.bytes) (snapshot disk (saved_with one) 9).0.files)
            (fresh, true)
          ≡ loaded h (t, true))
        × (h.last_included_lsn ≡ lsn_of (saved_with one))
        × IsSound t
        × ((k : Key) → visible 9 (shows t k) ≡ visible 9 (shows one k)))
unfolding new_shard
snapshot-restored_example =
    snapshot-restored disk (saved_with one) 9 one-IsSound one-InRange one-listed (omega arith)
      first_number tt refl refl fresh 3 fresh-IsFillable (λ k. refl)
