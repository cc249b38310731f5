-- ===== src/Store/Range/Tests.antt =====
-- The theorems on listing a shard, on a shard with one key.
use mathlib.Core.List.{Memᴰ}
use kvstore.Prelude.{◌≤◌, ◌<◌, ◌≡◌, refl, false, some, ◌==◌, if◌then◌else◌, [], ◌∷◌, arith, length}
use kvstore.Store.Shard.{Shard, Key, all_keys_lru, new_shard}
use kvstore.Store.Entry.{is_expired}
use kvstore.Store.Refinement.{shows, visible}
use kvstore.Store.Range.{range, keys, range_from, fill}
use kvstore.Store.Range.Restored.{range-restore}
use kvstore.Store.Range.Restore.{restore, nothing}
use kvstore.Store.Range.Keys.{Listable, keys_lem}
use kvstore.Engine.Sample.{letter, one, one-IsSound}

range-restore_example :
    visible 9 (restore nothing (range 2 one 9) letter) ≡ visible 9 (shows one letter)
range-restore_example = range-restore one one-IsSound 9 2 (omega arith) letter

keys_lem_example :
    ((k : Key) → Memᴰ k (keys one letter 3 9) → Listable one 9 letter k)
    × (length (keys one letter 3 9) ≤ 3)
    × (length (keys one letter 3 9) < 3
        → (k : Key) → Listable one 9 letter k
        → Memᴰ k (keys one letter 3 9))
keys_lem_example = keys_lem one one-IsSound letter 3 9

-- Three entries of which the first has expired, in batches of two: the inner loop goes past the
-- batch to find two that have not, the offset does not, and the last entry is listed twice.
abbrev three : Shard
three = record (new_shard 5 10 7 false all_keys_lru) {
  expire_at = λ r. if r == 0 then 5 else 0;
  slots = record { items = 0 ∷ 1 ∷ 2 ∷ []; index = λ r. some r };
}

listed_twice : length (range 2 three 9) ≡ 3
unfolding range range_from fill is_expired new_shard
listed_twice = refl
