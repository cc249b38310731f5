-- ===== src/Store/Sharded/Tests.antt =====
-- The sharded store on four shards.
use kvstore.Prelude.{ℕ, ◌^◌, ◌<◌, ◌≡◌, refl, false, none, [], ◌∷◌, arith, length}
use kvstore.Store.Entry.{entry_cost}
use kvstore.Store.Shard.{Key, all_keys_lru, new_shard}
use kvstore.Store.Reference
use kvstore.Store.Reference.{Data}
use kvstore.Store.Invariant.Write.{HasRoom}
use kvstore.Store.Hash.{hash64, tail_bytes, bytes, eights, avalanche, rotate_left}
use kvstore.Store.Sharded.{
  route, Store, Options, shard_for, with_budget, new_store, get, set, delete, exists, expire, ttl,
}
use kvstore.Store.Sharded.Local.{Holds}
use kvstore.Store.Sharded.Traffic.{Traffic, opens, gets, sets, Traffic-Holds}

abbrev four : Options
four = record {
  shards = 4;
  seed = 7;
  sample_k = 5;
  evict_batch = 10;
  exact_lru = false;
  policy = all_keys_lru;
  max_memory = 0;
  low_water = 0;
}

abbrev letter : Key
letter = 0x6B ∷ []

-- "k" holds "k" until the time 50.
abbrev held : Store
held = (set (new_store four) letter letter 50 1).0

abbrev reference : Data
reference = Reference.set (λ _. none) letter letter 50

room : HasRoom ((new_store four).shards (shard_for (new_store four) letter))
unfolding new_store with_budget new_shard
room = record { slots_fit = omega arith; ttl_fit = omega arith }

cheap : entry_cost (length letter) (length letter) < 2 ^ 32
unfolding entry_cost
cheap = omega arith

session : Traffic 10 (get held letter 10 3).0 (Reference.get reference letter 10).0
unfolding new_store with_budget new_shard
session =
    gets letter 3 (sets letter letter 50 1 refl refl room cheap (opens four 10 (omega arith) refl))

abbrev after : Store
after = (get held letter 10 3).0

abbrev expected : Data
expected = (Reference.get reference letter 10).0

Traffic-Holds_example :
    Holds 10 after expected
    × ((k : Key) (mono : ℕ) → (get after k 10 mono).1 ≡ (Reference.get expected k 10).1)
    × ((k : Key) (mono : ℕ) → (exists after k 10 mono).1 ≡ (Reference.exists expected k 10).1)
    × ((k : Key) (mono : ℕ) → (ttl after k 10 mono).1 ≡ (Reference.ttl expected k 10).1)
    × ((k : Key) → (delete after k 10).1 ≡ (Reference.delete expected k 10).1)
    × ((k : Key) (x : ℕ) → (expire after k x 10).1 ≡ (Reference.expire expected k x 10).1)
Traffic-Holds_example = Traffic-Holds 10 after expected session

letter_shard : shard_for (new_store four) letter ≡ 3
unfolding new_store route hash64 tail_bytes bytes eights avalanche rotate_left
letter_shard = refl
