-- ===== src/Store/Tests.antt =====
-- The store's theorems on a small shard.
use kvstore.Prelude.{ℕ, ◌^◌, ◌<◌, ◌≤◌, ◌≡◌, refl, false, none, some, [], ◌∷◌, arith, length}
use kvstore.Store.Entry.{entry_cost, is_expired}
use kvstore.Store.Shard.{Shard, Key, all_keys_lru, new_shard}
use kvstore.Store.Memory.{set_limit, evict_to_limit}
use kvstore.Store.Operations.{set, set_at, insert, delete, sweep}
use kvstore.Store.Evict.{admit}
use kvstore.Store.Keyspace.{lookup}
use kvstore.Store.Reference
use kvstore.Store.Reference.{Data}
use kvstore.Store.Invariant.Sound.{IsSound}
use kvstore.Store.Invariant.Write.{HasRoom}
use kvstore.Store.Invariant.Operations.{new_shard-IsSound}
use kvstore.Store.Invariant.Admission.{set_within_budget}
use kvstore.Store.Invariant.Reach.{
  Reach, here, next, sets, deletes, sweeps, limits, drains, Reach-IsSound,
}
use kvstore.Store.Refinement.{Agrees}
use kvstore.Store.Purge.{purge_expired}
use kvstore.Store.Refinement.Purge.{Purges, purge_expired_lem}
use kvstore.Store.Wheel.{
  Wheel, new_wheel, add, advance, turns, turn, cascade, add_locked, add_level, put, tick_for,
  sweep_overflow,
}
use kvstore.Store.Refinement.Session.{Session, Session-Agrees}

abbrev empty : Shard
empty = new_shard 5 10 7 false all_keys_lru

abbrev nothing : Data
nothing = λ _. none

abbrev letter : Key
letter = 0x6B ∷ []

empty-HasRoom : HasRoom empty
unfolding new_shard
empty-HasRoom = record { slots_fit = omega arith; ttl_fit = omega arith }

small_cost : entry_cost (length letter) (length letter) < 2 ^ 32
unfolding entry_cost
small_cost = omega arith

-- "k" holds "k" until the time 50.
abbrev one : Shard
one = (set empty letter letter 50 1).0

one_session : Session 10 one (Reference.set nothing letter letter 50)
unfolding new_shard
one_session =
    Session.sets letter letter 50 1 refl refl empty-HasRoom small_cost
      (Session.new 5 10 7 all_keys_lru 10)

abbrev later_session :
    Session 60
      (lookup one letter 60 3).0
      (Reference.get (Reference.set nothing letter letter 50) letter 60).0
later_session = Session.gets letter 3 (Session.waits 60 (omega arith) one_session)

Session-Agrees_example :
    IsSound (lookup one letter 60 3).0
    × Agrees 60
        (lookup one letter 60 3).0
        (Reference.get (Reference.set nothing letter letter 50) letter 60).0
Session-Agrees_example =
    Session-Agrees 60 (lookup one letter 60 3).0
      (Reference.get (Reference.set nothing letter letter 50) letter 60).0 later_session

one_reached : Reach empty one
unfolding new_shard
one_reached = next here (sets letter letter 50 1 refl empty-HasRoom small_cost)

-- A limit of 100 bytes is set, and the entry is evicted.
abbrev drained : Shard × ℕ
drained = evict_to_limit (set_limit one 100 90 1)

abbrev drained_count : ℕ
drained_count = drained.1

Reach-IsSound_example : IsSound (delete (sweep drained.0 40 3).0 letter).0
unfolding new_shard set_limit set set_at admit insert
Reach-IsSound_example =
    Reach-IsSound 5 10 7 false all_keys_lru (delete (sweep drained.0 40 3).0 letter).0 (
      next (next (next (next one_reached (limits 100 90 1)) (drains refl)) (sweeps 40 3))
        (deletes letter))

one-IsSound : IsSound one
one-IsSound = Reach-IsSound 5 10 7 false all_keys_lru one one_reached

one-Agrees : Agrees 10 one (Reference.set nothing letter letter 50)
one-Agrees = (Session-Agrees 10 one (Reference.set nothing letter letter 50) one_session).1

-- A limit that the entry of 162 bytes exceeds.
abbrev tight : Shard
tight = record empty { budget = 100; low_water = 90 }

tight-IsSound : IsSound tight
unfolding new_shard
tight-IsSound =
    let v = new_shard-IsSound 5 10 7 false all_keys_lru in
    record {
      slice = v.slice;
      held = v.held;
      keyed = v.keyed;
      mapped = v.mapped;
      ttl_slice = v.ttl_slice;
      ttl_held = v.ttl_held;
      ttl_mapped = v.ttl_mapped;
      ttl_idle = v.ttl_idle;
      sized = v.sized;
      accounted = v.accounted;
    }

tight-HasRoom : HasRoom tight
unfolding new_shard
tight-HasRoom = record { slots_fit = omega arith; ttl_fit = omega arith }

set_within_budget_example : (set tight letter letter 50 1).0.mem_bytes ≤ tight.budget
unfolding new_shard
set_within_budget_example =
    set_within_budget tight tight-IsSound refl tight-HasRoom letter letter 50 1 small_cost
      (omega arith) (omega arith)

abbrev reference : Data
reference = Reference.set nothing letter letter 50

-- At 60 the one entry has expired.
purge_expired_lem_example :
    (s : Shard) × (n : ℕ) × (purge_expired 60 one ≡ some (s, n))
    × Purges 60 one s n
    × ((k : Key) (q : ℕ) → s.entries k ≡ some q → is_expired (s.expire_at q) 60 ≡ false)
purge_expired_lem_example = purge_expired_lem 60 one one-IsSound

-- A wheel of 1 ms with one timer at 300, which the first cascade moves down.
abbrev wheel : Wheel
wheel = add (new_wheel 1 0) letter 300

wheel_waits : (advance wheel 299).1 ≡ []
unfolding add new_wheel advance turns turn cascade add_locked add_level put tick_for sweep_overflow
wheel_waits = refl

wheel_fires : (advance wheel 300).1 ≡ record { key = letter; expire_at = 300 } ∷ []
unfolding add new_wheel advance turns turn cascade add_locked add_level put tick_for sweep_overflow
wheel_fires = refl
