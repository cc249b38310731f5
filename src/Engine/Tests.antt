-- ===== src/Engine/Tests.antt =====
-- The engine's theorems on a small engine.
use kvstore.Prelude.{
  ℕ, ◌^◌, ◌<◌, ◌≤◌, ◌≡◌, refl, true, false, Option, none, some, List, [], ◌∷◌, ◌++◌, arith, length,
}
use kvstore.Store.Entry.{entry_cost, is_expired}
use kvstore.Store.Shard.{Shard, Key, all_keys_lru, new_shard}
use kvstore.Store.Operations
use kvstore.Store.Keyspace.{set_expiry}
use kvstore.Store.Evict.{admit}
use kvstore.Store.Invariant.Sound.{IsSound}
use kvstore.Store.Invariant.Operations.{new_shard-IsSound}
use kvstore.Store.Refinement.{shows, visible}
use kvstore.Wal.Record.{Record, valid}
use kvstore.Wal.Truncation.{SegmentInfo}
use kvstore.Wal.Writer.{Options, Io, fsync_always, stamp, submit, open_new, run_once}
use kvstore.Wal.Writer.Run.{Run}
use kvstore.Engine.{
  Engine, deadline, set_record, delete_record, expire_record, set, mutate, deliver, log_evict,
}
use kvstore.Engine.Steps.{IsRoomy, replayed, Mirrors}
use kvstore.Engine.Mirror.{Life, starts, waits, sets, Life-Mirrors}
use kvstore.Engine.Losses.{replayed_extension_lost, log_evict_overtakes}

abbrev fresh : Shard
fresh = new_shard 5 10 7 false all_keys_lru

abbrev letter : Key
letter = 0x6B ∷ []

abbrev options : Options
options = record { fsync = fsync_always; segment_size = 1000; group_commit_max = 4 }

abbrev engine : Engine ℕ
engine = record {
  shard = fresh;
  wal =
      open_new (λ l. [])
        (record { fsync = fsync_always; segment_size = 1000; group_commit_max = 4 }) 1 5;
  evict_q = [];
  evict_drops = 0;
  read_only = false;
  closed = false;
  mutations = 0;
}

fresh-IsRoomy : IsRoomy fresh
unfolding new_shard
fresh-IsRoomy = record {
  unlimited = refl;
  sampled = refl;
  room = record { slots_fit = omega arith; ttl_fit = omega arith };
}

fresh-IsSound : IsSound fresh
fresh-IsSound = new_shard-IsSound 5 10 7 false all_keys_lru

small_cost : entry_cost (length letter) (length letter) < 2 ^ 32
unfolding entry_cost
small_cost = omega arith

set_accepted : (set engine letter letter 50 10 1).1 ≡ none
unfolding set mutate deliver submit open_new new_shard valid set_record Operations.set
    Operations.set_at admit Operations.insert
set_accepted = refl

abbrev records : List Record
records = stamp (set_record letter letter (deadline 50 10)) engine.wal.next_lsn 10 ∷ []

life : Life 20 3 fresh 20 (set engine letter letter 50 10 1).0 records
life = waits 20 (omega arith) (omega arith) (
    sets letter letter 50 1 fresh-IsRoomy fresh-IsRoomy small_cost set_accepted
      (starts engine 5 10 7 10 all_keys_lru refl (omega arith)))

nothing_shown : (j : Key) → shows fresh j ≡ none
unfolding new_shard
nothing_shown j = refl

Life-Mirrors_example :
    (20 ≤ 20) × Mirrors 20 (set engine letter letter 50 10 1).0.shard (replayed 20 3 fresh records)
Life-Mirrors_example =
    Life-Mirrors 20 3 fresh fresh-IsSound nothing_shown 20 (set engine letter letter 50 10 1).0
      records life

alive : is_expired 50 10 ≡ false
unfolding is_expired
alive = refl

over : is_expired 50 60 ≡ true
unfolding is_expired
over = refl

-- Set until 50, made permanent at 10, and replayed at 60.
replayed_extension_lost_example :
    (visible 10
        (shows (set_expiry (Operations.set fresh letter letter 50 1).0 letter 0 10).0 letter)
      ≡ visible 10 (some (record { value = letter; expire_at = 0 })))
    × (visible 60 (
          shows
            (replayed 60 2 fresh
              (stamp (set_record letter letter 50) 1 10 ∷ stamp (expire_record letter 0) 2 10 ∷ []))
            letter)
        ≡ none)
replayed_extension_lost_example =
    replayed_extension_lost letter letter 50 0 small_cost 10 1 fresh fresh-IsSound fresh-IsRoomy
      alive 60 2 fresh fresh-IsSound fresh-IsRoomy over 1 10 2 10

-- The removal of "k" waits to be logged.
abbrev waiting : Engine ℕ
waiting = record engine { evict_q = letter ∷ [] }

waiting_accepted : (set waiting letter letter 50 10 1).1 ≡ none
unfolding set mutate deliver submit open_new new_shard valid set_record Operations.set
    Operations.set_at admit Operations.insert
waiting_accepted = refl

still_waiting : (set waiting letter letter 50 10 1).0.evict_q ≡ letter ∷ []
unfolding set mutate deliver submit open_new new_shard valid set_record Operations.set
    Operations.set_at admit Operations.insert
still_waiting = refl

removal_accepted :
    (submit (set waiting letter letter 50 10 1).0.wal (delete_record letter) 11).1 ≡ none
unfolding set mutate deliver submit open_new new_shard valid set_record delete_record Operations.set
    Operations.set_at admit Operations.insert
removal_accepted = refl

log_evict_overtakes_example :
    ((log_evict (set waiting letter letter 50 10 1).0 11).wal.queue
      ≡ (set waiting letter letter 50 10 1).0.wal.queue
        ++ (stamp (delete_record letter) (set waiting letter letter 50 10 1).0.wal.next_lsn 11
            ∷ []))
    × (visible 10 (shows (log_evict (set waiting letter letter 50 10 1).0 11).shard letter)
        ≡ visible 10 (some (record { value = letter; expire_at = deadline 50 10 })))
    × (visible 20 (
          shows
            (replayed 20 2 fresh (
              stamp (set_record letter letter (deadline 50 10)) 1 10
              ∷ stamp (delete_record letter) 2 11
              ∷ []))
            letter)
        ≡ none)
log_evict_overtakes_example =
    log_evict_overtakes waiting letter [] letter 50 10 1 11 fresh-IsSound fresh-IsRoomy small_cost
      waiting_accepted still_waiting removal_accepted 20 2 fresh fresh-IsSound fresh-IsRoomy 1 10 2
      11

abbrev quiet : Io ℕ
quiet = record {
  sync_old = none;
  close_old = none;
  create = none;
  write = none;
  sync = none;
  now_ms = 12;
}

-- The record of the Set is flushed.
abbrev flushed : Engine ℕ
flushed = record (set engine letter letter 50 10 1).0 {
  wal = run_once (λ l. []) (set engine letter letter 50 10 1).0.wal 1 quiet;
}

abbrev no_removal : SegmentInfo → Option ℕ
no_removal s = none
