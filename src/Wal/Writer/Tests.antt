-- ===== src/Wal/Writer/Tests.antt =====
-- The writer's theorems on a short run.
use kvstore.Prelude.{
  ℕ, ◌≡◌, ◌≢◌, refl, false, Option, none, some, List, [], ◌∷◌, ◌++◌, arith, leb, take, inr,
}
use mathlib.Core.List.{map}
use kvstore.Wal.Record.{Record, valid, append_record, payload, new_segment_header}
use kvstore.Wal.Scan.Segment.{log, visit}
use kvstore.Wal.Truncation.{SegmentInfo}
use kvstore.Wal.Replay.{replay}
use kvstore.Wal.Replay.Recovery.{fits}
use kvstore.Wal.Writer.{
  fsync_always, Io, Options, Writer, stamp, open_new, submit, run_once, flush_batch, create_segment,
  write_batch, make_durable, finish, fail_batch,
}
use kvstore.Wal.Writer.Written.{acknowledged}
use kvstore.Wal.Writer.Run.{IsRecord, Run, opens, submits, flushes, Keeps, Run-Keeps}
use kvstore.Wal.Writer.Torn.{Survives}
use kvstore.Wal.Writer.Crash.{power_lost}
use kvstore.Wal.Writer.Durable.{crashed, replay_durable}
use kvstore.Wal.Writer.Failure.{flush-after-failure}

abbrev no_path : ℕ → List ℕ
no_path lsn = []

abbrev options : Options
options = record { fsync = fsync_always; segment_size = 100000; group_commit_max = 16 }

abbrev quiet : Io ℕ
quiet = record {
  sync_old = none;
  close_old = none;
  create = none;
  write = none;
  sync = none;
  now_ms = 900;
}

abbrev set_k : Record
set_k = record {
  lsn = 0;
  created_at_ms = 0;
  rec_type = 1;
  flags = 0;
  key = 0x6B ∷ [];
  value = 0x76 ∷ [];
  expire_at_ms = 0;
}

set_k-IsRecord : IsRecord set_k
set_k-IsRecord = record {
  created_fits = omega arith;
  flags_fit = omega arith;
  expire_fits = omega arith;
}

abbrev opened : Writer ℕ
opened = open_new no_path options 1 800

abbrev one : Writer ℕ
one = (submit opened set_k 810).0

abbrev both : Writer ℕ
both = (submit one set_k 820).0

-- One record was flushed, and another waits.
abbrev waiting : Writer ℕ
waiting = run_once no_path both 1 quiet

abbrev accepted : List Record
accepted = stamp set_k 1 810 ∷ stamp set_k 2 820 ∷ []

waiting-Run : Run no_path 1 waiting accepted
unfolding open_new submit valid
waiting-Run = flushes 1 quiet (omega arith) (
    submits set_k 820 set_k-IsRecord (omega arith) (omega arith) refl (
      submits set_k 810 set_k-IsRecord (omega arith) (omega arith) refl
        (opens options 800 (omega arith) (omega arith))))

waiting_clean : waiting.fatal ≡ none
unfolding open_new submit valid run_once flush_batch create_segment write_batch make_durable finish
    append_record payload new_segment_header
waiting_clean = refl

Run-Keeps_example : Keeps 1 waiting accepted
Run-Keeps_example = Run-Keeps no_path 1 waiting accepted waiting-Run

abbrev collect : List ℕ → Record → List ℕ
collect lsns r = r.lsn ∷ lsns

abbrev no_removal : SegmentInfo → Option ℕ
no_removal s = none

-- 60 bytes of the second record were written when the power was lost, and 20 of them are left.
replay_durable_example : Survives collect 1 waiting accepted [] (
    replay
      (visit {E = ℕ} collect)
      fits
      no_removal
      0
      false
      (crashed no_path waiting 1 60 5 830 (power_lost 20))
      [])
unfolding open_new submit valid run_once flush_batch create_segment write_batch make_durable finish
    append_record payload new_segment_header
replay_durable_example =
    replay_durable no_path 1 collect no_removal false waiting accepted waiting-Run waiting_clean 1
      60 5 830 (power_lost 20) (omega arith) (inr refl) 0 (omega arith) []

abbrev broken : Io ℕ
broken = record quiet { write = some (5, 20) }

room :
    leb
      (flush_batch no_path opened (set_k ∷ []) broken).options.segment_size
      (flush_batch no_path opened (set_k ∷ []) broken).seg.size
    ≡ false
unfolding open_new flush_batch create_segment write_batch fail_batch finish append_record payload
    new_segment_header
room = refl

room_before : leb opened.options.segment_size opened.seg.size ≡ false
unfolding open_new create_segment append_record payload new_segment_header
room_before = refl

flush-after-failure_example :
    ((flush_batch no_path opened (set_k ∷ []) broken).fatal ≢ none)
    × ((flush_batch no_path
          (flush_batch no_path opened (set_k ∷ []) broken)
          (set_k ∷ [])
          quiet).finished
        ≡ (flush_batch no_path opened (set_k ∷ []) broken).finished
          ++ map acknowledged (set_k ∷ []))
    × ((flush_batch no_path
          (flush_batch no_path opened (set_k ∷ []) broken)
          (set_k ∷ [])
          quiet).seg.bytes
        ≡ opened.seg.bytes ++ (take 20 (log (set_k ∷ [])) ++ log (set_k ∷ [])))
flush-after-failure_example =
    flush-after-failure no_path opened set_k [] broken 5 20 room_before refl set_k [] quiet room
      refl refl
