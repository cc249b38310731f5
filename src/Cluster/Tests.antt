-- ===== src/Cluster/Tests.antt =====
-- The theorems on replication, on two small engines.
use mathlib.Core.List.{map}
use kvstore.Prelude.{
  ℕ, suc, ◌+◌, ◌^◌, ◌<◌, ◌≤◌, ◌≡◌, ◌≢◌, refl, true, false, none, some, List, [], ◌∷◌, ◌++◌, arith,
  length,
}
use kvstore.Store.Shard.{Key, new_shard}
use kvstore.Store.Operations
use kvstore.Store.Operations.{set_at, insert}
use kvstore.Store.Evict.{admit}
use kvstore.Store.Slots.{push}
use kvstore.Store.Entry.{is_expired}
use kvstore.Snapshot.{add_all}
use kvstore.Wal.Writer.{open_new, submit, plus}
use kvstore.Wal.Tests.{last_segment, last_segment-IsWhole, set_k, set_k-InRange, short}
use kvstore.Store.Range.{batch_size, range, range_from, fill, clone}
use kvstore.Store.Refinement.{shows, visible}
use kvstore.Wal.Record.{valid}
use kvstore.Engine.{Engine, deliver, apply_record, apply_replicated}
use kvstore.Engine
use kvstore.Engine.Snapshot
use kvstore.Engine.Snapshot.{SnapIo, reset_keyspace, snapshot, commit_file}
use kvstore.Engine.Sample.{fresh, one, one-IsSound, engine_with, saved_with, disk}
use kvstore.Cluster.Node.{Node, replica, new, promote, engine_of, connect, last_lsn}
use kvstore.Cluster.Stream.{StreamMsg, taken, read_msg, msg_heartbeat}
use kvstore.Cluster.Stream.RoundTrip.{
  Sent, heartbeat, full_end, a_record, meaning, written, read_msg-written,
}
use kvstore.Cluster.Replica.{
  Clock, handle, on_heartbeat, on_record, handle_all, follow, stale_epoch,
}
use kvstore.Cluster.Primary.{full_resync, catch_up, need_full}
use kvstore.Cluster.Primary.CatchUp.{file_of, newer, catch_up-newer}
use kvstore.Cluster.Fencing.{Steps, here, connects, receives, promotes, Steps-fences, Steps-refuses}
use kvstore.Cluster.Follow.{stream, closed_after, follow-stream}
use kvstore.Cluster.Resync.{Short, IsOpen, full_resync-mirrors}
use kvstore.Cluster.Position.{connect-length}

abbrev clock : Clock
clock = record { now_ms = 9; now_mono = 2; at = 7 }

-- Each reading of the clocks is a millisecond behind the one before.
abbrev clocks : ℕ → Clock
clocks i = record { now_ms = plus 9 i; now_mono = plus 2 i; at = plus 7 i }

-- A replica with an empty store.
abbrev follower : Node ℕ
follower = new replica (saved_with fresh)

read_msg-written_example :
    read_msg 0 (written (heartbeat 12 3) ++ (1 ∷ [])) ≡ taken (meaning (heartbeat 12 3)) 0 (1 ∷ [])
read_msg-written_example = read_msg-written 0 (1 ∷ []) (heartbeat 12 3) (omega arith, omega arith)

follower-IsOpen : IsOpen follower
unfolding new new_shard open_new
follower-IsOpen = record { unlimited = refl; sampled = refl; opened = refl; running = refl }

one-Short : (r : ℕ) → one.entries (one.key r) ≡ some r → Short (clone one r)
unfolding new_shard Operations.set set_at admit insert
one-Short r h = ground arith

reset_done : (reset_keyspace disk follower.saved 9).1 ≡ none
unfolding reset_keyspace snapshot new new_shard open_new range range_from add_all commit_file
    Operations.flush
reset_done = refl

one_few : length (range batch_size one 9) ≤ 2 ^ 31
unfolding range range_from fill new_shard Operations.set set_at admit insert push is_expired
one_few = omega arith

full_resync-mirrors_example :
    let r = handle_all disk follower clocks (map meaning (full_resync (engine_with one) 9)) in
    (r.1 ≡ none)
    × (r.0.in_full_sync ≡ false)
    × (r.0.applied_lsn ≡ (engine_with one).wal.durable_lsn)
    × ((t : ℕ)
        → 9 ≤ t
        → (k : Key) → visible t (shows (engine_of r.0).shard k) ≡ visible t (shows one k))
full_resync-mirrors_example =
    full_resync-mirrors (engine_with one) one-IsSound 9 disk follower clocks follower-IsOpen
      one-Short one_few reset_done

-- The replica after a heartbeat of epoch 3.
abbrev later : Node ℕ
later = (handle disk follower clock (meaning (heartbeat 12 3))).0

later_small : later.epoch + 1 < 2 ^ 64
unfolding handle on_heartbeat new
later_small = omega arith

promoted : Steps true later (promote later).0
promoted = promotes refl later_small here

Steps-fences_example :
    (later.epoch ≤ (promote later).0.epoch)
    × ((io : SnapIo ℕ) (c : Clock) (msg : StreamMsg)
        → msg.msg_type ≡ msg_heartbeat
        → msg.epoch < later.epoch
        → (handle io (promote later).0 c msg).1
          ≡ some (stale_epoch msg.epoch (promote later).0.epoch))
Steps-fences_example = Steps-fences promoted

-- A replica that was connected, and has read a heartbeat.
Steps-refuses_example :
    let n : Node ℕ = (handle disk (connect follower 7).0 clock (meaning (heartbeat 12 3))).0 in
    ((k : Key) (value : List ℕ) (ttl now mono : ℕ)
      → let r = Engine.set (engine_of n) k value ttl now mono in (r.0 ≡ engine_of n) × (r.1 ≢ none))
    × ((k : Key) (now : ℕ)
        → let r = Engine.delete (engine_of n) k now in (r.0 ≡ engine_of n) × (r.2 ≢ none))
    × ((k : Key) (ttl now : ℕ)
        → let r = Engine.expire (engine_of n) k ttl now in (r.0 ≡ engine_of n) × (r.2 ≢ none))
    × ((io : SnapIo ℕ) (now : ℕ)
        → Snapshot.flush io n.saved now ≡ (n.saved, some Snapshot.read_only))
unfolding new
Steps-refuses_example =
    Steps-refuses (receives disk clock (meaning (heartbeat 12 3)) (connects 7 here)) refl

abbrev two_messages : List Sent
two_messages = heartbeat 12 3 ∷ full_end 12 ∷ []

follow-stream_example :
    follow (suc (length (stream two_messages))) disk follower clocks 0 (stream two_messages)
    ≡ closed_after (handle_all disk follower clocks (map meaning two_messages))
follow-stream_example =
    follow-stream disk clocks follower 0 two_messages
      ((omega arith, omega arith), (omega arith, tt))

connected :
    (handle_all disk follower clocks (map (λ r. meaning (a_record r)) (set_k ∷ []))).1 ≡ none
unfolding handle_all handle on_record apply_replicated apply_record submit valid new new_shard
    open_new Operations.set set_at admit insert deliver
connected = refl

next_small : (engine_of follower).wal.next_lsn < 2 ^ 64
unfolding new open_new
next_small = omega arith

connect-length_example :
    (connect (handle_all disk follower clocks (map (λ r. meaning (a_record r)) (set_k ∷ []))).0 8).1
    ≡ plus (last_lsn (engine_of follower)) 1
connect-length_example = connect-length disk follower clocks (set_k ∷ []) 8 next_small connected

-- One segment, with a record that was cut at 20 bytes, and a replica that has seven records.
partial : need_full (file_of last_segment set_k 20 ∷ []) 7 ≡ false
unfolding need_full
partial = refl

catch_up-newer_example :
    catch_up (engine_with one) (file_of last_segment set_k 20 ∷ []) 7 9
    ≡ some (newer 7 (set_k ∷ []))
catch_up-newer_example =
    catch_up-newer 7 (engine_with one) 9 [] tt last_segment last_segment-IsWhole set_k set_k-InRange
      20 short partial
