-- ===== src/Cluster/Replica.antt =====
-- internal/cluster/replica.go: what a replica does with each message of the stream.
use kvstore.Prelude.{
  ℕ, suc, zero, true, false, not, ◌&&◌, Option, none, some, List, [], ◌∷◌, ltb, ◌==◌, if◌then◌else◌,
}
use kvstore.Wal.Record.{Record}
use kvstore.Wal.Writer.{plus}
use kvstore.Engine
use kvstore.Engine.{Engine, apply_replicated}
use kvstore.Engine.Snapshot.{SnapIo, SnapError, reset_keyspace}
use kvstore.Cluster.Node.{Node, alive, engine_of}
use kvstore.Cluster.Stream.{
  StreamMsg, StreamError, msg_record, msg_heartbeat, msg_full_begin, msg_full_end, msg_reject,
  read_msg,
}

pub data LinkError {ℓ} (X : Type ℓ) : Type ℓ where
  read_failed : StreamError → LinkError X
  reset_failed : SnapError X → LinkError X
  apply_failed : Engine.Error X → LinkError X
  stale_epoch : ℕ → ℕ → LinkError X
  rejected : List ℕ → LinkError X
  unexpected : ℕ → LinkError X

-- The time of a message on the three clocks: wall, monotonic, and the one of `lastMsgAt`.
pub record Clock : Type 0 where
  pub now_ms : ℕ
  pub now_mono : ℕ
  pub at : ℕ

abbrev pub Handled {ℓ} : Type ℓ → Type ℓ
Handled X = Node X × Option (LinkError X)

-- The readings of the clocks behind the first one.
abbrev pub next_readings : (ℕ → Clock) → ℕ → Clock
next_readings c i = c (suc i)

module _ {ℓ} {X : Type ℓ} where
  -- msgFullBegin
  unfoldable pub on_full_begin : SnapIo X → Node X → ℕ → Handled X
  on_full_begin io n now_ms =
      let (s, failed) = reset_keyspace io n.saved now_ms in
      elim failed [
        | some x ↦ (record n { saved = s }, some (reset_failed x))
        | none ↦
            (record n { saved = s; in_full_sync = true; full_syncs = plus n.full_syncs 1 }, none)
      ]

  -- msgFullEnd
  unfoldable pub on_full_end : Node X → ℕ → Node X
  on_full_end n lsn = record n { in_full_sync = false; applied_lsn = lsn; primary_lsn = lsn }

  -- msgRecord, with applyFromPrimary.
  unfoldable pub on_record : Node X → Record → ℕ → ℕ → Handled X
  on_record n r now_ms now_mono =
      let (e, failed) = apply_replicated (engine_of n) r now_ms now_mono in
      let s = n.saved in
      let n1 : Node X = record n { saved = record s { engine = e } } in
      elim failed [
        | some x ↦ (n1, some (apply_failed x))
        | none ↦
            let n2 : Node X = record n1 { applied = plus n1.applied 1 } in
            (
              if not n2.in_full_sync && ltb n2.applied_lsn r.lsn
                  then record n2 { applied_lsn = r.lsn }
                  else n2,
              none,
            )
      ]

  -- msgHeartbeat: the primary's number is stored before its epoch is compared.
  unfoldable pub on_heartbeat : Node X → ℕ → ℕ → Handled X
  on_heartbeat n lsn epoch =
      let n1 : Node X = record n { primary_lsn = lsn } in
      if ltb epoch n1.epoch
      then (n1, some (stale_epoch epoch n1.epoch))
      else if ltb n1.epoch epoch
      then (record n1 { epoch = epoch }, none)
      else (n1, none)

  -- The body of replicateOnce's loop after a message was read.
  unfoldable pub handle : SnapIo X → Node X → Clock → StreamMsg → Handled X
  handle io n c m =
      let n1 : Node X = record n { last_msg_at = c.at; peer = alive } in
      if m.msg_type == msg_full_begin
      then on_full_begin io n1 c.now_ms
      else if m.msg_type == msg_full_end
      then (on_full_end n1 m.lsn, none)
      else if m.msg_type == msg_record
      then on_record n1 m.rec c.now_ms c.now_mono
      else if m.msg_type == msg_heartbeat
      then on_heartbeat n1 m.lsn m.epoch
      else if m.msg_type == msg_reject
      then (n1, some (rejected m.reason))
      else (n1, some (unexpected m.msg_type))

  -- The loop over messages, until one has an error. Each message has its own reading of the clocks.
  unfoldable pub handle_all : SnapIo X → Node X → (ℕ → Clock) → List StreamMsg → Handled X
  handle_all io n c [] = (n, none)
  handle_all io n c (m ∷ ms) =
      let (n1, failed) = handle io n (c 0) m in
      elim failed [ some x ↦ (n1, some x) | none ↦ handle_all io n1 (next_readings c) ms ]

  -- The loop over the connection's bytes, to the first error, which is there when they end. Every
  -- message has a byte, so a turn for each byte and one more are enough; `none` is no Go value, the
  -- loop ran out of fuel.
  unfoldable pub follow :
      ℕ → SnapIo X → Node X → (ℕ → Clock) → ℕ → List ℕ → Node X × Option (LinkError X)
  follow zero io n c room src = (n, none)
  follow (suc fuel) io n c room src =
      let r = read_msg room src in
      elim r.error [
        | some x ↦ (n, some (read_failed x))
        | none ↦
            let (n1, failed) = handle io n (c 0) r.msg in
            elim failed [
              | some x ↦ (n1, some x)
              | none ↦ follow fuel io n1 (next_readings c) r.cap r.stream
            ]
      ]
