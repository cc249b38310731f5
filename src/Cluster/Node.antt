-- ===== src/Cluster/Node.antt =====
-- internal/cluster/node.go and the state of internal/cluster/replica.go: a node, its promotion, and
-- the failure detector of internal/cluster/primary.go. The fields that only the statistics read and
-- the network are left out.
use kvstore.Prelude.{ℕ, ◌-◌, ◌*◌, ◌^◌, Bool, true, false, not, ltb, if◌then◌else◌}
use kvstore.Wal.Writer.{plus}
use kvstore.Engine.{Engine}
use kvstore.Engine.Snapshot.{Saved}

pub data PeerState : Type 0 where
  alive suspect dead : PeerState

pub data Role : Type 0 where
  primary replica : Role

-- `in_full_sync` is the variable of replicateOnce.
pub record Node {ℓ} (X : Type ℓ) : Type ℓ where
  pub saved : Saved X
  pub epoch : ℕ
  pub applied_lsn : ℕ
  pub primary_lsn : ℕ
  pub last_msg_at : ℕ
  pub connected : Bool
  pub peer : PeerState
  pub full_syncs : ℕ
  pub applied : ℕ
  pub in_full_sync : Bool

module _ {ℓ} {X : Type ℓ} where
  abbrev pub engine_of : Node X → Engine X
  engine_of n = n.saved.engine

  -- SetReadOnly
  abbrev pub set_read_only : Node X → Bool → Node X
  set_read_only n b =
      let s = n.saved in
      let e = s.engine in record n { saved = record s { engine = record e { read_only = b } } }

  -- New: a replica is read-only from the start.
  unfoldable pub new : Role → Saved X → Node X
  new role s =
      let n : Node X = record {
        saved = s;
        epoch = 1;
        applied_lsn = 0;
        primary_lsn = 0;
        last_msg_at = 0;
        connected = false;
        peer = alive;
        full_syncs = 0;
        applied = 0;
        in_full_sync = false;
      } in
      elim role [ primary ↦ n | replica ↦ set_read_only n true ]

  -- Promote; the answer is ErrAlreadyPrimary or not.
  unfoldable pub promote : Node X → Node X × Bool
  promote n =
      if not (engine_of n).read_only
      then (n, false)
      else (set_read_only (record n { epoch = plus n.epoch 1 }) false, true)

  -- Engine.LastLSN, which is the log's.
  unfoldable pub last_lsn : Engine X → ℕ
  last_lsn e = plus e.wal.next_lsn (2 ^ 64 - 1)

  -- The handshake of replicateOnce: the number that SYNC asks from, and the state behind it.
  unfoldable pub connect : Node X → ℕ → Node X × ℕ
  connect n at =
      let from = last_lsn (engine_of n) in
      (
        record n {
          applied_lsn = from;
          connected = true;
          last_msg_at = at;
          peer = alive;
          in_full_sync = false;
        },
        from,
      )

-- checkReplicaLiveness: how long the replica has been silent, against the timeout.
unfoldable pub check_liveness : ℕ → PeerState → ℕ → PeerState
check_liveness timeout state since =
    if ltb (timeout * 2) since then dead else if ltb timeout since then suspect else state
