-- ===== src/Cluster/Fencing.antt =====
-- What a node keeps over any sequence of connections, messages and promotions: its epoch does not
-- go back, and a replica stays read-only.
use mathlib.Core.List.{foldl}
use kvstore.Prelude.{
  ℕ, ◌+◌, ◌^◌, ◌≤◌, ◌<◌, ◌≡◌, ◌≢◌, refl, ap, ◌∙◌, Bool, true, false, Option, none, some, List, [],
  ◌∷◌, arith, if◌then◌else◌, Option-cases, inl, inr,
}
use kvstore.Store.Shard.{Shard, Key, Reason}
use kvstore.Wal.Record.{Record}
use kvstore.Engine
use kvstore.Engine.{
  Engine, err_closed, err_read_only, set, delete, expire, on_store_evict, deliver, apply_record,
  apply_replicated,
}
use kvstore.Engine.Snapshot.Kept.{reset_kept}
use kvstore.Engine.Snapshot.{Saved, SnapIo, reset_keyspace, flush, read_only}
use kvstore.Cluster.Node.{Node, alive, engine_of, promote, connect}
use kvstore.Cluster.Stream.{StreamMsg, msg_heartbeat}
use kvstore.Cluster.Replica.{
  Clock, stale_epoch, on_full_begin, on_full_end, on_record, on_heartbeat, handle,
}

module _ {ℓ} {X : Type ℓ} where
  abbrev flag : Engine X → Bool
  flag e = e.read_only

  all_flag : (es : List (Key × Reason)) (e : Engine X) → flag (foldl on_store_evict e es) ≡ flag e
  unfolding on_store_evict
  all_flag [] e = refl
  all_flag (x ∷ es) e = all_flag es (on_store_evict e x) ∙ ground arith

  flag-deliver : (e : Engine X) (s : Shard) → flag (deliver e s) ≡ flag e
  unfolding deliver
  flag-deliver e s = all_flag s.removed (record e { shard = record s { removed = [] } })

  apply_flag :
      (e : Engine X) (r : Record) (now mono : ℕ) → flag (apply_replicated e r now mono).0 ≡ flag e
  unfolding apply_replicated
  apply_flag e r now mono =
      ground (arith, flag-deliver e (apply_record {X = X} e.shard r now mono).0)

  reset_flag :
      (io : SnapIo X) (s : Saved X) (now : ℕ)
      → flag (reset_keyspace io s now).0.engine ≡ flag s.engine
  reset_flag io s now = reset_kept flag (λ e o. refl) io s now

  -- What one message does to the flag and to the epoch.
  record_kept :
      (n : Node X) (r : Record) (now mono : ℕ)
      → (flag (engine_of (on_record n r now mono).0) ≡ flag (engine_of n))
        × ((on_record n r now mono).0.epoch ≡ n.epoch)
  unfolding on_record
  record_kept n r now mono =
      let kept = apply_flag (engine_of n) r now mono in
      elim (Option-cases (apply_replicated (engine_of n) r now mono).1) [
        | inl e ↦ ground (arith, e, kept)
        | inr (x, e) ↦ ground (arith, e, kept)
      ]

  begin_kept :
      (io : SnapIo X) (n : Node X) (now : ℕ)
      → (flag (engine_of (on_full_begin io n now).0) ≡ flag (engine_of n))
        × ((on_full_begin io n now).0.epoch ≡ n.epoch)
  unfolding on_full_begin
  begin_kept io n now =
      let kept = reset_flag io n.saved now in
      elim (Option-cases (reset_keyspace io n.saved now).1) [
        | inl e ↦ ground (arith, e, kept)
        | inr (x, e) ↦ ground (arith, e, kept)
      ]

  handle_kept :
      (io : SnapIo X) (n : Node X) (c : Clock) (m : StreamMsg)
      → (flag (engine_of (handle io n c m).0) ≡ flag (engine_of n))
        × (n.epoch ≤ (handle io n c m).0.epoch)
  unfolding handle on_full_end on_heartbeat
  handle_kept io n c m =
      let n1 : Node X = record n { last_msg_at = c.at; peer = alive } in
      let (a, b) = record_kept n1 m.rec c.now_ms c.now_mono in
      let (f, g) = begin_kept io n1 c.now_ms in ground (arith, a, b, f, g)

-- The second guard of a command, when the first has not refused it.
guarded {κ μ} :
    {A : Type κ} (P : A → Type μ) (b c : Bool) (x y z : A)
    → P x
    → P y
    → c ≡ true
    → P (if b then x else if c then y else z)
guarded P true c x y z p q h = p
guarded P false true x y z p q h = q
guarded P false false x y z p q h = cc

-- Any sequence of connections, messages of the stream and, if `promotable`, promotions. The epoch
-- of a promotion is below 2^64.
pub data Steps {ℓ} {X : Type ℓ} (promotable : Bool) (m : Node X) : Node X → Type ℓ where
  here : Steps promotable m m
  connects : {n : Node X} (at : ℕ) → Steps promotable m n → Steps promotable m (connect n at).0
  receives :
      {n : Node X} (io : SnapIo X) (c : Clock) (msg : StreamMsg)
      → Steps promotable m n
      → Steps promotable m (handle io n c msg).0
  promotes :
      {n : Node X}
      → promotable ≡ true
      → n.epoch + 1 < 2 ^ 64
      → Steps promotable m n
      → Steps promotable m (promote n).0

module _ {ℓ} {X : Type ℓ} where
  promote_kept : (n : Node X) → n.epoch + 1 < 2 ^ 64 → n.epoch ≤ (promote n).0.epoch
  unfolding promote
  promote_kept n h = ground arith

  epoch_kept : {b : Bool} {m n : Node X} → Steps b m n → m.epoch ≤ n.epoch
  unfolding connect
  epoch_kept here = omega arith
  epoch_kept (connects at st) = epoch_kept st
  epoch_kept (receives io c msg st) = omega (arith, epoch_kept st, (handle_kept io _ c msg).1)
  epoch_kept (promotes {n = n} p h st) = omega (arith, epoch_kept st, promote_kept n h)

  flag_kept : {m n : Node X} → Steps false m n → flag (engine_of n) ≡ flag (engine_of m)
  unfolding connect
  flag_kept here = refl
  flag_kept (connects at st) = flag_kept st
  flag_kept (receives io c msg st) = (handle_kept io _ c msg).0 ∙ flag_kept st
  flag_kept (promotes p h st) = cc

  heartbeat_refused :
      (io : SnapIo X) (n : Node X) (c : Clock) (msg : StreamMsg)
      → msg.msg_type ≡ msg_heartbeat
      → msg.epoch < n.epoch
      → (handle io n c msg).1 ≡ some (stale_epoch msg.epoch n.epoch)
  unfolding handle on_heartbeat
  heartbeat_refused io n c msg e h = ground arith

  -- Over any sequence of connections, messages and promotions, in which no promotion takes the
  -- epoch past 2^64 - 1, a node's epoch does not go back. A heartbeat with an epoch below one that
  -- the node ever had ends its connection, with both epochs in the error.
  pub Steps-fences :
      {b : Bool} {m n : Node X}
      → Steps b m n
      → (m.epoch ≤ n.epoch)
        × ((io : SnapIo X) (c : Clock) (msg : StreamMsg)
            → msg.msg_type ≡ msg_heartbeat
            → msg.epoch < m.epoch
            → (handle io n c msg).1 ≡ some (stale_epoch msg.epoch n.epoch))
  Steps-fences st =
      let le = epoch_kept st in (le, λ io c msg e h. heartbeat_refused io _ c msg e (omega arith))

  -- A replica that is not promoted, through any connections and messages, in a full resync too,
  -- stays read-only: each client's Set, Delete, Expire and Flush is refused and changes nothing.
  pub Steps-refuses :
      {m n : Node X}
      → Steps false m n
      → (engine_of m).read_only ≡ true
      → ((k : Key) (value : List ℕ) (ttl now mono : ℕ)
          → let r = set (engine_of n) k value ttl now mono in (r.0 ≡ engine_of n) × (r.1 ≢ none))
        × ((k : Key) (now : ℕ)
            → let r = delete (engine_of n) k now in (r.0 ≡ engine_of n) × (r.2 ≢ none))
        × ((k : Key) (ttl now : ℕ)
            → let r = expire (engine_of n) k ttl now in (r.0 ≡ engine_of n) × (r.2 ≢ none))
        × ((io : SnapIo X) (now : ℕ) → flush io n.saved now ≡ (n.saved, some read_only))
  unfolding set delete expire flush
  Steps-refuses {n = n} st h =
      let e = engine_of n in
      let shut = flag_kept st ∙ h in
      (
        λ k value ttl now mono.
            guarded (λ (r : Engine X × Option (Engine.Error X)). (r.0 ≡ e) × (r.1 ≢ none)) e.closed
              e.read_only (e, some err_closed) (e, some err_read_only) _ (refl, λ c. cc)
              (refl, λ c. cc) shut,
        λ k now.
            guarded (λ (r : Engine X × Bool × Option (Engine.Error X)). (r.0 ≡ e) × (r.2 ≢ none))
              e.closed e.read_only (e, false, some err_closed) (e, false, some err_read_only) _
              (refl, λ c. cc) (refl, λ c. cc) shut,
        λ k ttl now.
            guarded (λ (r : Engine X × Bool × Option (Engine.Error X)). (r.0 ≡ e) × (r.2 ≢ none))
              e.closed e.read_only (e, false, some err_closed) (e, false, some err_read_only) _
              (refl, λ c. cc) (refl, λ c. cc) shut,
        λ io now.
            ap (λ b. if b then (n.saved, some read_only) else reset_keyspace io n.saved now) shut,
      )
