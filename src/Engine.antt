-- ===== src/Engine.antt =====
-- internal/engine: the write path of commands.go and applyRecord of engine.go, over one shard and
-- the log's writer. The wait for a commit is the writer's part; the gate that bounds the writes in
-- flight and the feeds of replicas are not kept.
pub mod Effects
pub mod Steps
pub mod Mirror
pub mod Restart
pub mod Losses
pub mod Snapshot
pub mod Replicated
pub mod Reads
pub mod Sample
pub mod Tests
use mathlib.Core.List.{foldl}
use kvstore.Prelude.{
  ℕ, ◌+◌, ◌%◌, ◌^◌, Bool, true, false, ◌||◌, Option, none, some, List, [], ◌∷◌, ◌++◌, ltb, ◌==◌,
  if◌then◌else◌, length,
}
use kvstore.Store.Shard.{Shard, Key, Reason}
use kvstore.Store.Operations
use kvstore.Store.Keyspace.{remove, set_expiry}
use kvstore.Wal.Record.{Record, rec_set, rec_delete, rec_expire, rec_segment_hdr}
use kvstore.Wal.Writer.{Writer, SubmitError, submit, plus}

abbrev pub evict_queue_size : ℕ
evict_queue_size = 8192

-- `evict_q` holds the keys whose removal is still to be logged. The shard's list of calls of
-- `onEvict` is taken away after each operation.
pub record Engine {ℓ} (X : Type ℓ) : Type ℓ where
  pub shard : Shard
  pub wal : Writer X
  pub evict_q : List Key
  pub evict_drops : ℕ
  pub read_only : Bool
  pub closed : Bool
  pub mutations : ℕ

pub data Error {ℓ} (X : Type ℓ) : Type ℓ where
  err_closed err_read_only err_oom bad_type : Error X
  wal_error : SubmitError X → Error X

-- An absolute deadline for a relative lifetime, which is cut to 2^50 ms.
unfoldable pub deadline : ℕ → ℕ → ℕ
deadline ttl_millis now_ms =
    if ttl_millis == 0
    then 0
    else (now_ms + (if ltb (2 ^ 50) ttl_millis then 2 ^ 50 else ttl_millis)) % 2 ^ 64

-- The records of the write path, before the log gives them a number and a time.
unfoldable pub set_record : Key → List ℕ → ℕ → Record
set_record k value expire_at = record {
  lsn = 0;
  created_at_ms = 0;
  rec_type = rec_set;
  flags = 0;
  key = k;
  value = value;
  expire_at_ms = expire_at;
}

unfoldable pub delete_record : Key → Record
delete_record k = record {
  lsn = 0;
  created_at_ms = 0;
  rec_type = rec_delete;
  flags = 0;
  key = k;
  value = [];
  expire_at_ms = 0;
}

unfoldable pub expire_record : Key → ℕ → Record
expire_record k expire_at = record {
  lsn = 0;
  created_at_ms = 0;
  rec_type = rec_expire;
  flags = 0;
  key = k;
  value = [];
  expire_at_ms = expire_at;
}

-- applyRecord, at a time of the two clocks.
unfoldable pub apply_record {ℓ} : {X : Type ℓ} → Shard → Record → ℕ → ℕ → Shard × Option (Error X)
apply_record s r now_ms now_mono =
    if r.rec_type == rec_set
    then (let (s1, ok) = Operations.set s r.key r.value r.expire_at_ms now_mono in
        (s1, if ok then none else some err_oom))
    else if r.rec_type == rec_delete
    then ((remove s r.key now_ms).0, none)
    else if r.rec_type == rec_expire
    then ((set_expiry s r.key r.expire_at_ms now_ms).0, none)
    else if r.rec_type == rec_segment_hdr
    then (s, none)
    else (s, some bad_type)

module _ {ℓ} {X : Type ℓ} where
  -- onStoreEvict
  unfoldable pub on_store_evict : Engine X → Key × Reason → Engine X
  on_store_evict e event =
      if e.read_only || e.closed
      then e
      else if ltb (length e.evict_q) evict_queue_size
      then record e { evict_q = e.evict_q ++ (event.0 ∷ []) }
      else record e { evict_drops = plus e.evict_drops 1 }

  -- The shard after an operation, with the calls that it made.
  unfoldable pub deliver : Engine X → Shard → Engine X
  deliver e s = foldl on_store_evict (record e { shard = record s { removed = [] } }) s.removed

  -- mutate: `apply` changes the shard and answers, and only if it has no error is the record
  -- submitted, under the same lock.
  unfoldable pub mutate {κ} :
      {A : Type κ}
      → Engine X
      → Record
      → ℕ
      → (Shard → Shard × A × Option (Error X))
      → Engine X × A × Option (Error X)
  mutate e r now_ms apply =
      let (s, answer, failed) = apply e.shard in
      let e1 = deliver e s in
      elim failed [
        | some x ↦ (e1, answer, some x)
        | none ↦
            let (w, refused) = submit e1.wal r now_ms in
            elim refused [
              | some x ↦ (e1, answer, some (wal_error x))
              | none ↦ (record e1 { wal = w; mutations = plus e1.mutations 1 }, answer, none)
            ]
      ]

  -- Engine.Set
  unfoldable pub set : Engine X → Key → List ℕ → ℕ → ℕ → ℕ → Engine X × Option (Error X)
  set e k value ttl_millis now_ms now_mono =
      if e.closed
      then (e, some err_closed)
      else if e.read_only
      then (e, some err_read_only)
      else let expire_at = deadline ttl_millis now_ms in
        let (e1, _, failed) = mutate e (set_record k value expire_at) now_ms (λ s.
          let (s1, ok) = Operations.set s k value expire_at now_mono in
          (s1, ok, if ok then none else some err_oom)) in
        (e1, failed)

  -- Engine.Delete
  unfoldable pub delete : Engine X → Key → ℕ → Engine X × Bool × Option (Error X)
  delete e k now_ms =
      if e.closed
      then (e, false, some err_closed)
      else if e.read_only
      then (e, false, some err_read_only)
      else mutate e (delete_record k) now_ms
          (λ s. let (s1, existed) = remove s k now_ms in (s1, existed, none))

  -- Engine.Expire
  unfoldable pub expire : Engine X → Key → ℕ → ℕ → Engine X × Bool × Option (Error X)
  expire e k ttl_millis now_ms =
      if e.closed
      then (e, false, some err_closed)
      else if e.read_only
      then (e, false, some err_read_only)
      else let expire_at = deadline ttl_millis now_ms in
        mutate e (expire_record k expire_at) now_ms
          (λ s. let (s1, ok) = set_expiry s k expire_at now_ms in (s1, ok, none))

  -- One turn of drainEvictQueue, with logEvict; an error of the log is passed over.
  unfoldable pub log_evict : Engine X → ℕ → Engine X
  log_evict e now_ms = elim e.evict_q [
    | [] ↦ e
    | k ∷ ks ↦ record e { evict_q = ks; wal = (submit e.wal (delete_record k) now_ms).0 }
  ]

  -- ApplyReplicated
  unfoldable pub apply_replicated : Engine X → Record → ℕ → ℕ → Engine X × Option (Error X)
  apply_replicated e r now_ms now_mono =
      let (s, failed) = apply_record e.shard r now_ms now_mono in
      let e1 = deliver e s in
      elim failed [
        | some x ↦ (e1, some x)
        | none ↦
            let (w, refused) = submit e1.wal r now_ms in
            elim refused [
              | some x ↦ (e1, some (wal_error x))
              | none ↦ (record e1 { wal = w; mutations = plus e1.mutations 1 }, none)
            ]
      ]
