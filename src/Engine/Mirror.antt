-- ===== src/Engine/Mirror.antt =====
-- The store that a replay of the log rebuilds, against the store of the engine that wrote it.
use kvstore.Prelude.{
  ℕ, ◌^◌, ◌<◌, ◌≤◌, ◌≡◌, refl, ap, sym, ◌∙◌, false, none, List, [], ◌∷◌, ◌++◌, length,
}
use kvstore.Store.Entry.{entry_cost}
use kvstore.Store.Shard.{Shard, Key, Policy, new_shard}
use kvstore.Store.Operations.{sweep}
use kvstore.Store.Keyspace.{lookup}
use kvstore.Store.Invariant.Sound.{IsSound}
use kvstore.Store.Invariant.Operations.{new_shard-IsSound}
use kvstore.Store.Refinement.{shows, visible}
use kvstore.Wal.Record.{Record}
use kvstore.Wal.Writer.{Writer, stamp}
use kvstore.Engine.{
  Engine, deadline, set_record, delete_record, expire_record, deliver, set, delete, expire,
}
use kvstore.Engine.Effects.{deliver_shard, set_shard, delete_shard, expire_shard}
use kvstore.Engine.Steps.{
  IsRoomy, replayed, Mirrors, replayed_set, replayed_delete, replayed_expire, replayed-snoc, moved,
  set-Mirrors, delete-Mirrors, expire-Mirrors, read-Mirrors, sweep-Mirrors,
}

-- A life of the engine, at a time that does not pass the restart at `later`, and the records that
-- its log accepted; `q` is the store in which the restart begins. A client's write here is one that
-- was not refused.
pub data Life {ℓ} {X : Type ℓ} (later mono : ℕ) (q : Shard)
    : ℕ → Engine X → List Record → Type ℓ where
  starts :
      (e : Engine X) (sample_k batch_max seed now : ℕ) (policy : Policy)
      → e.shard ≡ new_shard sample_k batch_max seed false policy
      → now ≤ later
      → Life later mono q now e []
  waits :
      {now : ℕ} {e : Engine X} {rs : List Record} (t : ℕ)
      → now ≤ t
      → t ≤ later
      → Life later mono q now e rs
      → Life later mono q t e rs
  sets :
      {now : ℕ} {e : Engine X} {rs : List Record} (k : Key) (value : List ℕ) (ttl now_mono : ℕ)
      → IsRoomy e.shard
      → IsRoomy (replayed later mono q rs)
      → entry_cost (length k) (length value) < 2 ^ 32
      → (set e k value ttl now now_mono).1 ≡ none
      → Life later mono q now e rs
      → Life later mono q now
          (set e k value ttl now now_mono).0
          (rs ++ (stamp (set_record k value (deadline ttl now)) e.wal.next_lsn now ∷ []))
  deletes :
      {now : ℕ} {e : Engine X} {rs : List Record} (k : Key)
      → (delete e k now).2 ≡ none
      → Life later mono q now e rs
      → Life later mono q now
          (delete e k now).0
          (rs ++ (stamp (delete_record k) e.wal.next_lsn now ∷ []))
  expires :
      {now : ℕ} {e : Engine X} {rs : List Record} (k : Key) (ttl : ℕ)
      → IsRoomy e.shard
      → IsRoomy (replayed later mono q rs)
      → visible now (shows e.shard k) ≡ visible later (shows e.shard k)
      → (expire e k ttl now).2 ≡ none
      → Life later mono q now e rs
      → Life later mono q now
          (expire e k ttl now).0
          (rs ++ (stamp (expire_record k (deadline ttl now)) e.wal.next_lsn now ∷ []))
  gets :
      {now : ℕ} {e : Engine X} {rs : List Record} (k : Key) (now_mono : ℕ)
      → Life later mono q now e rs
      → Life later mono q now (deliver e (lookup e.shard k now now_mono).0) rs
  sweeps :
      {now : ℕ} {e : Engine X} {rs : List Record} (wanted : ℕ)
      → Life later mono q now e rs
      → Life later mono q now (deliver e (sweep e.shard now wanted).0) rs
  logs :
      {now : ℕ} {e : Engine X} {rs : List Record} (w : Writer X)
      → Life later mono q now e rs
      → Life later mono q now (record e { wal = w }) rs

module _ {ℓ} {X : Type ℓ} (later mono : ℕ) (q : Shard) (sound : IsSound q)
    (empty : (j : Key) → shows q j ≡ none) where
  -- Take a life of an engine with one shard, without a memory limit and with room in its slices,
  -- whose entries cost less than 2^32. It is made of reads, sweeps, and client writes whose records
  -- the log accepted: it has no FLUSH, no write that the log refuses after the store took it, and no
  -- removal that is logged by the queue of evictions. Its last time does not pass `later`. A
  -- deadline is changed only where the entry that was visible is still visible at `later`, which
  -- includes a key with no entry and one that has expired. A replay at `later` of the records that
  -- its log accepted, in their order and onto an empty store, gives a sound store in which every key
  -- shows at that time the same value and deadline as in the engine's own.
  pub Life-Mirrors :
      (now : ℕ) (e : Engine X) (rs : List Record)
      → Life later mono q now e rs
      → (now ≤ later) × Mirrors later e.shard (replayed later mono q rs)
  unfolding new_shard
  Life-Mirrors now _ _ (starts e sample_k batch_max seed _ policy new le) = (
    le,
    moved later e.shard (new_shard sample_k batch_max seed false policy) q q new refl (
      new_shard-IsSound sample_k batch_max seed false policy,
      sound,
      λ j. ap (λ o. visible later o) (sym (empty j)),
    ),
  )
  Life-Mirrors _ _ _ (waits {now} {e} {rs} t l le life) = (le, (Life-Mirrors now e rs life).1)
  Life-Mirrors now _ _ (sets {e} {rs} k value ttl now_mono r r' c ok life) =
      let (le, m) = Life-Mirrors now e rs life in
      let rec = stamp (set_record k value (deadline ttl now)) e.wal.next_lsn now in
      (
        le,
        moved later _ _ _ _ (set_shard e k value ttl now now_mono ok)
            (replayed-snoc later mono q rs rec
              ∙ replayed_set later mono k e.wal.next_lsn now _ value (deadline ttl now))
            (set-Mirrors now later mono e.shard (replayed later mono q rs) le m k value
              (deadline ttl now) now_mono r r' c),
      )
  Life-Mirrors now _ _ (deletes {e} {rs} k ok life) =
      let (le, m) = Life-Mirrors now e rs life in
      (
        le,
        moved later _ _ _ _ (delete_shard e k now ok)
            (replayed-snoc later mono q rs (stamp (delete_record k) e.wal.next_lsn now)
              ∙ replayed_delete later mono k e.wal.next_lsn now _)
            (delete-Mirrors now later mono e.shard (replayed later mono q rs) le m k),
      )
  Life-Mirrors now _ _ (expires {e} {rs} k ttl r r' settled ok life) =
      let (le, m) = Life-Mirrors now e rs life in
      (
        le,
        moved later _ _ _ _ (expire_shard e k ttl now ok)
            (replayed-snoc later mono q rs
                (stamp (expire_record k (deadline ttl now)) e.wal.next_lsn now)
              ∙ replayed_expire later mono k e.wal.next_lsn now _ (deadline ttl now))
            (expire-Mirrors now later mono e.shard (replayed later mono q rs) le m k
              (deadline ttl now) r r' settled),
      )
  Life-Mirrors now _ rs (gets {e} k now_mono life) =
      let (le, m) = Life-Mirrors now e rs life in
      (
        le,
        moved later _ _ _ _ (deliver_shard e (lookup e.shard k now now_mono).0) refl
            (read-Mirrors now later e.shard (replayed later mono q rs) k now_mono le m),
      )
  Life-Mirrors now _ rs (sweeps {e} wanted life) =
      let (le, m) = Life-Mirrors now e rs life in
      (
        le,
        moved later _ _ _ _ (deliver_shard e (sweep e.shard now wanted).0) refl
            (sweep-Mirrors now later e.shard (replayed later mono q rs) wanted le m),
      )
  Life-Mirrors now _ rs (logs {e} w life) = Life-Mirrors now e rs life
