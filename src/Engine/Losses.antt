-- ===== src/Engine/Losses.antt =====
-- Two orders of records under a replay: a deadline changed after a Set, and a late DELETE.
use kvstore.Prelude.{
  ℕ, ◌^◌, ◌<◌, ◌≡◌, refl, ap, ◌∙◌, true, false, none, some, List, [], ◌∷◌, ◌++◌, length,
  key_eq_refl,
}
use kvstore.Store.Entry.{entry_cost, is_expired}
use kvstore.Store.Shard.{Shard, Key}
use kvstore.Store.Operations
use kvstore.Store.Keyspace.{remove, set_expiry}
use kvstore.Store.Reference
use kvstore.Store.Reference.{Data, live}
use kvstore.Store.Invariant.Sound.{IsSound}
use kvstore.Store.Invariant.Admission.{set-IsSound}
use kvstore.Store.Refinement.{shows, visible, Agrees}
use kvstore.Store.Refinement.Writes.{set-set, remove-delete, set_expiry-expire}
use kvstore.Wal.Writer.{stamp, submit}
use kvstore.Wal.Writer.Run.{submit_accepted}
use kvstore.Engine.{Engine, deadline, set_record, delete_record, expire_record, set, log_evict}
use kvstore.Engine.Effects.{set_shard}
use kvstore.Engine.Steps.{
  IsRoomy, replayed, replayed_step, replayed_set, replayed_delete, replayed_expire,
}

-- The reference store after a Set and an Expire of the same key.
module _ (d : Data) (k : Key) (value : List ℕ) (x y now : ℕ) where
  extended :
      is_expired x now ≡ false
      → (Reference.expire (Reference.set d k value x) k y now).0 k
        ≡ some (record { value = value; expire_at = y })
  unfolding Reference.expire Reference.set Reference.live Reference.live_at
  extended h = rw (key_eq_refl k) (rw h (rw (key_eq_refl k) refl))

  lapsed :
      is_expired x now ≡ true → (Reference.expire (Reference.set d k value x) k y now).0 k ≡ none
  unfolding Reference.expire Reference.set Reference.live Reference.live_at
  lapsed h = rw (key_eq_refl k) (rw h (rw (key_eq_refl k) refl))

  deleted : (Reference.delete (Reference.set d k value x) k now).0 k ≡ none
  unfolding Reference.delete
  deleted = rw (key_eq_refl k) refl

module _ (now mono : ℕ) (s : Shard) (v : IsSound s) (r : IsRoomy s) (k : Key) (value : List ℕ)
    (x y : ℕ) (small : entry_cost (length k) (length value) < 2 ^ 32) where
  after_set : IsSound (Operations.set s k value x mono).0
  after_set = set-IsSound s v r.sampled r.room k value x mono small

  set_Agrees : Agrees now (Operations.set s k value x mono).0 (Reference.set (shows s) k value x)
  set_Agrees = (set-set s (shows s) now v (λ j. refl) k value x mono r.unlimited).1

  expire_after :
      Agrees now
        (set_expiry (Operations.set s k value x mono).0 k y now).0
        (Reference.expire (Reference.set (shows s) k value x) k y now).0
  expire_after =
      (set_expiry-expire (Operations.set s k value x mono).0 (Reference.set (shows s) k value x) now
        after_set set_Agrees k y).1

  remove_after :
      Agrees now
        (remove (Operations.set s k value x mono).0 k now).0
        (Reference.delete (Reference.set (shows s) k value x) k now).0
  remove_after =
      (remove-delete (Operations.set s k value x mono).0 (Reference.set (shows s) k value x) now
        after_set set_Agrees k).1

-- Take a key that is set with a deadline `x` and whose deadline is changed to `y` before `x`, at
-- `now`, on a sound store without a memory limit. The store then shows the value with the deadline
-- `y`. But a replay of the two records at a time `later`, when `x` has passed, leaves no visible
-- value, whatever `y` is, onto whatever sound store without a memory limit.
pub replayed_extension_lost :
    (k : Key) (value : List ℕ) (x y : ℕ)
    → entry_cost (length k) (length value) < 2 ^ 32
    → (now mono : ℕ) (s : Shard) → IsSound s
    → IsRoomy s
    → is_expired x now ≡ false
    → (later mono' : ℕ) (q : Shard) → IsSound q
    → IsRoomy q
    → is_expired x later ≡ true
    → (l t l' t' : ℕ)
    → (visible now (shows (set_expiry (Operations.set s k value x mono).0 k y now).0 k)
        ≡ visible now (some (record { value = value; expire_at = y })))
      × (visible later (
            shows
              (replayed later mono' q
                (stamp (set_record k value x) l t ∷ stamp (expire_record k y) l' t' ∷ []))
              k)
          ≡ none)
unfolding visible
replayed_extension_lost k value x y small now mono s v r alive later mono' q w o over l t l' t' = (
  expire_after now mono s v r k value x y small k
      ∙ ap (λ e. visible now e) (extended (shows s) k value x y now alive),
  ap (λ u. visible later (shows (replayed_step later mono' u (stamp (expire_record k y) l' t')) k))
        (replayed_set later mono' k l t q value x)
      ∙ ap (λ u. visible later (shows u k))
          (replayed_expire later mono' k l' t' (Operations.set q k value x mono').0 y)
      ∙ expire_after later mono' q w o k value x y small k
      ∙ ap (λ e. visible later e) (lapsed (shows q) k value x y later over),
)

-- Take an engine whose store is sound and has no memory limit, and in whose queue the removal of a
-- key waits. A Set of the key is accepted, and then the queue's turn is logged. The log has the
-- DELETE behind the SET, while the store still shows the value; a replay of the two records leaves
-- no visible value, at whatever time, onto whatever sound store without a memory limit.
pub log_evict_overtakes {ℓ} :
    {X : Type ℓ} (e : Engine X) (k : Key) (ks : List Key) (value : List ℕ) (ttl now mono now' : ℕ)
    → IsSound e.shard
    → IsRoomy e.shard
    → entry_cost (length k) (length value) < 2 ^ 32
    → (set e k value ttl now mono).1 ≡ none
    → (set e k value ttl now mono).0.evict_q ≡ k ∷ ks
    → (submit (set e k value ttl now mono).0.wal (delete_record k) now').1 ≡ none
    → (later mono' : ℕ) (q : Shard) → IsSound q
    → IsRoomy q
    → (l t l' t' : ℕ)
    → ((log_evict (set e k value ttl now mono).0 now').wal.queue
        ≡ (set e k value ttl now mono).0.wal.queue
          ++ (stamp (delete_record k) (set e k value ttl now mono).0.wal.next_lsn now' ∷ []))
      × (visible now (shows (log_evict (set e k value ttl now mono).0 now').shard k)
          ≡ visible now (some (record { value = value; expire_at = deadline ttl now })))
      × (visible later (
            shows
              (replayed later mono' q (
                stamp (set_record k value (deadline ttl now)) l t
                ∷ stamp (delete_record k) l' t'
                ∷ []))
              k)
          ≡ none)
unfolding log_evict visible Reference.set
log_evict_overtakes e k ks value ttl now mono now' v r small ok waits accepted later mono' q w o l t
      l' t' =
    let x = deadline ttl now in
    let (_, _, _, _, same) =
      submit_accepted (set e k value ttl now mono).0.wal (delete_record k) now' accepted in
    (
      rw (waits, log_evict) (ap (λ u. u.queue) same),
      rw (waits, log_evict)
          (ap (λ u. visible now (shows u k)) (set_shard e k value ttl now mono ok)
            ∙ set_Agrees now mono e.shard v r k value x x small k
            ∙ rw (key_eq_refl k) refl),
      ap
            (λ u.
              visible later (shows (replayed_step later mono' u (stamp (delete_record k) l' t')) k))
            (replayed_set later mono' k l t q value x)
          ∙ ap (λ u. visible later (shows u k))
              (replayed_delete later mono' k l' t' (Operations.set q k value x mono').0)
          ∙ remove_after later mono' q w o k value x x small k
          ∙ ap (λ u. visible later u) (deleted (shows q) k value x later later),
    )
