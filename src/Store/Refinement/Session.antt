-- ===== src/Store/Refinement/Session.antt =====
-- A shard without a memory limit, and the reference store, under the same operations.
use kvstore.Prelude.{
  ℕ, ◌^◌, ◌<◌, ◌≤◌, ◌≡◌, refl, false, Option, none, some, List, length, Bool-cases, inl, inr,
}
use kvstore.Store.Entry.{entry_cost, is_expired}
use kvstore.Store.Shard.{Shard, Key, Policy, new_shard}
use kvstore.Store.Operations.{Found, hit, miss, needs_reap, get, set, sweep}
use kvstore.Store.Keyspace.{
  after_read, lookup, exists, ttl, remove_at, remove, set_expiry_at, set_expiry,
}
use kvstore.Store.Reference
use kvstore.Store.Reference.{Data}
use kvstore.Store.Invariant.Sound.{IsSound, remove_entry-IsSound}
use kvstore.Store.Invariant.Write.{HasRoom}
use kvstore.Store.Invariant.Operations.{
  new_shard-IsSound, get-IsSound, delete-IsSound, expire-IsSound, reap-IsSound,
}
use kvstore.Store.Invariant.Admission.{set-IsSound}
use kvstore.Store.Invariant.Sweep.{sweep-IsSound}
use kvstore.Store.Refinement.{Agrees}
use kvstore.Store.Refinement.Answers.{lookup-get, exists-exists, ttl-ttl}
use kvstore.Store.Refinement.Writes.{set-set, remove-delete, set_expiry-expire}
use kvstore.Store.Refinement.Background.{sweep-Agrees, Agrees-later}

-- The two stores after the same operations, at a time that does not run backwards; the sweeps
-- are the shard's alone.
pub data Session : ℕ → Shard → Data → Type 0 where
  new :
      (sample_k batch_max seed : ℕ) (policy : Policy) (now : ℕ)
      → Session now (new_shard sample_k batch_max seed false policy) (λ _. none)
  waits :
      {now : ℕ} {s : Shard} {d : Data} (later : ℕ)
      → now ≤ later
      → Session now s d
      → Session later s d
  gets :
      {now : ℕ} {s : Shard} {d : Data} (k : Key) (now_mono : ℕ)
      → Session now s d
      → Session now (lookup s k now now_mono).0 (Reference.get d k now).0
  asks :
      {now : ℕ} {s : Shard} {d : Data} (k : Key) (now_mono : ℕ)
      → Session now s d
      → Session now (exists s k now now_mono).0 (Reference.exists d k now).0
  times :
      {now : ℕ} {s : Shard} {d : Data} (k : Key) (now_mono : ℕ)
      → Session now s d
      → Session now (ttl s k now now_mono).0 (Reference.ttl d k now).0
  sets :
      {now : ℕ} {s : Shard} {d : Data} (k : Key) (value : List ℕ) (x now_mono : ℕ)
      → s.budget ≡ 0
      → s.exact_lru ≡ false
      → HasRoom s
      → entry_cost (length k) (length value) < 2 ^ 32
      → Session now s d
      → Session now (set s k value x now_mono).0 (Reference.set d k value x)
  deletes :
      {now : ℕ} {s : Shard} {d : Data} (k : Key)
      → Session now s d
      → Session now (remove s k now).0 (Reference.delete d k now).0
  expires :
      {now : ℕ} {s : Shard} {d : Data} (k : Key) (x : ℕ)
      → HasRoom s
      → Session now s d
      → Session now (set_expiry s k x now).0 (Reference.expire d k x now).0
  sweeps :
      {now : ℕ} {s : Shard} {d : Data} (wanted : ℕ)
      → Session now s d
      → Session now (sweep s now wanted).0 d

after_read-IsSound :
    (s : Shard) (f : Found) (k : Key) (now : ℕ) → IsSound s → IsSound (after_read s f k now)
unfolding after_read
after_read-IsSound s (hit r) k now v = v
after_read-IsSound s miss k now v = v
after_read-IsSound s needs_reap k now v = reap-IsSound s v k now

pub read-IsSound :
    (s : Shard) (v : IsSound s) (k : Key) (now now_mono : ℕ)
    → IsSound (after_read (get s k now now_mono).0 (get s k now now_mono).1 k now)
read-IsSound s v k now now_mono =
    after_read-IsSound (get s k now now_mono).0 (get s k now now_mono).1 k now
      (get-IsSound s v k now now_mono)

pub remove-IsSound :
    (s : Shard) (v : IsSound s) (k : Key) (now : ℕ) (o : Option ℕ)
    → s.entries k ≡ o
    → IsSound (remove_at s o k now).0
unfolding remove_at
remove-IsSound s v k now none f = delete-IsSound s v k
remove-IsSound s v k now (some r) f = elim (Bool-cases (is_expired (s.expire_at r) now)) [
  | inl t ↦ rw t (remove_entry-IsSound s v k r f)
  | inr t ↦ rw t (delete-IsSound s v k)
]

pub set_expiry-IsSound :
    (s : Shard) (v : IsSound s) (h : HasRoom s) (k : Key) (x now : ℕ) (o : Option ℕ)
    → IsSound (set_expiry_at s o k x now).0
unfolding set_expiry_at
set_expiry-IsSound s v h k x now none = expire-IsSound s v h k x
set_expiry-IsSound s v h k x now (some r) = elim (Bool-cases (is_expired (s.expire_at r) now)) [
  | inl t ↦ rw t (reap-IsSound s v k now)
  | inr t ↦ rw t (expire-IsSound s v h k x)
]

-- After any session, which is a sequence of the operations on a new shard with sampled
-- eviction and on an empty reference store, at times that do not run backwards and with sweeps
-- of the shard between them, the shard is sound and agrees with the reference store on every
-- key: what can be seen of it, value and deadline, is the same. A session writes only while
-- the shard has no memory limit, and writes and new deadlines only while the slices have room
-- and a cost fits 32 bits.
pub Session-Agrees : (now : ℕ) (s : Shard) (d : Data) → Session now s d → IsSound s × Agrees now s d
unfolding lookup exists ttl remove set_expiry new_shard
Session-Agrees _ _ _ (new sample_k batch_max seed policy now) =
    (new_shard-IsSound sample_k batch_max seed false policy, λ k. refl)
Session-Agrees _ s d (waits later l r) =
    let (v, a) = Session-Agrees _ s d r in (v, Agrees-later _ s d later l a)
Session-Agrees now _ _ (gets {s} {d} k now_mono r) =
    let (v, a) = Session-Agrees now s d r in
    (read-IsSound s v k now now_mono, (lookup-get s d now v a k now_mono).1)
Session-Agrees now _ _ (asks {s} {d} k now_mono r) =
    let (v, a) = Session-Agrees now s d r in
    (read-IsSound s v k now now_mono, (exists-exists s d now v a k now_mono).1)
Session-Agrees now _ _ (times {s} {d} k now_mono r) =
    let (v, a) = Session-Agrees now s d r in
    (read-IsSound s v k now now_mono, (ttl-ttl s d now v a k now_mono).1)
Session-Agrees now _ _ (sets {s} {d} k value x now_mono b mode h small r) =
    let (v, a) = Session-Agrees now s d r in
    (set-IsSound s v mode h k value x now_mono small, (set-set s d now v a k value x now_mono b).1)
Session-Agrees now _ _ (deletes {s} {d} k r) =
    let (v, a) = Session-Agrees now s d r in
    (remove-IsSound s v k now (s.entries k) refl, (remove-delete s d now v a k).1)
Session-Agrees now _ _ (expires {s} {d} k x h r) =
    let (v, a) = Session-Agrees now s d r in
    (set_expiry-IsSound s v h k x now (s.entries k), (set_expiry-expire s d now v a k x).1)
Session-Agrees now _ _ (sweeps {s} {d} wanted r) =
    let (v, a) = Session-Agrees now s d r in
    (sweep-IsSound s v now wanted, sweep-Agrees now s d v a wanted)
