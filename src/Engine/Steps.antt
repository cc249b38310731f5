-- ===== src/Engine/Steps.antt =====
-- One operation of the engine's store, and what a replay makes of its record.
use mathlib.Core.List.{foldl, foldl-append}
use kvstore.Prelude.{ℕ, ◌^◌, ◌<◌, ◌≤◌, ◌≡◌, refl, ap, sym, ◌∙◌, false, List, [], ◌∷◌, ◌++◌, length}
use kvstore.Store.Entry.{entry_cost}
use kvstore.Store.Shard.{Shard, Key}
use kvstore.Store.Operations
use kvstore.Store.Operations.{sweep}
use kvstore.Store.Keyspace.{lookup, remove, set_expiry}
use kvstore.Store.Reference
use kvstore.Store.Reference.{RefEntry, Data, live, set_deadline}
use kvstore.Store.Invariant.Sound.{IsSound, retag-IsSound}
use kvstore.Store.Invariant.Write.{HasRoom}
use kvstore.Store.Invariant.Admission.{set-IsSound}
use kvstore.Store.Invariant.Sweep.{sweep-IsSound}
use kvstore.Store.Refinement.{shows, visible, Agrees}
use kvstore.Store.Refinement.Answers.{lookup-get}
use kvstore.Store.Refinement.Writes.{set-set, remove-delete, set_expiry-expire}
use kvstore.Store.Refinement.Background.{Agrees-later, sweep-Agrees}
use kvstore.Store.Refinement.Session.{read-IsSound, remove-IsSound, set_expiry-IsSound}
use kvstore.Wal.Record.{Record}
use kvstore.Wal.Writer.{stamp}
use kvstore.Engine.{set_record, delete_record, expire_record, apply_record}
use kvstore.Engine.Effects.{Same, live-later, set-Same, delete-Same, expire-Same, silent}

-- No memory limit, sampled eviction, and room in the slices.
pub record IsRoomy (s : Shard) : Type 0 where
  pub unlimited : s.budget ≡ 0
  pub sampled : s.exact_lru ≡ false
  pub room : HasRoom s

-- What a replay makes of one record, and of a log, at one time of the two clocks.
abbrev pub replayed_step : ℕ → ℕ → Shard → Record → Shard
replayed_step later mono s r = (apply_record {X = ℕ} s r later mono).0

abbrev pub replayed : ℕ → ℕ → Shard → List Record → Shard
replayed later mono s rs = foldl (replayed_step later mono) s rs

-- The two stores are sound, and a client sees the same in both at the restart.
abbrev pub Mirrors : ℕ → Shard → Shard → Type 0
Mirrors later s t =
    IsSound s × IsSound t × ((j : Key) → visible later (shows s j) ≡ visible later (shows t j))

pub silent-IsSound : (s : Shard) → IsSound s → IsSound (silent s)
silent-IsSound s v =
    retag-IsSound s v s.last_access s.hits s.misses s.evictions s.expirations s.rng []

shows-silent : (s : Shard) (j : Key) → shows (silent s) j ≡ shows s j
shows-silent s j = refl

-- A step of both stores: each agrees with a reference store afterwards, and those are the same.
stepped :
    (now later : ℕ) (s t : Shard) (d d' : Data)
    → now ≤ later
    → IsSound s
    → IsSound t
    → Agrees now s d
    → Agrees later t d'
    → Same later d d'
    → Mirrors later (silent s) t
stepped now later s t d d' le v u a b h = (
  silent-IsSound s v,
  u,
  λ j.
      ap (λ o. visible later o) (shows-silent s j)
      ∙ Agrees-later now s d later le a j
      ∙ h j
      ∙ sym (b j),
)

module _ (later mono : ℕ) (k : Key) (lsn now : ℕ) where
  pub replayed_set :
      (t : Shard) (value : List ℕ) (x : ℕ)
      → replayed_step later mono t (stamp (set_record k value x) lsn now)
        ≡ (Operations.set t k value x mono).0
  unfolding apply_record set_record stamp
  replayed_set t value x = refl

  pub replayed_delete :
      (t : Shard)
      → replayed_step later mono t (stamp (delete_record k) lsn now) ≡ (remove t k later).0
  unfolding apply_record delete_record stamp
  replayed_delete t = refl

  pub replayed_expire :
      (t : Shard) (x : ℕ)
      → replayed_step later mono t (stamp (expire_record k x) lsn now) ≡ (set_expiry t k x later).0
  unfolding apply_record expire_record stamp
  replayed_expire t x = refl

module _ (now later mono : ℕ) (s t : Shard) (le : now ≤ later) (m : Mirrors later s t)
    (k : Key) where
  pub set-Mirrors :
      (value : List ℕ) (x now_mono : ℕ)
      → IsRoomy s
      → IsRoomy t
      → entry_cost (length k) (length value) < 2 ^ 32
      → Mirrors later
          (silent (Operations.set s k value x now_mono).0)
          (Operations.set t k value x mono).0
  set-Mirrors value x now_mono r r' c =
      stepped now later (Operations.set s k value x now_mono).0 (Operations.set t k value x mono).0
        (Reference.set (shows s) k value x) (Reference.set (shows t) k value x) le
        (set-IsSound s m.0 r.sampled r.room k value x now_mono c)
        (set-IsSound t m.1 r'.sampled r'.room k value x mono c)
        (set-set s (shows s) now m.0 (λ j. refl) k value x now_mono r.unlimited).1
        (set-set t (shows t) later m.1 (λ j. refl) k value x mono r'.unlimited).1
        (set-Same now later le (shows s) (shows t) m.2 k value x)

  pub delete-Mirrors : Mirrors later (silent (remove s k now).0) (remove t k later).0
  unfolding remove
  delete-Mirrors =
      stepped now later (remove s k now).0 (remove t k later).0 (Reference.delete (shows s) k now).0
        (Reference.delete (shows t) k later).0 le (remove-IsSound s m.0 k now (s.entries k) refl)
        (remove-IsSound t m.1 k later (t.entries k) refl)
        (remove-delete s (shows s) now m.0 (λ j. refl) k).1
        (remove-delete t (shows t) later m.1 (λ j. refl) k).1
        (delete-Same now later le (shows s) (shows t) m.2 k)

  pub expire-Mirrors :
      (x : ℕ)
      → IsRoomy s
      → IsRoomy t
      → visible now (shows s k) ≡ visible later (shows s k)
      → Mirrors later (silent (set_expiry s k x now).0) (set_expiry t k x later).0
  unfolding set_expiry
  expire-Mirrors x r r' settled =
      stepped now later (set_expiry s k x now).0 (set_expiry t k x later).0
        (Reference.expire (shows s) k x now).0 (Reference.expire (shows t) k x later).0 le
        (set_expiry-IsSound s m.0 r.room k x now (s.entries k))
        (set_expiry-IsSound t m.1 r'.room k x later (t.entries k))
        (set_expiry-expire s (shows s) now m.0 (λ j. refl) k x).1
        (set_expiry-expire t (shows t) later m.1 (λ j. refl) k x).1
        (expire-Same now later le (shows s) (shows t) m.2 k x settled)

lookup_kept :
    (s : Shard) (v : IsSound s) (k : Key) (now now_mono : ℕ)
    → Agrees now (lookup s k now now_mono).0 (live (shows s) k now).0
unfolding Reference.get
lookup_kept s v k now now_mono = (lookup-get s (shows s) now v (λ j. refl) k now_mono).1

pub read-Mirrors :
    (now later : ℕ) (s t : Shard) (k : Key) (now_mono : ℕ)
    → now ≤ later
    → Mirrors later s t
    → Mirrors later (silent (lookup s k now now_mono).0) t
unfolding lookup
read-Mirrors now later s t k now_mono le m =
    stepped now later (lookup s k now now_mono).0 t (live (shows s) k now).0 (shows t) le
      (read-IsSound s m.0 k now now_mono) m.1 (lookup_kept s m.0 k now now_mono) (λ j. refl)
      (λ j. live-later now later le (shows s) (shows t) m.2 k j ∙ m.2 j)

pub sweep-Mirrors :
    (now later : ℕ) (s t : Shard) (wanted : ℕ)
    → now ≤ later
    → Mirrors later s t
    → Mirrors later (silent (sweep s now wanted).0) t
sweep-Mirrors now later s t wanted le m =
    stepped now later (sweep s now wanted).0 t (shows s) (shows t) le
      (sweep-IsSound s m.0 now wanted) m.1 (sweep-Agrees now s (shows s) m.0 (λ j. refl) wanted)
      (λ j. refl) m.2

pub replayed-snoc :
    (later mono : ℕ) (q : Shard) (rs : List Record) (r : Record)
    → replayed later mono q (rs ++ (r ∷ [])) ≡ replayed_step later mono (replayed later mono q rs) r
replayed-snoc later mono q rs r = foldl-append (replayed_step later mono) q rs (r ∷ [])

pub moved :
    (later : ℕ) (s s' t t' : Shard) → s ≡ s' → t ≡ t' → Mirrors later s' t' → Mirrors later s t
moved later s s' t t' e f m = rw (e, f) m
