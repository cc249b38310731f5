-- ===== src/Store/Refinement/Answers.antt =====
-- Each operation of the store against the same operation of the reference store.
use kvstore.Prelude.{
  ℕ, zero, suc, arith, ◌≡◌, refl, ap, sym, ◌∙◌, true, Option, none, some, Option-cases, Bool-cases,
  inl, inr, key_eq, key_eq→eq,
}
use kvstore.Store.Entry.{is_expired}
use kvstore.Store.Shard.{Shard, Key, assign, is_some, count}
use kvstore.Store.Operations.{get_at, get, expel, reap}
use kvstore.Store.Keyspace.{time_left, after_read, value_of, is_hit, ttl_of, lookup, exists, ttl}
use kvstore.Store.Reference.{RefEntry, Data, remaining, live_at, live, value_in, ttl_in}
use kvstore.Store.Reference
use kvstore.Store.Invariant.Sound.{IsSound, retag-IsSound}
use kvstore.Store.Refinement.{shows, entry_at, visible, Agrees, shows-remove_entry}

-- An entry that cannot be seen may go.
pub drop_hidden :
    (now : ℕ) (d : Data) (k : Key)
    → visible now (d k) ≡ none
    → (j : Key) → visible now (assign d k none j) ≡ visible now (d j)
unfolding visible
drop_hidden now d k h j = elim (Bool-cases (key_eq k j)) [
  | inl t ↦ rw (t, sym (key_eq→eq k j t)) (sym h)
  | inr t ↦ rw t refl
]

pub assign_same :
    (now : ℕ) (d d' : Data) (k : Key) (x : Option RefEntry)
    → ((j : Key) → visible now (d j) ≡ visible now (d' j))
    → (j : Key) → visible now (assign d k x j) ≡ visible now (assign d' k x j)
assign_same now d d' k x h j = elim (Bool-cases (key_eq k j)) [
  | inl t ↦ rw t refl
  | inr t ↦ rw t (h j)
]

module _ (d : Data) (k : Key) (now : ℕ) where
  pub live_answer : (live d k now).1 ≡ visible now (d k)
  unfolding live live_at visible
  live_answer = elim (Option-cases (d k)) [
    | inl n ↦ rw (n, live) refl
    | inr (e, f) ↦ elim (Bool-cases (is_expired e.expire_at now)) [
      | inl t ↦ rw (f, t, live) refl
      | inr t ↦ rw (f, t, live) refl
    ]
  ]

  pub live_kept : (j : Key) → visible now ((live d k now).0 j) ≡ visible now (d j)
  unfolding live live_at visible
  live_kept j = elim (Option-cases (d k)) [
    | inl n ↦ rw (n, live) refl
    | inr (e, f) ↦ elim (Bool-cases (is_expired e.expire_at now)) [
      | inl t ↦ rw (f, t, live) (drop_hidden now d k (rw (f, visible) (rw t refl)) j)
      | inr t ↦ rw (f, t, live) refl
    ]
  ]

time_left-remaining : (x now : ℕ) → time_left x now ≡ remaining x now
unfolding time_left remaining
time_left-remaining zero now = refl
time_left-remaining (suc x) now = ground arith

module _ (s : Shard) (now now_mono : ℕ) where
  -- What a read finds is what can be seen.
  read_value :
      (o : Option ℕ)
      → value_of (get_at s o now now_mono).0 (get_at s o now now_mono).1
        ≡ value_in (visible now (entry_at s o))
  unfolding get_at visible
  read_value none = refl
  read_value (some r) = elim (Bool-cases (is_expired (s.expire_at r) now)) [
    | inl t ↦ rw t refl
    | inr t ↦ rw t refl
  ]

  read_hit :
      (o : Option ℕ) → is_hit (get_at s o now now_mono).1 ≡ is_some (visible now (entry_at s o))
  unfolding get_at visible
  read_hit none = refl
  read_hit (some r) = elim (Bool-cases (is_expired (s.expire_at r) now)) [
    | inl t ↦ rw t refl
    | inr t ↦ rw t refl
  ]

  read_ttl :
      (o : Option ℕ)
      → ttl_of (get_at s o now now_mono).0 (get_at s o now now_mono).1 now
        ≡ ttl_in now (visible now (entry_at s o))
  unfolding get_at visible
  read_ttl none = refl
  read_ttl (some r) = elim (Bool-cases (is_expired (s.expire_at r) now)) [
    | inl t ↦ rw t refl
    | inr t ↦ rw t (ap some (time_left-remaining (s.expire_at r) now))
  ]

pub reap_kept :
    (s : Shard) (v : IsSound s) (k : Key) (r now : ℕ)
    → s.entries k ≡ some r
    → is_expired (s.expire_at r) now ≡ true
    → (j : Key) → visible now (shows (reap s k now).0 j) ≡ visible now (shows s j)
unfolding reap expel visible
reap_kept s v k r now f t j =
    rw (f, reap)
      (rw t (
        ap (λ o. visible now o) (shows-remove_entry s v k r f j)
        ∙ drop_hidden now (shows s) k (rw f (rw t refl)) j))

missed-IsSound : (s : Shard) (misses : ℕ) → IsSound s → IsSound (record s { misses = misses })
missed-IsSound s misses v =
    retag-IsSound s v s.last_access s.hits misses s.evictions s.expirations s.rng s.removed

read_kept :
    (s : Shard) (v : IsSound s) (k : Key) (now now_mono : ℕ) (o : Option ℕ)
    → s.entries k ≡ o
    → (j : Key)
    → visible now
        (shows (after_read (get_at s o now now_mono).0 (get_at s o now now_mono).1 k now) j)
      ≡ visible now (shows s j)
unfolding get_at after_read
read_kept s v k now now_mono none f j = refl
read_kept s v k now now_mono (some r) f j = elim (Bool-cases (is_expired (s.expire_at r) now)) [
  | inl t ↦ rw t (
      reap_kept (record s { misses = count s.misses }) (missed-IsSound s (count s.misses) v) k r now
        f t j)
  | inr t ↦ rw t refl
]

module _ (s : Shard) (d : Data) (now : ℕ) (v : IsSound s) (a : Agrees now s d) (k : Key) where
  module _ (now_mono : ℕ) where
    kept :
        Agrees now
          (after_read (get s k now now_mono).0 (get s k now now_mono).1 k now)
          (live d k now).0
    unfolding get
    kept j = read_kept s v k now now_mono (s.entries k) refl j ∙ a j ∙ sym (live_kept d k now j)

    -- For a sound shard that agrees with a reference store on what can be seen at a time, Get
    -- of any key at that time gives the same answer on both, and the two agree afterwards.
    pub lookup-get :
        ((lookup s k now now_mono).1 ≡ (Reference.get d k now).1)
        × Agrees now (lookup s k now now_mono).0 (Reference.get d k now).0
    unfolding lookup get Reference.get
    lookup-get = (
      read_value s now now_mono (s.entries k) ∙ ap value_in (a k ∙ sym (live_answer d k now)),
      kept,
    )

    -- For a sound shard that agrees with a reference store on what can be seen at a time,
    -- Exists of any key at that time gives the same answer on both, and the two agree
    -- afterwards.
    pub exists-exists :
        ((exists s k now now_mono).1 ≡ (Reference.exists d k now).1)
        × Agrees now (exists s k now now_mono).0 (Reference.exists d k now).0
    unfolding exists get Reference.exists
    exists-exists =
        (read_hit s now now_mono (s.entries k) ∙ ap is_some (a k ∙ sym (live_answer d k now)), kept)

    -- For a sound shard that agrees with a reference store on what can be seen at a time, TTL
    -- of any key at that time gives the same answer on both, and the two agree afterwards.
    pub ttl-ttl :
        ((ttl s k now now_mono).1 ≡ (Reference.ttl d k now).1)
        × Agrees now (ttl s k now now_mono).0 (Reference.ttl d k now).0
    unfolding ttl get Reference.ttl
    ttl-ttl = (
      read_ttl s now now_mono (s.entries k)
          ∙ ap (λ o. ttl_in now o) (a k ∙ sym (live_answer d k now)),
      kept,
    )
