-- ===== src/Store/Refinement/Writes.antt =====
-- The writes of the store against the same writes of the reference store, without a memory limit.
use kvstore.Prelude.{
  ℕ, ◌≡◌, refl, ap, sym, ◌∙◌, Bool, true, Option, none, some, List, Bool-cases, inl, inr, key_eq,
  key_eq→eq,
}
use kvstore.Store.Entry.{is_expired}
use kvstore.Store.Shard.{Shard, Key, assign, is_some}
use kvstore.Store.Evict.{admit}
use kvstore.Store.Operations.{overwrite, insert, set_at, set, delete, expire}
use kvstore.Store.Keyspace.{remove_at, remove, set_expiry_at, set_expiry}
use kvstore.Store.Reference.{RefEntry, Data, live_at, live, value_in, ttl_in}
use kvstore.Store.Reference
use kvstore.Store.Invariant.Sound.{IsSound}
use kvstore.Store.Refinement.{
  shows, entry_at, visible, Agrees, shows-remove_entry, shows-set_deadline, shows-overwrite,
  shows-insert,
}
use kvstore.Store.Entry.{entry_cost}
use kvstore.Prelude.{length}
use kvstore.Store.Refinement.Answers.{assign_same, live_answer, live_kept, reap_kept}

shows-set :
    (s : Shard) (v : IsSound s) (k : Key) (value : List ℕ) (x now_mono : ℕ) (o : Option ℕ)
    → s.entries k ≡ o
    → s.budget ≡ 0
    → (j : Key)
    → shows (set_at s o k value x now_mono).0 j
      ≡ assign (shows s) k (some (record { value = value; expire_at = x })) j
unfolding set_at admit insert overwrite
shows-set s v k value x now_mono none f b j =
    rw b (shows-insert s v k value x now_mono (entry_cost (length k) (length value)) j)
shows-set s v k value x now_mono (some r) f b j =
    rw b (
      shows-overwrite s v k r f value x now_mono (entry_cost (length k) (length value)) (s.size r)
        j)

set_admitted :
    (s : Shard) (k : Key) (value : List ℕ) (x now_mono : ℕ) (o : Option ℕ)
    → s.budget ≡ 0
    → (set_at s o k value x now_mono).1 ≡ true
unfolding set_at admit
set_admitted s k value x now_mono none b = rw b refl
set_admitted s k value x now_mono (some r) b = rw b refl

shows-remove :
    (s : Shard) (v : IsSound s) (k : Key) (now : ℕ) (o : Option ℕ)
    → s.entries k ≡ o
    → (j : Key) → shows (remove_at s o k now).0 j ≡ assign (shows s) k none j
unfolding remove_at delete
shows-remove s v k now none f j =
    rw (f, delete)
      (elim (Bool-cases (key_eq k j)) [
        | inl t ↦ rw (t, sym (key_eq→eq k j t), f) refl
        | inr t ↦ rw t refl
      ])
shows-remove s v k now (some r) f j = elim (Bool-cases (is_expired (s.expire_at r) now)) [
  | inl t ↦ rw t (shows-remove_entry s v k r f j)
  | inr t ↦ rw t (rw (f, delete) (shows-remove_entry s v k r f j))
]

remove_answer :
    (s : Shard) (k : Key) (now : ℕ) (o : Option ℕ)
    → s.entries k ≡ o
    → (remove_at s o k now).1 ≡ is_some (visible now (entry_at s o))
unfolding remove_at delete visible
remove_answer s k now none f = rw (f, delete) refl
remove_answer s k now (some r) f = elim (Bool-cases (is_expired (s.expire_at r) now)) [
  | inl t ↦ rw t refl
  | inr t ↦ rw t (rw (f, delete) refl)
]

module _ (s : Shard) (d : Data) (now : ℕ) (v : IsSound s) (a : Agrees now s d) (k : Key) where
  -- A sound shard without a memory limit that agrees with a reference store at a time admits
  -- every Set, and the two agree after it.
  pub set-set :
      (value : List ℕ) (x now_mono : ℕ)
      → s.budget ≡ 0
      → ((set s k value x now_mono).1 ≡ true)
        × Agrees now (set s k value x now_mono).0 (Reference.set d k value x)
  unfolding set Reference.set
  set-set value x now_mono b = (
    set_admitted s k value x now_mono (s.entries k) b,
    λ j.
        ap (λ o. visible now o) (shows-set s v k value x now_mono (s.entries k) refl b j)
        ∙ assign_same now (shows s) d k (some (record { value = value; expire_at = x })) a j,
  )

  -- What the reference store shows after an access of the key.
  accessed : (j : Key) → visible now (shows s j) ≡ visible now ((live d k now).0 j)
  accessed j = a j ∙ sym (live_kept d k now j)

  -- For a sound shard that agrees with a reference store on what can be seen at a time, Delete
  -- of any key at that time gives the same answer on both, and the two agree afterwards.
  pub remove-delete :
      ((remove s k now).1 ≡ (Reference.delete d k now).1)
      × Agrees now (remove s k now).0 (Reference.delete d k now).0
  unfolding remove Reference.delete
  remove-delete = (
    remove_answer s k now (s.entries k) refl ∙ ap is_some (a k ∙ sym (live_answer d k now)),
    λ j.
        ap (λ o. visible now o) (shows-remove s v k now (s.entries k) refl j)
        ∙ assign_same now (shows s) (live d k now).0 k none accessed j,
  )

  abbrev Same : Shard × Bool → Data × Bool → Type 0
  Same p q = (p.1 ≡ q.1) × Agrees now p.0 q.0

  set_expiry_lem :
      (x : ℕ) (o : Option ℕ)
      → s.entries k ≡ o
      → Same
          (set_expiry_at s o k x now)
          (Reference.set_deadline (live d k now).0 k x (visible now (entry_at s o)))
  unfolding set_expiry_at expire visible
  set_expiry_lem x none f = rw (f, expire) (refl, accessed)
  set_expiry_lem x (some r) f = elim (Bool-cases (is_expired (s.expire_at r) now)) [
    | inl t ↦ rw t (refl, λ j. reap_kept s v k r now f t j ∙ accessed j)
    | inr t ↦ rw t (
        rw (f, expire)
          (
            refl,
            λ j.
                ap (λ o. visible now o) (shows-set_deadline s v k r f x j)
                ∙ assign_same now (shows s) (live d k now).0 k
                    (some (record { value = s.value r; expire_at = x })) accessed j,
          ))
  ]

  -- For a sound shard that agrees with a reference store on what can be seen at a time, Expire
  -- of any key at that time gives the same answer on both, and the two agree afterwards.
  pub set_expiry-expire :
      (x : ℕ)
      → ((set_expiry s k x now).1 ≡ (Reference.expire d k x now).1)
        × Agrees now (set_expiry s k x now).0 (Reference.expire d k x now).0
  unfolding set_expiry Reference.expire
  set_expiry-expire x = rw (live_answer d k now ∙ sym (a k)) (set_expiry_lem x (s.entries k) refl)
