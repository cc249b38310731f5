-- ===== src/Store/Sharded/Steps.antt =====
-- Each operation of the sharded store of internal/store/store.go against the reference store's.
use kvstore.Prelude.{
  ℕ, ◌^◌, ◌<◌, ◌≡◌, refl, ap, sym, ◌∙◌, Bool, true, false, Option, none, some, List, length, key_eq,
  key_eq_refl,
}
use kvstore.Store.Entry.{entry_cost}
use kvstore.Store.Shard.{Shard, Key, is_some}
use kvstore.Store.Operations
use kvstore.Store.Keyspace
use kvstore.Store.Keyspace.{Ttl, lookup, remove, set_expiry}
use kvstore.Store.Reference
use kvstore.Store.Reference.{RefEntry, Data, live, value_in, ttl_in, set_deadline}
use kvstore.Store.Refinement.{visible}
use kvstore.Store.Refinement.Answers.{live_answer, live_kept, lookup-get, exists-exists, ttl-ttl}
use kvstore.Store.Refinement.Writes.{set-set, remove-delete, set_expiry-expire}
use kvstore.Store.Refinement.Session.{read-IsSound, remove-IsSound, set_expiry-IsSound}
use kvstore.Store.Invariant.Sound.{IsSound}
use kvstore.Store.Invariant.Write.{HasRoom}
use kvstore.Store.Invariant.Admission.{set-IsSound}
use kvstore.Store.Sharded.{Store, shard_for, get, set, delete, exists, expire, ttl}
use kvstore.Store.Sharded.Local.{Holds, IsLocal, routed_answer, routed-Holds}

module _ (now : ℕ) (k : Key) where
  read-IsLocal {ℓ} :
      {A : Type ℓ} (φ : Option RefEntry → A)
      → IsLocal A now k (λ d. ((live d k now).0, φ (live d k now).1))
  read-IsLocal φ = record {
    same_answer = λ d d' e. ap φ (live_answer d k now ∙ e ∙ sym (live_answer d' k now));
    same_entry = λ d d' e. live_kept d k now k ∙ e ∙ sym (live_kept d' k now k);
    elsewhere = λ d j t. live_kept d k now j;
  }

  set-IsLocal :
      (value : List ℕ) (x : ℕ) → IsLocal Bool now k (λ d. (Reference.set d k value x, true))
  unfolding Reference.set
  set-IsLocal value x = record {
    same_answer = λ d d' e. refl;
    same_entry = λ d d' e. rw (key_eq_refl k) refl;
    elsewhere = λ d j t. rw t refl;
  }

  delete-IsLocal : IsLocal Bool now k (λ d. Reference.delete d k now)
  unfolding Reference.delete
  delete-IsLocal = record {
    same_answer = λ d d' e. ap is_some (live_answer d k now ∙ e ∙ sym (live_answer d' k now));
    same_entry = λ d d' e. rw (key_eq_refl k) refl;
    elsewhere = λ d j t. rw t (live_kept d k now j);
  }

  module _ (x : ℕ) where
    abbrev redated : Option RefEntry → Option RefEntry
    redated none = none
    redated (some e) = visible now (some (record e { expire_at = x }))

    redated_answer : (m : Data) (o : Option RefEntry) → (set_deadline m k x o).1 ≡ is_some o
    redated_answer m none = refl
    redated_answer m (some e) = refl

    redated_entry :
        (m : Data) (o : Option RefEntry)
        → visible now (m k) ≡ o
        → visible now ((set_deadline m k x o).0 k) ≡ redated o
    redated_entry m none h = h
    redated_entry m (some e) h = rw (key_eq_refl k) refl

    redated_elsewhere :
        (m : Data) (o : Option RefEntry) (j : Key)
        → key_eq k j ≡ false
        → visible now ((set_deadline m k x o).0 j) ≡ visible now (m j)
    redated_elsewhere m none j t = refl
    redated_elsewhere m (some e) j t = rw t refl

    expire-IsLocal : IsLocal Bool now k (λ d. Reference.expire d k x now)
    unfolding Reference.expire
    expire-IsLocal = record {
      same_answer = λ d d' e.
          redated_answer (live d k now).0 (live d k now).1
          ∙ ap is_some (live_answer d k now ∙ e ∙ sym (live_answer d' k now))
          ∙ sym (redated_answer (live d' k now).0 (live d' k now).1);
      same_entry = λ d d' e.
          redated_entry (live d k now).0 (live d k now).1
            (live_kept d k now k ∙ sym (live_answer d k now))
          ∙ ap redated (live_answer d k now ∙ e ∙ sym (live_answer d' k now))
          ∙ sym (
              redated_entry (live d' k now).0 (live d' k now).1
                (live_kept d' k now k ∙ sym (live_answer d' k now)));
      elsewhere =
          λ d j t. redated_elsewhere (live d k now).0 (live d k now).1 j t ∙ live_kept d k now j;
    }

-- Each operation on both stores: the answers, and what holds after it.
module _ (now : ℕ) (s : Store) (d : Data) (h : Holds now s d) (k : Key) where
  abbrev own : Shard
  own = s.shards (shard_for s k)

  abbrev own_sound : IsSound own
  own_sound = h.sound (shard_for s k)

  module _ (now_mono : ℕ) where
    pub get_same : (get s k now now_mono).1 ≡ (Reference.get d k now).1
    unfolding get Reference.get
    get_same =
        routed_answer now s d h k (λ sh. lookup sh k now now_mono) (λ m. Reference.get m k now)
          (read-IsLocal now k value_in) (λ m a. lookup-get own m now own_sound a k now_mono)

    pub get-Holds : Holds now (get s k now now_mono).0 (Reference.get d k now).0
    unfolding get lookup Reference.get
    get-Holds =
        routed-Holds now s d h k (λ sh. lookup sh k now now_mono) (λ m. Reference.get m k now)
          (read-IsLocal now k value_in) (λ m a. lookup-get own m now own_sound a k now_mono)
          (read-IsSound own own_sound k now now_mono)

    pub exists_same : (exists s k now now_mono).1 ≡ (Reference.exists d k now).1
    unfolding exists Reference.exists
    exists_same =
        routed_answer now s d h k (λ sh. Keyspace.exists sh k now now_mono)
          (λ m. Reference.exists m k now) (read-IsLocal now k is_some)
          (λ m a. exists-exists own m now own_sound a k now_mono)

    pub exists-Holds : Holds now (exists s k now now_mono).0 (Reference.exists d k now).0
    unfolding exists Keyspace.exists Reference.exists
    exists-Holds =
        routed-Holds now s d h k (λ sh. Keyspace.exists sh k now now_mono)
          (λ m. Reference.exists m k now) (read-IsLocal now k is_some)
          (λ m a. exists-exists own m now own_sound a k now_mono)
          (read-IsSound own own_sound k now now_mono)

    pub ttl_same : (ttl s k now now_mono).1 ≡ (Reference.ttl d k now).1
    unfolding ttl Reference.ttl
    ttl_same =
        routed_answer now s d h k (λ sh. Keyspace.ttl sh k now now_mono)
          (λ m. Reference.ttl m k now) (read-IsLocal now k (λ o. ttl_in now o))
          (λ m a. ttl-ttl own m now own_sound a k now_mono)

    pub ttl-Holds : Holds now (ttl s k now now_mono).0 (Reference.ttl d k now).0
    unfolding ttl Keyspace.ttl Reference.ttl
    ttl-Holds =
        routed-Holds now s d h k (λ sh. Keyspace.ttl sh k now now_mono) (λ m. Reference.ttl m k now)
          (read-IsLocal now k (λ o. ttl_in now o)) (λ m a. ttl-ttl own m now own_sound a k now_mono)
          (read-IsSound own own_sound k now now_mono)

    pub set-Holds :
        (value : List ℕ) (x : ℕ)
        → own.budget ≡ 0
        → own.exact_lru ≡ false
        → HasRoom own
        → entry_cost (length k) (length value) < 2 ^ 32
        → Holds now (set s k value x now_mono).0 (Reference.set d k value x)
    unfolding set
    set-Holds value x b mode room small =
        routed-Holds now s d h k (λ sh. Operations.set sh k value x now_mono)
          (λ m. (Reference.set m k value x, true)) (set-IsLocal now k value x)
          (λ m a. set-set own m now own_sound a k value x now_mono b)
          (set-IsSound own own_sound mode room k value x now_mono small)

  pub delete_same : (delete s k now).1 ≡ (Reference.delete d k now).1
  unfolding delete
  delete_same =
      routed_answer now s d h k (λ sh. remove sh k now) (λ m. Reference.delete m k now)
        (delete-IsLocal now k) (λ m a. remove-delete own m now own_sound a k)

  pub delete-Holds : Holds now (delete s k now).0 (Reference.delete d k now).0
  unfolding delete remove
  delete-Holds =
      routed-Holds now s d h k (λ sh. remove sh k now) (λ m. Reference.delete m k now)
        (delete-IsLocal now k) (λ m a. remove-delete own m now own_sound a k)
        (remove-IsSound own own_sound k now (own.entries k) refl)

  pub expire_same : (x : ℕ) → (expire s k x now).1 ≡ (Reference.expire d k x now).1
  unfolding expire
  expire_same x =
      routed_answer now s d h k (λ sh. set_expiry sh k x now) (λ m. Reference.expire m k x now)
        (expire-IsLocal now k x) (λ m a. set_expiry-expire own m now own_sound a k x)

  pub expire-Holds :
      (x : ℕ) → HasRoom own → Holds now (expire s k x now).0 (Reference.expire d k x now).0
  unfolding expire set_expiry
  expire-Holds x room =
      routed-Holds now s d h k (λ sh. set_expiry sh k x now) (λ m. Reference.expire m k x now)
        (expire-IsLocal now k x) (λ m a. set_expiry-expire own m now own_sound a k x)
        (set_expiry-IsSound own own_sound room k x now (own.entries k))
