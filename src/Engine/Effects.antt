-- ===== src/Engine/Effects.antt =====
-- What the engine's commands do to its shard, and the same operation at two times.
use mathlib.Core.List.{foldl}
use kvstore.Prelude.{
  ℕ, ◌≤◌, ◌≡◌, refl, ap, sym, ◌∙◌, Bool, true, false, Option, none, some, List, [], ◌∷◌, arith,
  if◌then◌else◌,
}
use kvstore.Store.Shard.{Shard, Key, Reason}
use kvstore.Store.Operations
use kvstore.Store.Operations.{sweep}
use kvstore.Store.Keyspace.{remove, set_expiry}
use kvstore.Store.Reference
use kvstore.Store.Reference.{RefEntry, Data, live, set_deadline}
use kvstore.Store.Refinement.{visible}
use kvstore.Store.Refinement.Answers.{assign_same, live_answer, live_kept}
use kvstore.Store.Refinement.Background.{hidden_later}
use kvstore.Wal.Record.{Record}
use kvstore.Engine.{
  Engine, Error, err_closed, err_read_only, deadline, on_store_evict, deliver, mutate, set, delete,
  expire,
}

-- What a client can see at a time is the same.
abbrev pub Same : ℕ → Data → Data → Type 0
Same later d d' = (j : Key) → visible later (d j) ≡ visible later (d' j)

-- The same operation at an earlier time and at the restart, on the reference store.
module _ (now later : ℕ) (le : now ≤ later) (d d' : Data) (same : Same later d d') (k : Key) where
  pub live-later : (j : Key) → visible later ((live d k now).0 j) ≡ visible later (d j)
  live-later j =
      hidden_later now later ((live d k now).0 j) le
      ∙ ap (λ o. visible later o) (live_kept d k now j)
      ∙ sym (hidden_later now later (d j) le)

  lived : Same later (live d k now).0 (live d' k later).0
  lived j = live-later j ∙ same j ∙ sym (live_kept d' k later j)

  pub set-Same :
      (value : List ℕ) (x : ℕ) → Same later (Reference.set d k value x) (Reference.set d' k value x)
  unfolding Reference.set
  set-Same value x = assign_same later d d' k (some (record { value = value; expire_at = x })) same

  pub delete-Same : Same later (Reference.delete d k now).0 (Reference.delete d' k later).0
  unfolding Reference.delete
  delete-Same = assign_same later (live d k now).0 (live d' k later).0 k none lived

  deadline-Same :
      (x : ℕ) (o : Option RefEntry)
      → Same later
          (set_deadline (live d k now).0 k x o).0
          (set_deadline (live d' k later).0 k x o).0
  deadline-Same x none = lived
  deadline-Same x (some e) =
      assign_same later (live d k now).0 (live d' k later).0 k (some (record e { expire_at = x }))
        lived

  pub expire-Same :
      (x : ℕ)
      → visible now (d k) ≡ visible later (d k)
      → Same later (Reference.expire d k x now).0 (Reference.expire d' k x later).0
  unfolding Reference.expire
  expire-Same x settled =
      let found : (live d k now).1 ≡ (live d' k later).1 =
        live_answer d k now ∙ settled ∙ same k ∙ sym (live_answer d' k later) in
      rw found (deadline-Same x (live d' k later).1)

-- A command that was not refused by its two guards.
passed {ℓ κ} :
    {A : Type ℓ} {B : Type κ} (f : A → Option B) (b c : Bool) (x y z : A) {u v : B}
    → f x ≡ some u
    → f y ≡ some v
    → f (if b then x else if c then y else z) ≡ none
    → (if b then x else if c then y else z) ≡ z
passed f true c x y z p q h = absurd (cc)
passed f false true x y z p q h = absurd (cc)
passed f false false x y z p q h = refl

abbrev pub silent : Shard → Shard
silent s = record s { removed = [] }

module _ {ℓ} {X : Type ℓ} where
  deliver_all :
      (es : List (Key × Reason)) (e : Engine X) → (foldl on_store_evict e es).shard ≡ e.shard
  unfolding on_store_evict
  deliver_all [] e = refl
  deliver_all (x ∷ es) e = deliver_all es (on_store_evict e x) ∙ ground arith

  pub deliver_shard : (e : Engine X) (s : Shard) → (deliver e s).shard ≡ silent s
  unfolding deliver
  deliver_shard e s = deliver_all s.removed (record e { shard = record s { removed = [] } })

  mutate_shard {κ} :
      {A : Type κ} (e : Engine X) (r : Record) (now : ℕ)
      (apply : Shard → Shard × A × Option (Error X))
      → (mutate e r now apply).0.shard ≡ silent (apply e.shard).0
  unfolding mutate
  mutate_shard e r now apply = ground (arith, deliver_shard e (apply e.shard).0)

  pub set_shard :
      (e : Engine X) (k : Key) (value : List ℕ) (ttl now mono : ℕ)
      → (set e k value ttl now mono).1 ≡ none
      → (set e k value ttl now mono).0.shard
        ≡ silent (Operations.set e.shard k value (deadline ttl now) mono).0
  unfolding set
  set_shard e k value ttl now mono h =
      ap (λ (p : Engine X × Option (Error X)). p.0.shard)
        (passed (λ p. p.1) e.closed e.read_only (e, some err_closed) (e, some err_read_only) _ refl
          refl h)
      ∙ mutate_shard e _ now _

  pub delete_shard :
      (e : Engine X) (k : Key) (now : ℕ)
      → (delete e k now).2 ≡ none
      → (delete e k now).0.shard ≡ silent (remove e.shard k now).0
  unfolding delete
  delete_shard e k now h =
      ap (λ (p : Engine X × Bool × Option (Error X)). p.0.shard)
        (passed (λ p. p.2) e.closed e.read_only (e, false, some err_closed)
          (e, false, some err_read_only) _ refl refl h)
      ∙ mutate_shard e _ now _

  pub expire_shard :
      (e : Engine X) (k : Key) (ttl now : ℕ)
      → (expire e k ttl now).2 ≡ none
      → (expire e k ttl now).0.shard ≡ silent (set_expiry e.shard k (deadline ttl now) now).0
  unfolding expire
  expire_shard e k ttl now h =
      ap (λ (p : Engine X × Bool × Option (Error X)). p.0.shard)
        (passed (λ p. p.2) e.closed e.read_only (e, false, some err_closed)
          (e, false, some err_read_only) _ refl refl h)
      ∙ mutate_shard e _ now _
