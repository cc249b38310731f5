-- ===== src/Store/Refinement.antt =====
-- The store's operations answer as the reference store does.
pub mod Answers
pub mod Writes
pub mod Growth
pub mod Background
pub mod Session
pub mod Purge
use kvstore.Prelude.{
  ℕ, ◌+◌, ◌≤◌, ◌<◌, ◌≡◌, ◌≢◌, refl, ap, sym, subst, ◌∙◌, Bool, true, false, not, Option, none, some,
  List, [], ◌∷◌, arith, ltb, leb, ◌==◌, if◌then◌else◌, length, Option-cases, Bool-cases, inl, inr,
  some_eq, key_eq, key_eq→eq, key_eq_refl,
}
use kvstore.Store.Entry.{is_expired}
use kvstore.Store.Lru.{update, update_self, update_other}
use kvstore.Store.Shard.{Shard, Key, assign, is_some}
use kvstore.Store.Evict.{remove_entry, admit}
use kvstore.Store.Operations.{
  hit, miss, needs_reap, get_at, get, overwrite, insert, set_at, set, delete, set_deadline, expire,
  expel, reap,
}
use kvstore.Store.Keyspace.{
  after_read, lookup, exists, ttl, remove_at, remove, set_expiry_at, set_expiry,
}
use kvstore.Store.Reference.{RefEntry, Data, live_at, live}
use kvstore.Store.Reference
use kvstore.Store.Invariant.Sound.{IsSound}

abbrev pub entry_at : Shard → Option ℕ → Option RefEntry
entry_at s none = none
entry_at s (some r) = some (record { value = s.value r; expire_at = s.expire_at r })

-- The map that a shard holds.
abbrev pub shows : Shard → Data
shows s k = entry_at s (s.entries k)

-- What can still be seen of an entry.
unfoldable pub visible : ℕ → Option RefEntry → Option RefEntry
visible now none = none
visible now (some e) = if is_expired e.expire_at now then none else some e

-- A shard and a reference store agree on what can be seen.
abbrev pub Agrees : ℕ → Shard → Data → Type 0
Agrees now s d = (k : Key) → visible now (shows s k) ≡ visible now (d k)

module _ (s : Shard) (v : IsSound s) (k : Key) (r : ℕ) (e : s.entries k ≡ some r) where
  own_key : s.key r ≡ k
  own_key = v.keyed k r e

  other : (j : Key) (q : ℕ) → s.entries j ≡ some q → key_eq k j ≡ false → q ≢ r
  other j q f n c =
      let same : k ≡ j = sym (v.keyed k r e) ∙ ap s.key (sym c) ∙ v.keyed j q f in
      let t = subst (λ x. key_eq k x ≡ true) same (key_eq_refl k) in cc

  pub shows-remove_entry : (j : Key) → shows (remove_entry s r) j ≡ assign (shows s) k none j
  unfolding remove_entry
  shows-remove_entry j =
      rw own_key (elim (Bool-cases (key_eq k j)) [ inl t ↦ rw t refl | inr t ↦ rw t refl ])

  pub shows-set_deadline :
      (x : ℕ) (j : Key)
      → shows (set_deadline s r x) j
        ≡ assign (shows s) k (some (record { value = s.value r; expire_at = x })) j
  unfolding set_deadline
  shows-set_deadline x j = elim (Bool-cases (key_eq k j)) [
    | inl t ↦ rw (t, sym (key_eq→eq k j t), e, update_self s.expire_at r x) refl
    | inr t ↦ elim (Option-cases (s.entries j)) [
      | inl n ↦ rw (t, n) refl
      | inr (q, f) ↦ rw (t, f, update_other s.expire_at r x q (other j q f t)) refl
    ]
  ]

  pub shows-overwrite :
      (value : List ℕ) (x now_mono cost old : ℕ) (j : Key)
      → shows (overwrite s r value x now_mono cost old) j
        ≡ assign (shows s) k (some (record { value = value; expire_at = x })) j
  unfolding overwrite
  shows-overwrite value x now_mono cost old j = elim (Bool-cases (key_eq k j)) [
    | inl t ↦
        rw (t, sym (key_eq→eq k j t), e, update_self s.expire_at r x, update_self s.value r value)
          refl
    | inr t ↦ elim (Option-cases (s.entries j)) [
      | inl n ↦ rw (t, n) refl
      | inr (q, f) ↦
          rw
            (
              t,
              f,
              update_other s.expire_at r x q (other j q f t),
              update_other s.value r value q (other j q f t),
            )
            refl
    ]
  ]

pub shows-insert :
    (s : Shard) (v : IsSound s) (k : Key) (value : List ℕ) (x now_mono cost : ℕ) (j : Key)
    → shows (insert s k value x now_mono cost) j
      ≡ assign (shows s) k (some (record { value = value; expire_at = x })) j
unfolding insert
shows-insert s v k value x now_mono cost j = elim (Bool-cases (key_eq k j)) [
  | inl t ↦ rw (t, update_self s.expire_at s.fresh x, update_self s.value s.fresh value) refl
  | inr t ↦ elim (Option-cases (s.entries j)) [
    | inl n ↦ rw (t, n) refl
    | inr (q, f) ↦
        let l = (v.held q (v.mapped j q f)).1 in
        let ne : q ≢ s.fresh = omega arith in
        rw (t, f, update_other s.expire_at s.fresh x q ne, update_other s.value s.fresh value q ne)
          refl
  ]
]
