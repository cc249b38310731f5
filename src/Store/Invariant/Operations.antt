-- ===== src/Store/Invariant/Operations.antt =====
-- Every operation of a shard keeps its invariant.
use kvstore.Prelude.{
  ℕ, ◌≡◌, inl, inr, refl, Bool, true, false, Option, none, some, [], ◌∷◌, ◌++◌, if◌then◌else◌,
  Option-cases, Bool-cases,
}
use kvstore.Store.Entry.{is_expired}
use kvstore.Store.Lru.{update}
use kvstore.Store.Shard.{Shard, Key, expired, count}
use kvstore.Store.Operations.{
  Found, hit, needs_reap, get_at, get, delete, expire, expel, reap, flush,
}
use kvstore.Store.Invariant.Slices.{Holds-index}
use kvstore.Store.Invariant.Sound.{IsSound}
use kvstore.Store.Shard.{new_shard, Policy}
use kvstore.Store.Evict.{remove_entry}
use kvstore.Store.Invariant.Sound.{retag-IsSound, remove_entry-IsSound}
use kvstore.Store.Invariant.Write.{HasRoom, set_deadline-IsSound}

pub new_shard-IsSound :
    (sample_k batch_max seed : ℕ) (exact_lru : Bool) (policy : Policy)
    → IsSound (new_shard sample_k batch_max seed exact_lru policy)
unfolding new_shard
new_shard-IsSound sample_k batch_max seed exact_lru policy = record {
  slice = λ j q h. cc;
  held = λ q h. cc;
  keyed = λ k q h. cc;
  mapped = λ k q h. cc;
  ttl_slice = λ j q h. cc;
  ttl_held = λ q h. cc;
  ttl_mapped = λ k q h d. cc;
  ttl_idle = λ k q h d. cc;
  sized = λ k q h. cc;
  accounted = refl;
}

pub flush-IsSound : (s : Shard) → IsSound (flush s)
unfolding flush
flush-IsSound s = record {
  slice = λ j q h. cc;
  held = λ q h. let (j, own, g) = Holds-index (flush s).slots q h in cc;
  keyed = λ k q h. cc;
  mapped = λ k q h. cc;
  ttl_slice = λ j q h. cc;
  ttl_held = λ q h. let (j, own, g) = Holds-index (flush s).ttl_slots q h in cc;
  ttl_mapped = λ k q h d. cc;
  ttl_idle = λ k q h d. cc;
  sized = λ k q h. cc;
  accounted = refl;
}

module _ (s : Shard) (v : IsSound s) where
  pub get-IsSound : (k : Key) (now_ms now_mono : ℕ) → IsSound (get s k now_ms now_mono).0
  unfolding get get_at
  get-IsSound k now_ms now_mono = at_found (s.entries k)
    where
      missed : IsSound (record s { misses = count s.misses })
      missed =
          retag-IsSound s v s.last_access s.hits (count s.misses) s.evictions s.expirations s.rng
            s.removed

      by_deadline :
          (r : ℕ) (b : Bool)
          → let t : Shard × Found =
              (if b then (record s { misses = count s.misses }, needs_reap) else (
                record s { last_access = update s.last_access r now_mono; hits = count s.hits },
                hit r,
              )) in
            IsSound t.0
      by_deadline r true = missed
      by_deadline r false =
          retag-IsSound s v (update s.last_access r now_mono) (count s.hits) s.misses s.evictions
            s.expirations s.rng s.removed

      at_found : (o : Option ℕ) → IsSound (get_at s o now_ms now_mono).0
      at_found none = missed
      at_found (some r) = by_deadline r (is_expired (s.expire_at r) now_ms)

  pub expel-IsSound : (k : Key) (r : ℕ) → s.entries k ≡ some r → IsSound (expel s r)
  unfolding expel remove_entry
  expel-IsSound k r live =
      retag-IsSound (remove_entry s r) (remove_entry-IsSound s v k r live) s.last_access s.hits
        s.misses s.evictions (count s.expirations) s.rng (s.removed ++ ((s.key r, expired) ∷ []))

  pub delete-IsSound : (k : Key) → IsSound (delete s k).0
  unfolding delete
  delete-IsSound k = elim (Option-cases (s.entries k)) [
    | inl e ↦ rw (e, delete) v
    | inr (r, e) ↦ rw (e, delete) (remove_entry-IsSound s v k r e)
  ]

  pub expire-IsSound : HasRoom s → (k : Key) (expire_at : ℕ) → IsSound (expire s k expire_at).0
  unfolding expire
  expire-IsSound f k expire_at = elim (Option-cases (s.entries k)) [
    | inl e ↦ rw (e, expire) v
    | inr (r, e) ↦ rw (e, expire) (set_deadline-IsSound s v f k r e expire_at)
  ]

  pub reap-IsSound : (k : Key) (now_ms : ℕ) → IsSound (reap s k now_ms).0
  unfolding reap
  reap-IsSound k now_ms = elim (Option-cases (s.entries k)) [
    | inl e ↦ rw (e, reap) v
    | inr (r, e) ↦ elim (Bool-cases (is_expired (s.expire_at r) now_ms)) [
      | inl d ↦ rw (e, d, reap) (expel-IsSound k r e)
      | inr d ↦ rw (e, d, reap) v
    ]
  ]
