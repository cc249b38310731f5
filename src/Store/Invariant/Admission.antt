-- ===== src/Store/Invariant/Admission.antt =====
-- A write under the memory limit keeps the invariant and stays within the limit.
use kvstore.Prelude.{
  ℕ, ◌^◌, ◌≤◌, ◌<◌, ◌≡◌, ◌≢◌, inl, inr, ap, subst, ◌∙◌, Bool, true, false, none, some, List, arith,
  if◌then◌else◌, length, Option-cases,
}
use kvstore.Store.Entry.{entry_cost}
use kvstore.Store.Shard.{Shard, Key}
use kvstore.Store.Operations.{overwrite, insert, set_at, set}
use kvstore.Store.Invariant.Sound.{IsSound}
use kvstore.Store.Evict.{admit}
use kvstore.Store.Invariant.Write.{HasRoom, overwrite-IsSound}
use kvstore.Store.Invariant.Insert.{insert-IsSound}
use kvstore.Store.Invariant.Eviction.{Kept, admit-Kept}
use kvstore.Store.Invariant.Eviction.{admit_fits}

module _ {s s' : Shard} {k : Key} (q : Kept s s' k) (f : HasRoom s) where
  Kept-HasRoom : HasRoom s'
  Kept-HasRoom = record {
    slots_fit = omega (arith, q.fewer, f.slots_fit);
    ttl_fit = omega (arith, q.fewer_ttl, f.ttl_fit);
  }

module _ (s : Shard) (v : IsSound s) (mode : s.exact_lru ≡ false) (f : HasRoom s) (k : Key)
    (value : List ℕ) (expire_at now_mono : ℕ)
    (small : entry_cost (length k) (length value) < 2 ^ 32) where
  abbrev cost : ℕ
  cost = entry_cost (length k) (length value)

  set_new : s.entries k ≡ none → IsSound (set_at s none k value expire_at now_mono).0
  unfolding set_at
  set_new e =
      let a = admit s cost 0 k in
      let q = admit-Kept s v mode k cost 0 in
      by_answer a.1
        (insert-IsSound a.0 q.sound (Kept-HasRoom q f) k (q.same_entry ∙ e) value expire_at now_mono
          small)
        q.sound
    where
      by_answer :
          {t u : Shard} (b : Bool)
          → IsSound t
          → IsSound u
          → let r : Shard × Bool = (if b then (t, true) else (u, false)) in IsSound r.0
      by_answer true x y = x
      by_answer false x y = y

  set_old :
      (r : ℕ) → s.entries k ≡ some r → IsSound (set_at s (some r) k value expire_at now_mono).0
  unfolding set_at
  set_old r e =
      let a = admit s cost (s.size r) k in
      let q = admit-Kept s v mode k cost (s.size r) in
      by_answer a.1
        (subst (λ n. IsSound (overwrite a.0 r value expire_at now_mono cost n))
          (ap (λ (g : ℕ → ℕ). g r) q.same_size)
          (overwrite-IsSound a.0 q.sound (Kept-HasRoom q f) k r (q.same_entry ∙ e) expire_at value
            now_mono small))
        q.sound
    where
      by_answer :
          {t u : Shard} (b : Bool)
          → IsSound t
          → IsSound u
          → let r : Shard × Bool = (if b then (t, true) else (u, false)) in IsSound r.0
      by_answer true x y = x
      by_answer false x y = y

  pub set-IsSound : IsSound (set s k value expire_at now_mono).0
  unfolding set
  set-IsSound = elim (Option-cases (s.entries k)) [
    | inl e ↦ rw (e, set) (set_new e)
    | inr (r, e) ↦ rw (e, set) (set_old r e)
  ]

  within_new :
      s.budget ≢ 0
      → s.mem_bytes ≤ s.budget
      → (set_at s none k value expire_at now_mono).0.mem_bytes ≤ s.budget
  unfolding set_at insert entry_cost
  within_new b m =
      let q = admit-Kept s v mode k cost 0 in
      ground (arith, q.less, q.same_budget, admit_fits s cost 0 k)

  within_old :
      (r : ℕ)
      → s.budget ≢ 0
      → s.mem_bytes ≤ s.budget
      → (set_at s (some r) k value expire_at now_mono).0.mem_bytes ≤ s.budget
  unfolding set_at overwrite
  within_old r b m =
      let q = admit-Kept s v mode k cost (s.size r) in
      ground (arith, q.less, q.same_budget, admit_fits s cost (s.size r) k)

  -- A sound shard with sampled eviction, room in its slices and a budget, that is within the
  -- budget, is within it after a write of a cost that fits 32 bits, admitted or refused.
  pub set_within_budget :
      s.budget ≢ 0
      → s.mem_bytes ≤ s.budget
      → (set s k value expire_at now_mono).0.mem_bytes ≤ s.budget
  unfolding set
  set_within_budget b m = elim (Option-cases (s.entries k)) [
    | inl e ↦ rw (e, set) (within_new b m)
    | inr (r, e) ↦ rw (e, set) (within_old r b m)
  ]
