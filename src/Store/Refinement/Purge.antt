-- ===== src/Store/Refinement/Purge.antt =====
-- What PurgeExpired removes, and that it ends.
use kvstore.Prelude.{
  ℕ, zero, suc, ◌+◌, ◌≤◌, ◌<◌, ◌≡◌, refl, ◌∙◌, true, false, Option, some, arith, ltb, ◌==◌, length,
  get_elem?, Option-cases, Bool-cases, inl, inr,
}
use kvstore.Store.Entry.{is_expired}
use kvstore.Store.Shard.{Shard, Key}
use kvstore.Store.Slots.{clear, remove_ttl_slot}
use kvstore.Store.Evict.{remove_entry}
use kvstore.Store.Operations.{expel}
use kvstore.Store.Purge.{purge_batch, purge_at, purge_pass, purge_loop, purge_expired}
use kvstore.Store.Invariant.Index.{get_elem?-lt}
use kvstore.Store.Invariant.Sound.{IsSound}
use kvstore.Store.Invariant.Slices.{Holds, Holds-index, Holds-item, cut_behind, cut_shorter}
use kvstore.Store.Invariant.Operations.{expel-IsSound}
use kvstore.Store.Refinement.{shows, visible}
use kvstore.Store.Refinement.Background.{expel_kept}

module _ (now : ℕ) where
  -- From the index `j` on, no entry with a deadline has expired.
  abbrev Scanned : ℕ → Shard → Type 0
  Scanned j s =
      (p q : ℕ)
      → j ≤ p
      → get_elem? s.ttl_slots.items p ≡ some q
      → is_expired (s.expire_at q) now ≡ false

  -- A sound store that shows the same and has `n` entries with a deadline less.
  pub record Purges (s s' : Shard) (n : ℕ) : Type 0 where
    pub sound : IsSound s'
    pub same : (k : Key) → visible now (shows s' k) ≡ visible now (shows s k)
    pub counts : length s'.ttl_slots.items + n ≡ length s.ttl_slots.items

  module _ (s : Shard) (v : IsSound s) (j r : ℕ) (g : get_elem? s.ttl_slots.items j ≡ some r)
      (over : is_expired (s.expire_at r) now ≡ true) where
    held : Holds s.ttl_slots r
    held = Holds-item s.ttl_slots v.ttl_slice j r g

    expel-Purges : Purges s (expel s r) 1
    unfolding expel remove_entry remove_ttl_slot clear
    expel-Purges = record {
      sound = expel-IsSound s v (s.key r) r (v.ttl_held r held).0;
      same = expel_kept now s v r (v.ttl_held r held).0 over;
      counts = cut_shorter s.ttl_slots v.ttl_slice r held;
    }

    expel-Scanned : Scanned (suc j) s → Scanned j (expel s r)
    unfolding expel remove_entry remove_ttl_slot clear
    expel-Scanned h p q le f =
        let (p', l, f') = cut_behind s.ttl_slots v.ttl_slice r held j p q g le f in
        h p' q (omega arith) f'

  trans-Purges : (s s1 s2 : Shard) (n : ℕ) → Purges s s1 1 → Purges s1 s2 n → Purges s s2 (n + 1)
  trans-Purges s s1 s2 n a b = record {
    sound = b.sound;
    same = λ k. b.same k ∙ a.same k;
    counts = omega (arith, a.counts, b.counts);
  }

  skip-Scanned :
      (s : Shard) (j : ℕ)
      → ((q : ℕ) → get_elem? s.ttl_slots.items j ≡ some q → is_expired (s.expire_at q) now ≡ false)
      → Scanned (suc j) s
      → Scanned j s
  skip-Scanned s j here h p q le f = elim (Bool-cases (ltb j p)) [
    | inl l ↦ h p q (ground arith) f
    | inr l ↦ (let e : p ≡ j = ground arith in here q (rw e at f))
  ]

  -- What a pass with room for `room` removals has done, from `j` indexes on.
  abbrev Passes : ℕ → ℕ → Shard → Shard × ℕ → Type 0
  Passes j room s t = Purges s t.0 t.1 × (t.1 ≤ room) × (t.1 < room → Scanned j s → Scanned 0 t.0)

  nothing-Purges : (s : Shard) → IsSound s → Purges s s 0
  nothing-Purges s v = record { sound = v; same = λ k. refl; counts = omega arith }

  pass-Passes : (j room : ℕ) (s : Shard) → IsSound s → Passes j room s (purge_pass now j room s)
  unfolding purge_pass purge_at
  pass-Passes zero room s v = (nothing-Purges s v, omega arith, λ l h. h)
  pass-Passes (suc j) zero s v = (nothing-Purges s v, omega arith, λ l h. absurd (omega arith))
  pass-Passes (suc j) (suc room) s v = elim (Option-cases (get_elem? s.ttl_slots.items j)) [
    | inl e ↦
        let (a, b, c) = pass-Passes j (suc room) s v in
        rw (e, purge_pass) (a, b, λ l h. c l (skip-Scanned s j (λ q f. absurd (cc)) h))
    | inr (r, g) ↦ elim (Bool-cases (is_expired (s.expire_at r) now)) [
      | inl over ↦
          let p = expel-Purges s v j r g over in
          let (a, b, c) = pass-Passes j room (expel s r) p.sound in
          rw (g, over, purge_pass)
            (
              trans-Purges s (expel s r) _ _ p a,
              omega arith,
              λ l h. c (omega arith) (expel-Scanned s v j r g over h),
            )
      | inr live ↦
          let (a, b, c) = pass-Passes j (suc room) s v in
          rw (g, live, purge_pass)
            (a, b, λ l h. c l (skip-Scanned s j (λ q f. ground (arith, live)) h))
    ]
  ]

  all_scanned : (s : Shard) → Scanned (length s.ttl_slots.items) s
  all_scanned s p q le f = absurd (let l = get_elem?-lt s.ttl_slots.items p q f in omega arith)

  -- What the passes over a shard give.
  abbrev Ended : Shard → Option (Shard × ℕ) → Type 0
  Ended s t = (s' : Shard) × (n : ℕ) × (t ≡ some (s', n)) × Purges s s' n × Scanned 0 s'

  loop-Ended :
      (fuel : ℕ) (s : Shard)
      → IsSound s
      → length s.ttl_slots.items < fuel
      → Ended s (purge_loop now fuel s)
  unfolding purge_loop
  loop-Ended zero s v l = absurd (omega arith)
  loop-Ended (suc fuel) s v l =
      let t = purge_pass now (length s.ttl_slots.items) purge_batch s in
      let (a, b, c) = pass-Passes (length s.ttl_slots.items) purge_batch s v in
      elim (Bool-cases (ltb t.1 purge_batch)) [
        | inl short ↦ (t.0, t.1, rw short refl, a, c (ground arith) (all_scanned s))
        | inr full ↦
            let full_batch : t.1 ≡ purge_batch = ground arith in
            let (s', n, e, d, h) = loop-Ended fuel t.0 a.sound (omega (arith, a.counts)) in
            (
              s',
              t.1 + n,
              rw (full, e) refl,
              record {
                sound = d.sound;
                same = λ k. d.same k ∙ a.same k;
                counts = omega (arith, a.counts, d.counts);
              },
              h,
            )
      ]

  alive :
      (s : Shard)
      → IsSound s
      → Scanned 0 s
      → (k : Key) (q : ℕ) → s.entries k ≡ some q
      → is_expired (s.expire_at q) now ≡ false
  unfolding is_expired
  alive s v h k q e = elim (Bool-cases (s.expire_at q == 0)) [
    | inl none_set ↦ ground arith
    | inr set ↦
        let (p, i, f) = Holds-index s.ttl_slots q (v.ttl_mapped k q e (rw set refl)) in
        h p q (omega arith) f
  ]

  -- The purge of a sound shard ends within its fuel. It leaves a sound shard in which no entry has
  -- expired, and in which every key shows what it showed; and it counts each removal once.
  pub purge_expired_lem :
      (s : Shard)
      → IsSound s
      → (s' : Shard) × (n : ℕ) × (purge_expired now s ≡ some (s', n))
        × Purges s s' n
        × ((k : Key) (q : ℕ) → s'.entries k ≡ some q → is_expired (s'.expire_at q) now ≡ false)
  unfolding purge_expired
  purge_expired_lem s v =
      let (s', n, e, d, h) = loop-Ended (suc (length s.ttl_slots.items)) s v (omega arith) in
      (s', n, e, d, alive s' d.sound h)
