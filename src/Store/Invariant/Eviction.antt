-- ===== src/Store/Invariant/Eviction.antt =====
-- Eviction keeps the invariant, spares the protected key, and never adds to the byte count.
use kvstore.Prelude.{
  ℕ, zero, suc, ◌+◌, ◌-◌, ◌≤◌, ◌<◌, ◌≡◌, ◌≢◌, ◌⊎◌, inl, inr, refl, subst, ◌∙◌, Bool, true, false,
  ◌||◌, leb, Option, none, some, List, [], ◌∷◌, ◌++◌, arith, ltb, ◌==◌, if◌then◌else◌, length,
  get_elem?, Option-cases, Bool-cases, key_eq,
}
use kvstore.Store.Shard.{Shard, Key, count, evicted}
use kvstore.Store.Evict.{
  remove_entry, better, nth, sample, probe, pool_of, sample_victim, pick_victim, walk_tail,
  evict_one, evict_loop, evict, admit, is_volatile, is_no_eviction,
}
use kvstore.Store.Invariant.Slices.{Holds-item}
use kvstore.Store.Random.{intn, intn-lt}
use kvstore.Store.Invariant.Sound.{
  IsSound, retag-IsSound, remove_entry-IsSound, slots-Switched, ttl-Switched,
}

-- What removals of other entries than that of `protect` leave of the shard.
pub record Kept (s s' : Shard) (protect : Key) : Type 0 where
  pub sound : IsSound s'
  pub same_entry : s'.entries protect ≡ s.entries protect
  pub same_size : s'.size ≡ s.size
  pub same_fresh : s'.fresh ≡ s.fresh
  pub same_budget : s'.budget ≡ s.budget
  pub same_mode : s'.exact_lru ≡ s.exact_lru
  pub fewer : length s'.slots.items ≤ length s.slots.items
  pub fewer_ttl : length s'.ttl_slots.items ≤ length s.ttl_slots.items
  pub less : s'.mem_bytes ≤ s.mem_bytes

module _ {s s' s'' : Shard} {protect : Key} where
  Kept-trans : Kept s s' protect → Kept s' s'' protect → Kept s s'' protect
  Kept-trans a b = record {
    sound = b.sound;
    same_entry = b.same_entry ∙ a.same_entry;
    same_size = b.same_size ∙ a.same_size;
    same_fresh = b.same_fresh ∙ a.same_fresh;
    same_budget = b.same_budget ∙ a.same_budget;
    same_mode = b.same_mode ∙ a.same_mode;
    fewer = omega (arith, a.fewer, b.fewer);
    fewer_ttl = omega (arith, a.fewer_ttl, b.fewer_ttl);
    less = omega (arith, a.less, b.less);
  }

pub nth-live : (pool : List ℕ) (i : ℕ) → i < length pool → get_elem? pool i ≡ some (nth pool i)
nth-live [] i l = absurd (omega arith)
nth-live (x ∷ pool) zero l = refl
nth-live (x ∷ pool) (suc i) l = nth-live pool i (omega arith)

module _ (s : Shard) (v : IsSound s) (protect : Key) where
  Kept-self : (state : ℕ) → Kept s (record s { rng = state }) protect
  Kept-self state = record {
    sound =
        retag-IsSound s v s.last_access s.hits s.misses s.evictions s.expirations state s.removed;
    same_entry = refl;
    same_size = refl;
    same_fresh = refl;
    same_budget = refl;
    same_mode = refl;
    fewer = omega arith;
    fewer_ttl = omega arith;
    less = omega arith;
  }

  -- A victim is an entry of the map under another key.
  abbrev IsVictim : ℕ → Type 0
  IsVictim r = (s.entries (s.key r) ≡ some r) × (key_eq (s.key r) protect ≡ false)

  evict_one-Kept : (r : ℕ) → IsVictim r → Kept s (evict_one s r) protect
  unfolding evict_one remove_entry
  evict_one-Kept r (live, other) =
      let w : IsSound (remove_entry s r) = remove_entry-IsSound s v (s.key r) r live in
      record {
        sound =
            retag-IsSound (remove_entry s r) w s.last_access s.hits s.misses (count s.evictions)
              s.expirations s.rng (s.removed ++ ((s.key r, evicted) ∷ []));
        same_entry = rw other;
        same_size = refl;
        same_fresh = refl;
        same_budget = refl;
        same_mode = refl;
        fewer = (slots-Switched s v (s.key r) r live).shrinks refl;
        fewer_ttl = (ttl-Switched s v (s.key r) r live).shrinks refl;
        less = omega arith;
      }

  abbrev IsPick : Option ℕ → Type 0
  IsPick none = Unit {0}
  IsPick (some r) = IsVictim r

  abbrev AreLive : List ℕ → Type 0
  AreLive pool = (j r : ℕ) → get_elem? pool j ≡ some r → s.entries (s.key r) ≡ some r

  better-IsPick :
      (best : Option ℕ) (cand : ℕ)
      → IsPick best
      → s.entries (s.key cand) ≡ some cand
      → IsPick (better s protect best cand)
  unfolding better
  better-IsPick best cand b l = cases best b (Bool-cases (key_eq (s.key cand) protect))
    where
      cases :
          (best : Option ℕ)
          → IsPick best
          → (key_eq (s.key cand) protect ≡ true) ⊎ (key_eq (s.key cand) protect ≡ false)
          → IsPick (better s protect best cand)
      cases best b (inl e) = rw e b
      cases none b (inr e) = rw e (l, e)
      cases (some q) b (inr e) = rw e (chosen (ltb (s.last_access cand) (s.last_access q)) b (l, e))
        where
          chosen :
              (c : Bool) → IsVictim q → IsVictim cand → IsPick (if c then some cand else some q)
          chosen true x y = y
          chosen false x y = x

  sample-IsPick :
      (k : ℕ) (pool : List ℕ) (state : ℕ) (best : Option ℕ)
      → AreLive pool
      → 0 < length pool
      → IsPick best
      → IsPick (sample k s protect pool state best).0
  unfolding sample
  sample-IsPick zero pool state best a n b = b
  sample-IsPick (suc k) pool state best a n b =
      let i = intn (length pool) state in
      sample-IsPick k pool i.1 (better s protect best (nth pool i.0)) a n (
        better-IsPick best (nth pool i.0) b
          (a i.0 (nth pool i.0) (nth-live pool i.0 (intn-lt (length pool) state n))))

  probe-IsPick : (pool : List ℕ) → AreLive pool → IsPick (probe s protect pool)
  unfolding probe
  probe-IsPick [] a = tt
  probe-IsPick (x ∷ pool) a = elim (Bool-cases (key_eq (s.key x) protect)) [
    | inl e ↦ rw e (probe-IsPick pool (λ j. a (suc j)))
    | inr e ↦ rw e (a 0 x refl, e)
  ]

  sample_victim-IsPick : (pool : List ℕ) → AreLive pool → IsPick (sample_victim s protect pool).0
  unfolding sample_victim
  sample_victim-IsPick [] a = tt
  sample_victim-IsPick (x ∷ xs) a =
      pick (sample s.sample_k s protect (x ∷ xs) s.rng none)
        (sample-IsPick s.sample_k (x ∷ xs) s.rng none a (omega arith) tt)
    where
      pick :
          (r : Option ℕ × ℕ)
          → IsPick r.0
          → IsPick
              (elim r.0 as (λ _. Option ℕ × ℕ) [
                | none ↦ (probe s protect (x ∷ xs), r.1)
                | some b ↦ (some b, r.1)
              ]).0
      pick (none, state) h = probe-IsPick (x ∷ xs) a
      pick (some b, state) h = h

  pool_of-live : AreLive (pool_of s)
  unfolding pool_of
  pool_of-live = by_policy (is_volatile s.policy)
    where
      by_policy : (b : Bool) → AreLive (if b then s.ttl_slots.items else s.slots.items)
      by_policy true j r g = (v.ttl_held r (Holds-item s.ttl_slots v.ttl_slice j r g)).0
      by_policy false j r g = (v.held r (Holds-item s.slots v.slice j r g)).0

  pick_victim-IsPick : s.exact_lru ≡ false → IsPick (pick_victim s protect).0
  unfolding pick_victim
  pick_victim-IsPick e = by_mode s.exact_lru e
    where
      by_mode :
          (b : Bool)
          → b ≡ false
          → IsPick
              (if b
                then (walk_tail (length s.slots.items) s protect s.lru.tail, s.rng)
                else sample_victim s protect (pool_of s)).0
      by_mode true c = cc
      by_mode false c = sample_victim-IsPick (pool_of s) pool_of-live

  pub Kept-refl : Kept s s protect
  Kept-refl = Kept-self s.rng

-- Eviction under the sampled policies.
evict_loop-Kept :
    (left : ℕ) (s : Shard) (target : ℕ) (protect : Key)
    → IsSound s
    → s.exact_lru ≡ false
    → Kept s (evict_loop left s target protect).0 protect
unfolding evict_loop
evict_loop-Kept zero s target protect v mode = Kept-refl s v protect
evict_loop-Kept (suc left) s target protect v mode = elim (Bool-cases (ltb target s.mem_bytes)) [
  | inr e ↦ rw (e, evict_loop) (Kept-refl s v protect)
  | inl e ↦ elim (Option-cases (pick_victim s protect).0) [
    | inl f ↦ rw (e, f, evict_loop) (Kept-self s v protect (pick_victim s protect).1)
    | inr (r, f) ↦
        let s1 = record s { rng = (pick_victim s protect).1 } in
        let k1 = Kept-self s v protect (pick_victim s protect).1 in
        let h = subst (λ p. IsPick s v protect p) f (pick_victim-IsPick s v protect mode) in
        let k2 = evict_one-Kept s1 k1.sound protect r h in
        let rest =
          evict_loop-Kept left (evict_one s1 r) target protect k2.sound (k2.same_mode ∙ mode) in
        rw (e, f, evict_loop) (Kept-trans (Kept-trans k1 k2) rest)
  ]
]

module _ (s : Shard) (v : IsSound s) (mode : s.exact_lru ≡ false) (protect : Key) where
  pub evict-Kept : (target : ℕ) → Kept s (evict s target protect).0 protect
  unfolding evict
  evict-Kept target = by_policy (is_no_eviction s.policy)
    where
      by_policy :
          (b : Bool)
          → Kept s (if b then (s, 0) else evict_loop s.batch_max s target protect).0 protect
      by_policy true = Kept-refl s v protect
      by_policy false = evict_loop-Kept s.batch_max s target protect v mode

  pub admit-Kept : (cost old : ℕ) → Kept s (admit s cost old protect).0 protect
  unfolding admit
  admit-Kept cost old =
      cases (s.budget == 0 || leb cost old) (leb (s.mem_bytes + cost) (s.budget + old))
        (is_no_eviction s.policy)
    where
      cases :
          (a b c : Bool)
          → let r : Shard × Bool =
              (if a
                then (s, true)
                else if b
                then (s, true)
                else if c
                then (s, false)
                else (let s1 = (evict s (s.low_water - (cost - old)) protect).0 in
                    (s1, leb (s1.mem_bytes + cost) (s1.budget + old)))) in
            Kept s r.0 protect
      cases true b c = Kept-refl s v protect
      cases false true c = Kept-refl s v protect
      cases false false true = Kept-refl s v protect
      cases false false false = evict-Kept (s.low_water - (cost - old))

-- An admitted growth fits the budget that the shard then has.
pub admit_fits :
    (s : Shard) (cost old : ℕ) (protect : Key)
    → (admit s cost old protect).1 ≡ true
    → ((admit s cost old protect).0.budget ≢ 0)
    → old < cost
    → (admit s cost old protect).0.mem_bytes + cost ≤ (admit s cost old protect).0.budget + old
unfolding admit
admit_fits s cost old protect h b l = ground arith
