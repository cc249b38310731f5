-- ===== src/Store/Invariant/Sweep.antt =====
-- A sweep keeps the invariant, though an entry may be drawn twice.
use kvstore.Prelude.{
  ℕ, zero, suc, ◌<◌, ◌≡◌, ◌⊎◌, inl, inr, refl, ap, ℕ-cases, ◌∙◌, Bool, true, false, none, some,
  List, [], ◌∷◌, arith, ◌==◌, if◌then◌else◌, length, All, Bool-cases,
}
use kvstore.Store.Entry.{is_expired}
use kvstore.Store.Slots.{cut}
use kvstore.Store.Shard.{Shard}
use kvstore.Store.Operations.{expel, draw, expel_all, sweep}
use kvstore.Store.Invariant.Slices.{Holds-item}
use kvstore.Store.Invariant.Switch.{Switched}
use kvstore.Store.Invariant.Sound.{IsSound}
use kvstore.Store.Shard.{is_some}
use kvstore.Store.Evict.{remove_entry}
use kvstore.Store.Invariant.Sound.{slots-Switched, stays, retag-IsSound}
use kvstore.Store.Random.{intn, intn-lt}
use kvstore.Store.Evict.{nth}
use kvstore.Store.Invariant.Eviction.{nth-live}
use kvstore.Store.Invariant.Operations.{expel-IsSound}

-- An entry that was drawn is still in the map, or it is gone and has the index -1.
abbrev pub IsDrawn : Shard → ℕ → Type 0
IsDrawn s r = (s.entries (s.key r) ≡ some r) ⊎ (s.slots.index r ≡ none)

expel-IsDrawn :
    (s : Shard)
    → IsSound s
    → (r : ℕ) → s.entries (s.key r) ≡ some r
    → (q : ℕ) → IsDrawn s q
    → IsDrawn (expel s r) q
unfolding expel remove_entry
expel-IsDrawn s v r live q d = elim (ℕ-cases q r) [
  | inl e ↦ inr (ap (λ x. (cut s.slots r).index x) e ∙ w.off refl)
  | inr ne ↦ elim d [
    | inl a ↦ inl (stays s v (s.key r) r live q a ne)
    | inr b ↦ inr (w.idle q ne b)
  ]
]
  where
    w : Switched s.slots (cut s.slots r) r false
    w = slots-Switched s v (s.key r) r live

pub Drawn-All :
    (s : Shard)
    → IsSound s
    → (r : ℕ) → s.entries (s.key r) ≡ some r
    → (rs : List ℕ) → All (IsDrawn s) rs
    → All (IsDrawn (expel s r)) rs
Drawn-All s v r live [] h = tt
Drawn-All s v r live (q ∷ rs) h = (expel-IsDrawn s v r live q h.0, Drawn-All s v r live rs h.1)

expel_all-IsSound :
    (rs : List ℕ) (s : Shard) → IsSound s → All (IsDrawn s) rs → IsSound (expel_all s rs)
unfolding expel_all
expel_all-IsSound [] s v h = v
expel_all-IsSound (r ∷ rs) s v h = elim (Bool-cases (is_some (s.slots.index r))) [
  | inr gone ↦ rw gone (expel_all-IsSound rs s v h.1)
  | inl there ↦
      let live : s.entries (s.key r) ≡ some r = elim (h.0) [
        | inl a ↦ a
        | inr b ↦ (let c : false ≡ true = rw b at there in cc)
      ] in
      rw there (
        expel_all-IsSound rs (expel s r) (expel-IsSound s v (s.key r) r live)
          (Drawn-All s v r live rs h.1))
]

-- Every draw is an entry of the map.
pub draw-IsDrawn :
    (s : Shard)
    → IsSound s
    → 0 < length s.ttl_slots.items
    → (n now_ms state : ℕ) → All (IsDrawn s) (draw n s now_ms state).0
unfolding draw
draw-IsDrawn s v l zero now_ms state = tt
draw-IsDrawn s v l (suc n) now_ms state =
    let i = intn (length s.ttl_slots.items) state in
    let r = nth s.ttl_slots.items i.0 in
    let g = nth-live s.ttl_slots.items i.0 (intn-lt (length s.ttl_slots.items) state l) in
    let live = (v.ttl_held r (Holds-item s.ttl_slots v.ttl_slice i.0 r g)).0 in
    taken (is_expired (s.expire_at r) now_ms) (draw n s now_ms i.1).0 (inl live)
      (draw-IsDrawn s v l n now_ms i.1)
  where
    taken :
        {r : ℕ} (b : Bool) (rest : List ℕ)
        → IsDrawn s r
        → All (IsDrawn s) rest
        → All (IsDrawn s) (if b then r ∷ rest else rest)
    taken true rest a h = (a, h)
    taken false rest a h = h

sweep_drawn :
    (s : Shard)
    → IsSound s
    → 0 < length s.ttl_slots.items
    → (n now_ms : ℕ)
    → IsSound (expel_all (record s { rng = (draw n s now_ms s.rng).1 }) (draw n s now_ms s.rng).0)
sweep_drawn s v l n now_ms =
    expel_all-IsSound (draw n s now_ms s.rng).0 _
      (retag-IsSound s v s.last_access s.hits s.misses s.evictions s.expirations
        (draw n s now_ms s.rng).1 s.removed)
      (draw-IsDrawn s v l n now_ms s.rng)

pub sweep-IsSound :
    (s : Shard) → IsSound s → (now_ms wanted : ℕ) → IsSound (sweep s now_ms wanted).0
unfolding sweep
sweep-IsSound s v now_ms wanted = elim (Bool-cases (length s.ttl_slots.items == 0)) [
  | inl e ↦ rw e v
  | inr e ↦ rw e (sweep_drawn s v (ground arith) _ now_ms)
]
