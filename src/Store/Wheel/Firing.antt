-- ===== src/Store/Wheel/Firing.antt =====
-- What the expirer removes.
use kvstore.Prelude.{
  ℕ, ◌≤◌, ◌≡◌, refl, ◌∙◌, Option, none, some, List, [], ◌∷◌, arith, ◌==◌, length, Bool-cases, inl,
  inr,
}
use kvstore.Store.Entry.{is_expired}
use kvstore.Store.Shard.{Shard, Key}
use kvstore.Store.Wheel.{Timer, Wheel, advance, fire_at, fire_all, run_once}
use kvstore.Store.Invariant.Sound.{IsSound}
use kvstore.Store.Invariant.Operations.{expel-IsSound}
use kvstore.Store.Refinement.{shows, visible}
use kvstore.Store.Refinement.Background.{expel_kept}

module _ (now : ℕ) where
  -- A sound store that shows the same.
  abbrev pub Keeps : Shard → Shard → Type 0
  Keeps s s' = IsSound s' × ((k : Key) → visible now (shows s' k) ≡ visible now (shows s k))

  fire_at-Keeps :
      (s : Shard) (v : IsSound s) (t : Timer) (o : Option ℕ)
      → s.entries t.key ≡ o
      → Keeps s (fire_at s o t now).0
  unfolding fire_at
  fire_at-Keeps s v t none f = (v, λ k. refl)
  fire_at-Keeps s v t (some r) f = elim (Bool-cases (s.expire_at r == t.expire_at)) [
    | inr e ↦ rw e (v, λ k. refl)
    | inl e ↦ elim (Bool-cases (is_expired (s.expire_at r) now)) [
      | inr d ↦ rw (e, d) (v, λ k. refl)
      | inl d ↦
          let own = v.keyed t.key r f in
          rw (e, d) (expel-IsSound s v t.key r f, expel_kept now s v r (rw own f) d)
    ]
  ]

  fire_all-Keeps : (due : List Timer) (s : Shard) → IsSound s → Keeps s (fire_all s due now).0
  unfolding fire_all
  fire_all-Keeps [] s v = (v, λ k. refl)
  fire_all-Keeps (t ∷ due) s v =
      let (u, a) = fire_at-Keeps s v t (s.entries t.key) refl in
      let (w, b) = fire_all-Keeps due (fire_at s (s.entries t.key) t now).0 u in (w, λ k. b k ∙ a k)

  fire_all_count : (due : List Timer) (s : Shard) → (fire_all s due now).1 ≤ length due
  unfolding fire_all
  fire_all_count [] s = omega arith
  fire_all_count (t ∷ due) s =
      ground (arith, fire_all_count due (fire_at s (s.entries t.key) t now).0)

  -- RunOnce on any wheel, also one whose timers are stale or belong to other keys, leaves a sound
  -- shard sound and takes away nothing that a client can still see; and it counts no more removals
  -- than timers came due.
  pub run_once-Keeps :
      (w : Wheel) (s : Shard)
      → IsSound s
      → Keeps s (run_once w s now).1 × ((run_once w s now).2 ≤ length (advance w now).1)
  unfolding run_once
  run_once-Keeps w s v = (fire_all-Keeps (advance w now).1 s v, fire_all_count (advance w now).1 s)
