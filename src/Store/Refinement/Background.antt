-- ===== src/Store/Refinement/Background.antt =====
-- What runs in the background takes away only what cannot be seen.
use kvstore.Prelude.{
  ℕ, zero, suc, ◌<◌, ◌≤◌, ◌≡◌, refl, ap, sym, ◌∙◌, Bool, true, false, Option, none, some, List, [],
  ◌∷◌, All, arith, length, ◌==◌, if◌then◌else◌, Bool-cases, inl, inr,
}
use kvstore.Store.Entry.{is_expired}
use kvstore.Store.Shard.{Shard, Key, is_some}
use kvstore.Store.Random.{intn}
use kvstore.Store.Evict.{nth, remove_entry}
use kvstore.Store.Operations.{expel, expel_all, draw, sweep}
use kvstore.Store.Invariant.Sound.{IsSound, retag-IsSound}
use kvstore.Store.Invariant.Operations.{expel-IsSound}
use kvstore.Store.Invariant.Sweep.{IsDrawn, Drawn-All, draw-IsDrawn}
use kvstore.Store.Reference.{Data, RefEntry}
use kvstore.Store.Refinement.{shows, visible, Agrees, shows-remove_entry}
use kvstore.Store.Refinement.Answers.{drop_hidden}

abbrev pub IsOver : Shard → ℕ → ℕ → Type 0
IsOver s now r = is_expired (s.expire_at r) now ≡ true

module _ (now : ℕ) where
  pub expel_kept :
      (s : Shard) (v : IsSound s) (r : ℕ)
      → s.entries (s.key r) ≡ some r
      → IsOver s now r
      → (j : Key) → visible now (shows (expel s r) j) ≡ visible now (shows s j)
  unfolding expel visible
  expel_kept s v r f t j =
      ap (λ o. visible now o) (shows-remove_entry s v (s.key r) r f j)
      ∙ drop_hidden now (shows s) (s.key r) (rw f (rw t refl)) j

  IsOver-kept :
      (s : Shard) (r : ℕ) (rs : List ℕ) → All (IsOver s now) rs → All (IsOver (expel s r) now) rs
  unfolding expel remove_entry
  IsOver-kept s r [] h = tt
  IsOver-kept s r (q ∷ rs) h = (h.0, IsOver-kept s r rs h.1)

  -- What one victim leaves for the next ones.
  abbrev Left : Shard → Shard → List ℕ → Type 0
  Left s t rs =
      IsSound t
      × (All (IsDrawn t) rs
          × (All (IsOver t now) rs
              × ((j : Key) → visible now (shows t j) ≡ visible now (shows s j))))

  expel-Left :
      (s : Shard) (v : IsSound s) (r : ℕ) (rs : List ℕ) (b : Bool)
      → is_some (s.slots.index r) ≡ b
      → IsDrawn s r
      → All (IsDrawn s) rs
      → IsOver s now r
      → All (IsOver s now) rs
      → Left s (if b then expel s r else s) rs
  expel-Left s v r rs false e d ds o os = (v, (ds, (os, λ j. refl)))
  expel-Left s v r rs true e d ds o os =
      let live : s.entries (s.key r) ≡ some r = elim d [
        | inl a ↦ a
        | inr b ↦ (let c : false ≡ true = rw b at e in cc)
      ] in
      (
        expel-IsSound s v (s.key r) r live,
        (Drawn-All s v r live rs ds, (IsOver-kept s r rs os, expel_kept s v r live o)),
      )

  expel_all_kept :
      (rs : List ℕ) (s : Shard)
      → IsSound s
      → All (IsDrawn s) rs
      → All (IsOver s now) rs
      → (j : Key) → visible now (shows (expel_all s rs) j) ≡ visible now (shows s j)
  unfolding expel_all
  expel_all_kept [] s v h o j = refl
  expel_all_kept (r ∷ rs) s v h o j =
      let t : Shard = (if is_some (s.slots.index r) then expel s r else s) in
      let (w, (d, (e, same))) =
        expel-Left s v r rs (is_some (s.slots.index r)) refl h.0 h.1 o.0 o.1 in
      expel_all_kept rs t w d e j ∙ same j

  draw-IsOver : (s : Shard) (n state : ℕ) → All (IsOver s now) (draw n s now state).0
  unfolding draw
  draw-IsOver s zero state = tt
  draw-IsOver s (suc n) state =
      let i = intn (length s.ttl_slots.items) state in
      let r = nth s.ttl_slots.items i.0 in
      elim (Bool-cases (is_expired (s.expire_at r) now)) [
        | inl t ↦ rw t (t, draw-IsOver s n i.1)
        | inr t ↦ rw t (draw-IsOver s n i.1)
      ]

  sweep_drawn :
      (s : Shard) (v : IsSound s) (n : ℕ)
      → 0 < length s.ttl_slots.items
      → (j : Key)
      → visible now
          (shows (expel_all (record s { rng = (draw n s now s.rng).1 }) (draw n s now s.rng).0) j)
        ≡ visible now (shows s j)
  sweep_drawn s v n l j =
      expel_all_kept (draw n s now s.rng).0 (record s { rng = (draw n s now s.rng).1 })
        (retag-IsSound s v s.last_access s.hits s.misses s.evictions s.expirations
          (draw n s now s.rng).1 s.removed)
        (draw-IsDrawn s v l n now s.rng) (draw-IsOver s n s.rng) j

  sweep_kept :
      (s : Shard) (v : IsSound s) (wanted : ℕ) (j : Key)
      → visible now (shows (sweep s now wanted).0 j) ≡ visible now (shows s j)
  unfolding sweep
  sweep_kept s v wanted j = elim (Bool-cases (length s.ttl_slots.items == 0)) [
    | inl e ↦ rw e refl
    | inr e ↦ rw e (sweep_drawn s v _ (ground arith) j)
  ]

  -- A sound shard that agrees with a reference store at a time still agrees with it after a
  -- sweep at that time, whatever its sample size.
  pub sweep-Agrees :
      (s : Shard) (d : Data)
      → IsSound s
      → Agrees now s d
      → (wanted : ℕ) → Agrees now (sweep s now wanted).0 d
  sweep-Agrees s d v a wanted j = sweep_kept s v wanted j ∙ a j

  over_later : (later x : ℕ) → now ≤ later → is_expired x now ≡ true → is_expired x later ≡ true
  unfolding is_expired
  over_later later x l e = ground arith

  pub hidden_later :
      (later : ℕ) (o : Option RefEntry)
      → now ≤ later
      → visible later o ≡ visible later (visible now o)
  unfolding visible
  hidden_later later none l = refl
  hidden_later later (some e) l = elim (Bool-cases (is_expired e.expire_at now)) [
    | inl t ↦ rw (t, over_later later e.expire_at l t) refl
    | inr t ↦ rw t refl
  ]

  -- A shard and a reference store that agree at one time agree at every later time.
  pub Agrees-later :
      (s : Shard) (d : Data) (later : ℕ) → now ≤ later → Agrees now s d → Agrees later s d
  Agrees-later s d later l a k =
      hidden_later later (shows s k) l
      ∙ (ap (λ o. visible later o) (a k) ∙ sym (hidden_later later (d k) l))
