-- ===== src/Store/Lru.antt =====
-- The intrusive list of internal/store/shard.go, used with --exact-lru; its head is the entry
-- that was written last.
use kvstore.Prelude.{ℕ, Bool, false, Option, none, some, ◌≡◌, ◌≢◌, arith, ◌==◌, if◌then◌else◌}

-- The fields `prev` and `next` of every entry, and the ends of the list.
pub record Links : Type 0 where
  pub prev : ℕ → Option ℕ
  pub next : ℕ → Option ℕ
  pub head : Option ℕ
  pub tail : Option ℕ

abbrev pub no_links : Links
no_links = record { prev = λ _. none; next = λ _. none; head = none; tail = none }

-- A store through a pointer.
abbrev pub update {ℓ} : {A : Type ℓ} → (ℕ → A) → ℕ → A → ℕ → A
update f p v q = if p == q then v else f q

module _ {ℓ} {A : Type ℓ} (f : ℕ → A) (p : ℕ) (v : A) where
  pub update_self : update f p v p ≡ v
  update_self = ground arith

  pub update_other : (q : ℕ) → q ≢ p → update f p v q ≡ f q
  update_other q ne = ground arith

-- A store through a pointer that may be nil.
abbrev update? {ℓ} : {A : Type ℓ} → (ℕ → A) → Option ℕ → A → ℕ → A
update? f none v = f
update? f (some p) v = update f p v

abbrev is : Option ℕ → ℕ → Bool
is none r = false
is (some q) r = q == r

abbrev or_else : Option ℕ → Option ℕ → Option ℕ
or_else none d = d
or_else (some q) d = some q

-- `if p != nil { … } else if end == e { end = other }`, the effect on `end`.
abbrev relink : Option ℕ → Option ℕ → ℕ → Option ℕ → Option ℕ
relink none end r other = if is end r then other else end
relink (some p) end r other = end

unfoldable pub push_front : Links → ℕ → Links
push_front l r = record {
  prev = update? (update l.prev r none) l.head (some r);
  next = update l.next r l.head;
  head = some r;
  tail = or_else l.tail (some r);
}

unfoldable pub lru_remove : Links → ℕ → Links
lru_remove l r =
    let before = l.prev r in
    let behind = l.next r in
    record {
      prev = update (update? l.prev behind before) r none;
      next = update (update? l.next before behind) r none;
      head = relink before l.head r behind;
      tail = relink behind l.tail r before;
    }

unfoldable pub move_to_front : Links → ℕ → Links
move_to_front l r = if is l.head r then l else push_front (lru_remove l r) r
