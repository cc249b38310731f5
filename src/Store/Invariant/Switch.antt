-- ===== src/Store/Invariant/Switch.antt =====
-- One entry is put into a slice or taken out of it, and all others stay as they are.
use kvstore.Prelude.{
  ℕ, ◌^◌, ◌≤◌, ◌<◌, ◌≡◌, ◌≢◌, inl, inr, refl, ap, sym, subst, ◌∙◌, Bool, true, false, not, ◌&&◌,
  none, some, arith, ◌==◌, if◌then◌else◌, length, get_elem?,
}
use kvstore.Store.Lru.{update}
use kvstore.Store.Slots.{
  Slice, push, clear, cut_index, cut, add_deadline, remove_ttl_slot, add_ttl_slot, switch_ttl,
}
use kvstore.Store.Invariant.Index.{at}
use kvstore.Store.Invariant.Slices.{
  IsSlice, Holds, cut-IsSlice, cut_rest, cut_keeps, cut_idle, cut_index_self, length-cut,
  push-IsSlice, push-Holds, push_keeps, push_from, push_idle,
}

pub record Switched (t t' : Slice) (r : ℕ) (want : Bool) : Type 0 where
  pub slice : IsSlice t'
  pub from : (q : ℕ) → Holds t' q → q ≢ r → Holds t q
  pub keeps : (q : ℕ) → q ≢ r → Holds t q → Holds t' q
  pub idle : (q : ℕ) → q ≢ r → t.index q ≡ none → t'.index q ≡ none
  pub on : want ≡ true → Holds t' r
  pub off : want ≡ false → t'.index r ≡ none
  pub shrinks : want ≡ false → length t'.items ≤ length t.items

pub not_held : (t : Slice) (r : ℕ) → t.index r ≡ none → Holds t r → ⊥
not_held t r e h = let c : none ≡ some r = rw e at h in cc

-- An entry that the new slice holds is not the one that was taken out.
pub off_ne : (t t' : Slice) (r q : ℕ) → Switched t t' r false → Holds t' q → q ≢ r
off_ne t t' r q w h c = not_held t' r (w.off refl) (subst (λ x. Holds t' x) c h)

clear_pointwise :
    (t : Slice) (r : ℕ) → t.index r ≡ none → (q : ℕ) → update t.index r none q ≡ t.index q
clear_pointwise t r e q = ground arith

clear_idle_of : (t : Slice) {r : ℕ} → t.index r ≡ none → clear t r ≡ t
unfolding clear
clear_idle_of t {r} e = λ i. record { items = t.items; index = λ q. clear_pointwise t r e q i }

module _ (t : Slice) (ok : IsSlice t) (r : ℕ) where
  pub cut-Switched : Holds t r → Switched t (cut t r) r false
  cut-Switched h = record {
    slice = cut-IsSlice t ok r h;
    from = λ q f ne. (cut_rest t ok r h q f).0;
    keeps = λ q ne f. cut_keeps t ok r h q f ne;
    idle = λ q ne f. cut_idle t ok r h q f;
    on = λ c. cc;
    off = λ c. cut_index_self t ok r h;
    shrinks = λ c. length-cut t ok r h;
  }

  pub push-Switched :
      ((j : ℕ) → get_elem? t.items j ≢ some r)
      → length t.items < 2 ^ 31
      → Switched t (push t r) r true
  push-Switched out room = record {
    slice = push-IsSlice t ok r out room;
    from = λ q f ne. elim (push_from t ok r out room q f) [ inl h ↦ h | inr e ↦ absurd (ne e) ];
    keeps = λ q ne f. push_keeps t ok r out room q f;
    idle = λ q ne f. push_idle t ok r out room q ne f;
    on = λ c. push-Holds t ok r out room;
    off = λ c. cc;
    shrinks = λ c. cc;
  }

  stay_on : Holds t r → Switched t t r true
  stay_on h = record {
    slice = ok;
    from = λ q f ne. f;
    keeps = λ q ne f. f;
    idle = λ q ne f. f;
    on = λ c. h;
    off = λ c. cc;
    shrinks = λ c. cc;
  }

  stay_off : t.index r ≡ none → Switched t t r false
  stay_off h = record {
    slice = ok;
    from = λ q f ne. f;
    keeps = λ q ne f. f;
    idle = λ q ne f. f;
    on = λ c. cc;
    off = λ c. h;
    shrinks = λ c. omega arith;
  }

  pub absent : t.index r ≡ none → (j : ℕ) → get_elem? t.items j ≢ some r
  absent e j g = let c : none ≡ some j = sym e ∙ ok j r g in cc

  clear_other : (q : ℕ) → q ≢ r → (clear t r).index q ≡ t.index q
  unfolding clear
  clear_other q ne = ground arith

  -- Clearing the index of an entry that is not in the slice.
  clear-Switched : ((j : ℕ) → get_elem? t.items j ≢ some r) → Switched t (clear t r) r false
  unfolding clear
  clear-Switched out = record {
    slice = λ j q g. let ne : r ≢ q = λ c. out j (rw c g) in ground (arith, ne, ok j q g);
    from = λ q f ne. sym (ap (at t.items) (clear_other q ne)) ∙ f;
    keeps = λ q ne f. ap (at t.items) (clear_other q ne) ∙ f;
    idle = λ q ne f. ground arith;
    on = λ c. cc;
    off = λ c. ground arith;
    shrinks = λ c. omega arith;
  }

  cut_nothing : t.index r ≡ none → cut t r ≡ t
  unfolding cut cut_index
  cut_nothing e = rw e

  remove_held : Holds t r → Switched t (remove_ttl_slot t r) r false
  unfolding remove_ttl_slot
  remove_held h = rw (clear_idle_of (cut t r) (cut_index_self t ok r h)) (cut-Switched h)

  remove_idle : t.index r ≡ none → Switched t (remove_ttl_slot t r) r false
  unfolding remove_ttl_slot
  remove_idle e = rw (cut_nothing e, clear_idle_of t e) (stay_off e)

  pub remove_ttl_slot-Switched :
      (had : Bool)
      → (had ≡ true → Holds t r)
      → (had ≡ false → t.index r ≡ none)
      → Switched t (remove_ttl_slot t r) r false
  remove_ttl_slot-Switched true held idle = remove_held (held refl)
  remove_ttl_slot-Switched false held idle = remove_idle (idle refl)

  add_ttl_slot_idle : t.index r ≡ none → add_ttl_slot t r ≡ push t r
  unfolding add_ttl_slot
  add_ttl_slot_idle e = rw (e, add_ttl_slot)

  -- A new deadline puts the entry into the slice or takes it out.
  pub switch_ttl-Switched :
      (expire_at : ℕ) (had : Bool)
      → (had ≡ true → Holds t r)
      → (had ≡ false → t.index r ≡ none)
      → length t.items < 2 ^ 31
      → Switched t (switch_ttl t r expire_at had) r (not (expire_at == 0))
  unfolding switch_ttl
  switch_ttl-Switched expire_at had held idle room = cases (expire_at == 0) had held idle
    where
      cases :
          (zero had : Bool)
          → (had ≡ true → Holds t r)
          → (had ≡ false → t.index r ≡ none)
          → Switched t
              (if not zero && not had
                then add_ttl_slot t r
                else if zero && had
                then remove_ttl_slot t r
                else t)
              r
              (not zero)
      cases true true held idle = remove_held (held refl)
      cases true false held idle = stay_off (idle refl)
      cases false true held idle = stay_on (held refl)
      cases false false held idle =
          rw (add_ttl_slot_idle (idle refl)) (push-Switched (absent (idle refl)) room)

  -- A new entry, which is not in the slice, is put into it if it has a deadline.
  pub add_deadline-Switched :
      (expire_at : ℕ)
      → ((j : ℕ) → get_elem? t.items j ≢ some r)
      → length t.items < 2 ^ 31
      → Switched t (add_deadline t r expire_at) r (not (expire_at == 0))
  unfolding add_deadline
  add_deadline-Switched expire_at out room = cases (expire_at == 0)
    where
      cases : (zero : Bool) → Switched t (if zero then clear t r else push t r) r (not zero)
      cases true = clear-Switched out
      cases false = push-Switched out room
