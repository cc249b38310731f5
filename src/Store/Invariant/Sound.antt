-- ===== src/Store/Invariant/Sound.antt =====
-- The invariant of a shard, and the removal of an entry.
use kvstore.Prelude.{
  ℕ, ◌<◌, ◌≡◌, ◌≢◌, inl, inr, ap, sym, ◌∙◌, Bool, true, false, not, none, some, List, arith, ◌==◌,
  length, Bool-cases, key_eq, key_eq→eq, key_eq_refl,
}
use kvstore.Store.Entry.{entry_cost}
use kvstore.Store.Slots.{cut, remove_ttl_slot}
use kvstore.Store.Shard.{Shard, Key, Reason, assign}
use kvstore.Store.Evict.{remove_entry}
use kvstore.Store.Invariant.Sum.{sum_by}
use kvstore.Store.Invariant.Slices.{IsSlice, Holds, cut_sum}
use kvstore.Store.Invariant.Switch.{Switched, off_ne, cut-Switched, remove_ttl_slot-Switched}

abbrev pub has_ttl : Shard → ℕ → Bool
has_ttl s q = not (s.expire_at q == 0)

pub record IsSound (s : Shard) : Type 0 where
  -- The map and the slice of all entries hold the same entries, under their own keys.
  pub slice : IsSlice s.slots
  pub held : (q : ℕ) → Holds s.slots q → (s.entries (s.key q) ≡ some q) × (q < s.fresh)
  pub keyed : (k : Key) (q : ℕ) → s.entries k ≡ some q → s.key q ≡ k
  pub mapped : (k : Key) (q : ℕ) → s.entries k ≡ some q → Holds s.slots q
  -- The second slice holds exactly the entries that have a deadline.
  pub ttl_slice : IsSlice s.ttl_slots
  pub ttl_held :
      (q : ℕ) → Holds s.ttl_slots q → (s.entries (s.key q) ≡ some q) × (has_ttl s q ≡ true)
  pub ttl_mapped :
      (k : Key) (q : ℕ) → s.entries k ≡ some q → has_ttl s q ≡ true → Holds s.ttl_slots q
  pub ttl_idle :
      (k : Key) (q : ℕ) → s.entries k ≡ some q → has_ttl s q ≡ false → s.ttl_slots.index q ≡ none
  -- Every entry has its cost, and the byte count is their sum.
  pub sized :
      (k : Key) (q : ℕ)
      → s.entries k ≡ some q
      → s.size q ≡ entry_cost (length (s.key q)) (length (s.value q))
  pub accounted : s.mem_bytes ≡ sum_by s.size s.slots.items

-- The invariant does not speak of the counters, the access times, the generator and the log.
pub retag-IsSound :
    (s : Shard)
    → IsSound s
    → (last_access : ℕ → ℕ) (hits misses evictions expirations rng : ℕ)
      (removed : List (Key × Reason))
    → IsSound (record s {
      last_access = last_access;
      hits = hits;
      misses = misses;
      evictions = evictions;
      expirations = expirations;
      rng = rng;
      removed = removed;
    })
retag-IsSound s v last_access hits misses evictions expirations rng removed = record {
  slice = v.slice;
  held = v.held;
  keyed = v.keyed;
  mapped = v.mapped;
  ttl_slice = v.ttl_slice;
  ttl_held = v.ttl_held;
  ttl_mapped = v.ttl_mapped;
  ttl_idle = v.ttl_idle;
  sized = v.sized;
  accounted = v.accounted;
}

module _ (s : Shard) (v : IsSound s) (k : Key) (r : ℕ) (live : s.entries k ≡ some r) where
  pub slots-Switched : Switched s.slots (cut s.slots r) r false
  slots-Switched = cut-Switched s.slots v.slice r (v.mapped k r live)

  pub ttl-Switched : Switched s.ttl_slots (remove_ttl_slot s.ttl_slots r) r false
  ttl-Switched =
      remove_ttl_slot-Switched s.ttl_slots v.ttl_slice r (has_ttl s r) (v.ttl_mapped k r live)
        (v.ttl_idle k r live)

  -- What is left in the map.
  left :
      (j : Key) (q : ℕ)
      → assign s.entries (s.key r) none j ≡ some q
      → (s.entries j ≡ some q) × (q ≢ r)
  left j q h = (ground arith, λ e. ground (arith, v.keyed j q, key_eq_refl j))

  pub stays :
      (q : ℕ)
      → s.entries (s.key q) ≡ some q
      → q ≢ r
      → assign s.entries (s.key r) none (s.key q) ≡ some q
  stays q h ne = elim (Bool-cases (key_eq (s.key r) (s.key q))) [
    | inl e ↦
        let p : s.key q ≡ k = sym (key_eq→eq (s.key r) (s.key q) e) ∙ v.keyed k r live in
        let c : some q ≡ some r = sym h ∙ ap s.entries p ∙ live in absurd (ne (cc))
    | inr e ↦ rw e h
  ]

  pub remove_entry-IsSound : IsSound (remove_entry s r)
  unfolding remove_entry
  remove_entry-IsSound = record {
    slice = slots-Switched.slice;
    held = λ q h.
        let ne = off_ne s.slots _ r q slots-Switched h in
        let (e, l) = v.held q (slots-Switched.from q h ne) in (stays q e ne, l);
    keyed = λ j q h. v.keyed j q (left j q h).0;
    mapped = λ j q h. let (e, ne) = left j q h in slots-Switched.keeps q ne (v.mapped j q e);
    ttl_slice = ttl-Switched.slice;
    ttl_held = λ q h.
        let ne = off_ne s.ttl_slots _ r q ttl-Switched h in
        let (e, l) = v.ttl_held q (ttl-Switched.from q h ne) in (stays q e ne, l);
    ttl_mapped =
        λ j q h d. let (e, ne) = left j q h in ttl-Switched.keeps q ne (v.ttl_mapped j q e d);
    ttl_idle = λ j q h d. let (e, ne) = left j q h in ttl-Switched.idle q ne (v.ttl_idle j q e d);
    sized = λ j q h. v.sized j q (left j q h).0;
    accounted = omega (arith, v.accounted, cut_sum s.slots v.slice r (v.mapped k r live) s.size);
  }
