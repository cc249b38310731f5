-- ===== src/Store/Invariant/Reach.antt =====
-- The invariant of every shard that the operations reach.
use kvstore.Prelude.{
  ℕ, ◌^◌, ◌<◌, ◌||◌, ◌≡◌, Bool, false, List, [], ◌==◌, ltb, leb, length, Bool-cases, inl, inr,
}
use kvstore.Store.Entry.{entry_cost}
use kvstore.Store.Shard.{Shard, Key, Policy, new_shard}
use kvstore.Store.Memory.{set_limit, evict_to_limit}
use kvstore.Store.Operations.{get, set, delete, expire, reap, sweep, flush}
use kvstore.Store.Invariant.Sound.{IsSound}
use kvstore.Store.Invariant.Write.{HasRoom}
use kvstore.Store.Invariant.Operations.{
  new_shard-IsSound, flush-IsSound, get-IsSound, delete-IsSound, expire-IsSound, reap-IsSound,
}
use kvstore.Store.Invariant.Eviction.{evict-Kept}
use kvstore.Store.Invariant.Admission.{set-IsSound}
use kvstore.Store.Invariant.Sweep.{sweep-IsSound}

-- One operation under the shard's lock, with the sampled policies. A write has a cost that fits
-- an uint32, and where an entry may be appended the indices fit an int32.
pub data Step (s : Shard) : Shard → Type 0 where
  gets : (k : Key) (now_ms now_mono : ℕ) → Step s (get s k now_ms now_mono).0
  sets :
      (k : Key) (value : List ℕ) (expire_at now_mono : ℕ)
      → s.exact_lru ≡ false
      → HasRoom s
      → entry_cost (length k) (length value) < 2 ^ 32
      → Step s (set s k value expire_at now_mono).0
  deletes : (k : Key) → Step s (delete s k).0
  expires : (k : Key) (expire_at : ℕ) → HasRoom s → Step s (expire s k expire_at).0
  reaps : (k : Key) (now_ms : ℕ) → Step s (reap s k now_ms).0
  sweeps : (now_ms wanted : ℕ) → Step s (sweep s now_ms wanted).0
  flushes : Step s (flush s)
  limits : (max_memory low_water n : ℕ) → Step s (set_limit s max_memory low_water n)
  drains : s.exact_lru ≡ false → Step s (evict_to_limit s).0

pub data Reach (s : Shard) : Shard → Type 0 where
  here : Reach s s
  next : {t u : Shard} → Reach s t → Step t u → Reach s u

with_limit-IsSound :
    (s : Shard) (v : IsSound s) (budget low_water : ℕ)
    → IsSound (record s { budget = budget; low_water = low_water })
with_limit-IsSound s v budget low_water = record {
  slice = v.slice;
  held = v.held;
  keyed = v.keyed;
  mapped = v.mapped;
  ttl_slice = v.ttl_slice;
  ttl_held = v.ttl_held;
  ttl_mapped = v.ttl_mapped;
  ttl_idle = v.ttl_idle;
  sized = v.sized;
  accounted = v.accounted;
}

set_limit-IsSound :
    (s : Shard) (v : IsSound s) (max_memory low_water n : ℕ)
    → IsSound (set_limit s max_memory low_water n)
unfolding set_limit
set_limit-IsSound s v max_memory low_water n = elim (Bool-cases (ltb 0 max_memory)) [
  | inl e ↦ rw e (with_limit-IsSound s v _ _)
  | inr e ↦ rw e (with_limit-IsSound s v 0 0)
]

evict_to_limit-IsSound :
    (s : Shard) (v : IsSound s) → s.exact_lru ≡ false → IsSound (evict_to_limit s).0
unfolding evict_to_limit
evict_to_limit-IsSound s v mode = elim (Bool-cases ((s.budget == 0) || leb s.mem_bytes s.budget)) [
  | inl e ↦ rw e v
  | inr e ↦ let kept = evict-Kept s v mode [] s.low_water in rw e kept.sound
]

Step-IsSound : {s t : Shard} → Step s t → IsSound s → IsSound t
Step-IsSound {s} (gets k now_ms now_mono) v = get-IsSound s v k now_ms now_mono
Step-IsSound {s} (sets k value expire_at now_mono mode f small) v =
    set-IsSound s v mode f k value expire_at now_mono small
Step-IsSound {s} (deletes k) v = delete-IsSound s v k
Step-IsSound {s} (expires k expire_at f) v = expire-IsSound s v f k expire_at
Step-IsSound {s} (reaps k now_ms) v = reap-IsSound s v k now_ms
Step-IsSound {s} (sweeps now_ms wanted) v = sweep-IsSound s v now_ms wanted
Step-IsSound {s} flushes v = flush-IsSound s
Step-IsSound {s} (limits max_memory low_water n) v = set_limit-IsSound s v max_memory low_water n
Step-IsSound {s} (drains mode) v = evict_to_limit-IsSound s v mode

Reach-keeps : {s t : Shard} → IsSound s → Reach s t → IsSound t
Reach-keeps v here = v
Reach-keeps v (next r st) = Step-IsSound st (Reach-keeps v r)

-- Every shard that the operations reach from a new one, in any order and at any times, with memory
-- limits that are set and changed on the way, so that writes evict and are refused, is sound: the map and both slices agree, each entry keeps its index, and the byte count is the
-- sum of the costs. The writes are those with sampled eviction and a cost that fits 32 bits,
-- and writes and new deadlines happen while the slices have room.
pub Reach-IsSound :
    (sample_k batch_max seed : ℕ) (exact_lru : Bool) (policy : Policy) (t : Shard)
    → Reach (new_shard sample_k batch_max seed exact_lru policy) t
    → IsSound t
Reach-IsSound sample_k batch_max seed exact_lru policy t r =
    Reach-keeps (new_shard-IsSound sample_k batch_max seed exact_lru policy) r
