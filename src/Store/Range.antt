-- ===== src/Store/Range.antt =====
-- Store.Range and Store.Keys of internal/store/store.go over one shard. The shard does not change
-- between two batches here; the callback sees the listed entries in their order, to the first at
-- which it stops.
pub mod Members
pub mod Restore
pub mod Restored
pub mod Keys
pub mod Tests
use kvstore.Prelude.{
  ℕ, zero, suc, ◌≤◌, Bool, true, false, not, ◌&&◌, ◌||◌, List, [], ◌∷◌, ◌++◌, ltb, leb, ◌==◌,
  if◌then◌else◌, length, take, drop,
}
use kvstore.Store.Entry.{is_expired}
use kvstore.Store.Shard.{Shard, Key}

-- Entry.Clone, of which the callbacks read these fields.
pub record Copy : Type 0 where
  pub key : Key
  pub value : List ℕ
  pub expire_at : ℕ

abbrev pub clone : Shard → ℕ → Copy
clone s r = record { key = s.key r; value = s.value r; expire_at = s.expire_at r }

abbrev pub batch_size : ℕ
batch_size = 256

-- The inner loop: `room` more entries that have not expired are copied.
unfoldable pub fill : Shard → ℕ → ℕ → List ℕ → List Copy
fill s now_ms room [] = []
fill s now_ms zero (r ∷ rs) = []
fill s now_ms (suc room) (r ∷ rs) = elim (is_expired (s.expire_at r) now_ms) [
  | true ↦ fill s now_ms (suc room) rs
  | false ↦ clone s r ∷ fill s now_ms room rs
]

-- The loop over the offset, of which `rest` is the slice from the offset on. The offset grows by a
-- batch's size, also where the inner loop went past it. Fuel for every entry is enough.
unfoldable pub range_from : ℕ → Shard → ℕ → ℕ → List ℕ → List Copy
range_from zero s now_ms size rest = []
range_from (suc fuel) s now_ms size rest =
    let scanned = if ltb (length rest) size then length rest else size in
    let more = range_from fuel s now_ms size (drop scanned rest) in
    if leb scanned 0
    then []
    else fill s now_ms size rest ++ (if leb (length rest) scanned then [] else more)

-- Range over a shard, with a batch's size.
unfoldable pub range : ℕ → Shard → ℕ → List Copy
range size s now_ms = range_from (length s.slots.items) s now_ms size s.slots.items

unfoldable pub has_prefix : List ℕ → List ℕ → Bool
has_prefix b [] = true
has_prefix [] (x ∷ p) = false
has_prefix (y ∷ b) (x ∷ p) = (y == x) && has_prefix b p

-- The loop of Keys over one shard, with room for `room` more keys.
unfoldable pub keys_from : Shard → ℕ → List ℕ → ℕ → List ℕ → List Key
keys_from s now_ms prefix room [] = []
keys_from s now_ms prefix zero (r ∷ rs) = []
keys_from s now_ms prefix (suc room) (r ∷ rs) =
    elim (is_expired (s.expire_at r) now_ms || not (has_prefix (s.key r) prefix)) [
      | true ↦ keys_from s now_ms prefix (suc room) rs
      | false ↦ s.key r ∷ keys_from s now_ms prefix room rs
    ]

-- Store.Keys
unfoldable pub keys : Shard → List ℕ → ℕ → ℕ → List Key
keys s prefix limit now_ms =
    keys_from s now_ms prefix (if limit == 0 then 100 else limit) s.slots.items
