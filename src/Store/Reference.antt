-- ===== src/Store/Reference.antt =====
-- internal/store/reference.go: the reference store, one map from keys to values with deadlines.
use kvstore.Prelude.{
  ℕ, zero, suc, ◌-◌, ◌^◌, leb, Bool, true, false, Option, none, some, List, if◌then◌else◌,
}
use kvstore.Store.Entry.{is_expired}
use kvstore.Store.Shard.{Key, assign, is_some}
use kvstore.Store.Keyspace.{Ttl, never, left}

pub record RefEntry : Type 0 where
  pub value : List ℕ
  pub expire_at : ℕ

abbrev pub Data : Type 0
Data = Key → Option RefEntry

unfoldable pub live_at : Data → Option RefEntry → Key → ℕ → Data × Option RefEntry
live_at m none k now_ms = (m, none)
live_at m (some e) k now_ms =
    if is_expired e.expire_at now_ms then (assign m k none, none) else (m, some e)

-- An expired entry is deleted on the way.
unfoldable pub live : Data → Key → ℕ → Data × Option RefEntry
live m k now_ms = live_at m (m k) k now_ms

abbrev pub value_in : Option RefEntry → Option (List ℕ)
value_in none = none
value_in (some e) = some e.value

unfoldable pub get : Data → Key → ℕ → Data × Option (List ℕ)
get m k now_ms = let (m', e) = live m k now_ms in (m', value_in e)

unfoldable pub set : Data → Key → List ℕ → ℕ → Data
set m k value expire_at = assign m k (some (record { value = value; expire_at = expire_at }))

unfoldable pub delete : Data → Key → ℕ → Data × Bool
delete m k now_ms = let (m', e) = live m k now_ms in (assign m' k none, is_some e)

unfoldable pub exists : Data → Key → ℕ → Data × Bool
exists m k now_ms = let (m', e) = live m k now_ms in (m', is_some e)

abbrev pub set_deadline : Data → Key → ℕ → Option RefEntry → Data × Bool
set_deadline m k expire_at none = (m, false)
set_deadline m k expire_at (some e) = (assign m k (some (record e { expire_at = expire_at })), true)

unfoldable pub expire : Data → Key → ℕ → ℕ → Data × Bool
expire m k expire_at now_ms = let (m', e) = live m k now_ms in set_deadline m' k expire_at e

-- What TTL answers for an entry. A difference of 2^63 or more is negative as an int64; it and one
-- that is negative give 0.
unfoldable pub remaining : ℕ → ℕ → Ttl
remaining zero now_ms = never
remaining (suc x) now_ms = let ms = suc x - now_ms in if leb (2 ^ 63) ms then left 0 else left ms

abbrev pub ttl_in : ℕ → Option RefEntry → Option Ttl
ttl_in now_ms none = none
ttl_in now_ms (some e) = some (remaining e.expire_at now_ms)

unfoldable pub ttl : Data → Key → ℕ → Data × Option Ttl
ttl m k now_ms = let (m', e) = live m k now_ms in (m', ttl_in now_ms e)
