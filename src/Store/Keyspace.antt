-- ===== src/Store/Keyspace.antt =====
-- The operations of internal/store/store.go on the shard that has the key. A lock's section is one
-- state change; the callback that registers a deadline with the timing wheel is not kept.
use kvstore.Prelude.{
  ℕ, ◌-◌, ◌^◌, Bool, true, false, Option, none, some, List, ltb, ◌==◌, if◌then◌else◌,
}
use kvstore.Store.Entry.{is_expired}
use kvstore.Store.Shard.{Key, Shard}
use kvstore.Store.Evict.{remove_entry}
use kvstore.Store.Operations.{Found, hit, miss, needs_reap, get, delete, expire, reap}

-- The write-locked pass that follows a read of an expired entry.
unfoldable pub after_read : Shard → Found → Key → ℕ → Shard
after_read s needs_reap k now_ms = (reap s k now_ms).0
after_read s (hit r) k now_ms = s
after_read s miss k now_ms = s

abbrev pub value_of : Shard → Found → Option (List ℕ)
value_of s (hit r) = some (s.value r)
value_of s miss = none
value_of s needs_reap = none

abbrev pub is_hit : Found → Bool
is_hit (hit r) = true
is_hit miss = false
is_hit needs_reap = false

-- Store.Get
unfoldable pub lookup : Shard → Key → ℕ → ℕ → Shard × Option (List ℕ)
lookup s k now_ms now_mono =
    let (s1, found) = get s k now_ms now_mono in (after_read s1 found k now_ms, value_of s1 found)

-- Store.Exists
unfoldable pub exists : Shard → Key → ℕ → ℕ → Shard × Bool
exists s k now_ms now_mono =
    let (s1, found) = get s k now_ms now_mono in (after_read s1 found k now_ms, is_hit found)

-- What TTL answers: -1, or the milliseconds left. The difference of the two int64 is read as an
-- int64, and a negative one as 0.
pub data Ttl : Type 0 where
  never : Ttl
  left : ℕ → Ttl

unfoldable pub time_left : ℕ → ℕ → Ttl
time_left expire_at now_ms =
    if expire_at == 0
    then never
    else if ltb (expire_at - now_ms) (2 ^ 63)
    then left (expire_at - now_ms)
    else left 0

abbrev pub ttl_of : Shard → Found → ℕ → Option Ttl
ttl_of s (hit r) now_ms = some (time_left (s.expire_at r) now_ms)
ttl_of s miss now_ms = none
ttl_of s needs_reap now_ms = none

-- Store.TTL
unfoldable pub ttl : Shard → Key → ℕ → ℕ → Shard × Option Ttl
ttl s k now_ms now_mono =
    let (s1, found) = get s k now_ms now_mono in
    (after_read s1 found k now_ms, ttl_of s1 found now_ms)

-- Store.Delete: a key that has expired is reported as absent.
unfoldable pub remove_at : Shard → Option ℕ → Key → ℕ → Shard × Bool
remove_at s none k now_ms = delete s k
remove_at s (some r) k now_ms =
    if is_expired (s.expire_at r) now_ms then (remove_entry s r, false) else delete s k

unfoldable pub remove : Shard → Key → ℕ → Shard × Bool
remove s k now_ms = remove_at s (s.entries k) k now_ms

-- Store.Expire
unfoldable pub set_expiry_at : Shard → Option ℕ → Key → ℕ → ℕ → Shard × Bool
set_expiry_at s none k expire_at now_ms = expire s k expire_at
set_expiry_at s (some r) k expire_at now_ms =
    if is_expired (s.expire_at r) now_ms then ((reap s k now_ms).0, false) else expire s k expire_at

unfoldable pub set_expiry : Shard → Key → ℕ → ℕ → Shard × Bool
set_expiry s k expire_at now_ms = set_expiry_at s (s.entries k) k expire_at now_ms
