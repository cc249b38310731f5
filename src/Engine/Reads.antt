-- ===== src/Engine/Reads.antt =====
-- The read path of internal/engine/commands.go: the store's operations, whose removals of expired
-- entries call onStoreEvict.
use kvstore.Prelude.{ℕ, Bool, Option, List}
use kvstore.Store.Shard.{Key}
use kvstore.Store.Keyspace
use kvstore.Store.Keyspace.{Ttl, lookup}
use kvstore.Store.Range
use kvstore.Engine.{Engine, deliver}

module _ {ℓ} {X : Type ℓ} where
  -- Engine.Get
  unfoldable pub get : Engine X → Key → ℕ → ℕ → Engine X × Option (List ℕ)
  get e k now_ms now_mono = let (s, v) = lookup e.shard k now_ms now_mono in (deliver e s, v)

  -- Engine.Exists
  unfoldable pub exists : Engine X → Key → ℕ → ℕ → Engine X × Bool
  exists e k now_ms now_mono =
      let (s, b) = Keyspace.exists e.shard k now_ms now_mono in (deliver e s, b)

  -- Engine.TTL
  unfoldable pub ttl : Engine X → Key → ℕ → ℕ → Engine X × Option Ttl
  ttl e k now_ms now_mono = let (s, t) = Keyspace.ttl e.shard k now_ms now_mono in (deliver e s, t)

  -- Engine.Keys
  unfoldable pub keys : Engine X → List ℕ → ℕ → ℕ → List Key
  keys e prefix limit now_ms = Range.keys e.shard prefix limit now_ms
