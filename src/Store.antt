-- ===== src/Store.antt =====
-- internal/store: one shard of the storage engine, and what it promises.
pub mod Entry
pub mod Random
pub mod Lru
pub mod Slots
pub mod Shard
pub mod Evict
pub mod Memory
pub mod Operations
pub mod Purge
pub mod Wheel
pub mod Range
pub mod Hash
pub mod Sharded
pub mod Invariant
pub mod Keyspace
pub mod Reference
pub mod Refinement
pub mod Tests
