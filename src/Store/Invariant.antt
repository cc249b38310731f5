-- ===== src/Store/Invariant.antt =====
-- The well-formedness of a shard: the map, the two slices and the indices that the entries keep
-- agree, and the byte count is the sum of the sizes.
pub mod Index
pub mod Sum
pub mod Slices
pub mod Switch
pub mod Sound
pub mod Write
pub mod Insert
pub mod Eviction
pub mod Operations
pub mod Admission
pub mod Sweep
pub mod Reach
