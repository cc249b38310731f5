-- ===== src/Cluster.antt =====
-- internal/cluster: the replication of one primary's log to a replica.
pub mod Stream
pub mod Node
pub mod Replica
pub mod Primary
pub mod Fencing
pub mod Follow
pub mod Resync
pub mod Position
pub mod Tests
