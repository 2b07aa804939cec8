-- ===== src/Cluster.antt =====
-- crates/vraftls-cluster: which nodes there are, which Raft group serves a partition, and when a
-- node counts as lost.
pub mod Membership
pub mod Metadata
pub mod Failure
pub mod Tests
