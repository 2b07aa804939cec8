-- ===== src/Raft.antt =====
-- The crate `vraftls-raft`: what OpenRaft calls to store its log, to apply it, and to reach a node.
pub mod Types
pub mod RocksDb
pub mod Storage
pub mod Network
pub mod StateMachine
mod Tests
