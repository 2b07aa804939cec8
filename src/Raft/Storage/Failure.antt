-- ===== src/Raft/Storage/Failure.antt =====
-- What an `append` that fails leaves (crates/vraftls-raft/src/storage.rs).
use vraftls.Prelude.{nat_eq}
use vraftls.Prelude.Map
use vraftls.Raft.RocksDb
use vraftls.Raft.RocksDb.{RocksDb}
