-- ===== src/Cache.antt =====
-- crates/vraftls-cache: which cached results a changed file makes stale.
pub mod Invalidation
pub mod Tests
