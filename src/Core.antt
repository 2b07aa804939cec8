-- ===== src/Core.antt =====
-- The crate `vraftls-core`: identifiers, versions, languages, errors and configurations.
pub mod Config
pub mod Types
pub mod Error
