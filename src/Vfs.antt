-- ===== src/Vfs.antt =====
-- The crate `vraftls-vfs`: the replicated virtual file system.
pub mod VfsPath
pub mod FileContent
pub mod LineEnding
pub mod VfsFile
pub mod Commands
pub mod Store
pub mod Tests
mod PathTests
