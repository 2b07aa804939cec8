-- ===== src/Raft/StateMachine/Stale.antt =====
-- A snapshot installed on a node that holds files already
-- (crates/vraftls-raft/src/state_machine.rs).
use vraftls.Prelude.{ℕ, ◌+◌, ◌<◌, ◌≡◌, some, arith, Text, length}
use vraftls.Core.Types.{u64_mod}
use vraftls.Vfs.FileContent.{FileContent}
use vraftls.Vfs.VfsPath.{VfsPath}
use vraftls.Vfs.VfsFile.{Env}
use vraftls.Vfs.Store.Invariant.{IsValid}
use vraftls.Raft.Types.{OpenRaft, ok}
use vraftls.Raft.StateMachine.{VfsStateMachine, VfsSnapshot, Codec, SnapshotMeta, install_snapshot}
use vraftls.Raft.StateMachine.Restore.{read_at, restore_files_reads}

-- A node that has a file at a path keeps the content and the version that it had, whatever snapshot
-- is installed and whatever the snapshot holds at that path, while the log position becomes the
-- snapshot's.
pub install-keeps_old :
    (o : OpenRaft) (codec : Codec o) (env : Env) (sm sm' : VfsStateMachine o) (s : VfsSnapshot o)
    (meta : SnapshotMeta o) (bytes : Text) (p : VfsPath) (old : FileContent × ℕ)
    → IsValid env sm.vfs
    → codec.from_slice bytes ≡ some s
    → sm.vfs.next_file_id + length s.files < u64_mod
    → install_snapshot o codec env meta bytes sm ≡ ok sm'
    → read_at p sm.vfs ≡ some old
    → (read_at p sm'.vfs ≡ some old) × (sm'.last_applied_log ≡ s.last_applied_log)
unfolding install_snapshot
install-keeps_old o codec env sm sm' s meta bytes p old h decoded room installed there =
    ground (arith, restore_files_reads o env s.files p sm.vfs room h)
