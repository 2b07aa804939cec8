-- ===== src/Vfs/Commands.antt =====
-- crates/vraftls-vfs/src/commands.rs
use vraftls.Prelude.{ℕ, Option, List, Text}
use vraftls.Core.Types.{FileId}
use vraftls.Vfs.VfsPath.{VfsPath}

pub data BatchWriteOp : Type 0 where
  create : VfsPath → Text → BatchWriteOp
  update : FileId → Text → BatchWriteOp
  delete : FileId → BatchWriteOp

pub data VfsCommand : Type 0 where
  create_file : VfsPath → Text → VfsCommand
  update_file : FileId → Text → Option ℕ → VfsCommand
  delete_file : FileId → VfsCommand
  rename_file : FileId → VfsPath → VfsCommand
  batch_write : List BatchWriteOp → VfsCommand
  invalidate_cache : List FileId → VfsCommand

pub data VfsCommandError : Type 0 where
  file_not_found : FileId → VfsCommandError
  file_already_exists : Text → VfsCommandError
  -- expected, actual
  version_mismatch : ℕ → ℕ → VfsCommandError
  invalid_path storage_error : Text → VfsCommandError

pub data VfsBatchResult : Type 0 where
  success : Option FileId → VfsBatchResult
  error : VfsCommandError → VfsBatchResult

pub data VfsResponse : Type 0 where
  ok : Option FileId → VfsResponse
  created : FileId → VfsResponse
  batch_results : List VfsBatchResult → VfsResponse
  error : VfsCommandError → VfsResponse
