-- ===== src/Vfs/Store/Invariant/Apply.antt =====
-- Every command keeps the invariant of `Vfs`, while there are ids left.
use vraftls.Prelude.{ℕ, ◌+◌, ◌≤◌, ◌<◌, List, [], ◌∷◌, none, arith, Text}
use vraftls.Core.Types.{u64_mod}
use vraftls.Vfs.VfsPath.{VfsPath}
use vraftls.Vfs.VfsFile.{Env}
use vraftls.Vfs.Commands.{BatchWriteOp, VfsCommand}
use vraftls.Vfs.Store.{
  Vfs, create_file, update_file, delete_file, rename_file, batch_op, batch_ops, batch_write, apply,
}
use vraftls.Vfs.Store.Invariant.{
  IsValid, create_file-IsValid, update_file-IsValid, delete_file-IsValid, rename_file-IsValid,
}

-- How many ids a command may take.
abbrev pub creates_op : BatchWriteOp → ℕ
creates_op (BatchWriteOp.create path content) = 1
creates_op _ = 0

abbrev pub creates_ops : List BatchWriteOp → ℕ
creates_ops [] = 0
creates_ops (op ∷ ops) = creates_op op + creates_ops ops

abbrev pub creates : VfsCommand → ℕ
creates (VfsCommand.create_file path content) = 1
creates (VfsCommand.batch_write operations) = creates_ops operations
creates _ = 0

module _ (env : Env) where
  create_file_room :
      (path : VfsPath) (content : Text) (v : Vfs)
      → v.next_file_id + 1 < u64_mod
      → (create_file env path content v).0.next_file_id ≤ v.next_file_id + 1
  unfolding create_file
  create_file_room path content v room = ground arith

  pub batch_op_room :
      (op : BatchWriteOp) (v : Vfs)
      → v.next_file_id + creates_op op < u64_mod
      → (batch_op env op v).0.next_file_id ≤ v.next_file_id + creates_op op
  unfolding batch_op update_file delete_file
  batch_op_room (BatchWriteOp.create path content) v room = create_file_room path content v room
  batch_op_room (BatchWriteOp.update id content) v room = ground arith
  batch_op_room (BatchWriteOp.delete id) v room = ground arith

  pub batch_op-IsValid :
      (op : BatchWriteOp) (v : Vfs)
      → v.next_file_id + creates_op op < u64_mod
      → IsValid env v
      → IsValid env (batch_op env op v).0
  unfolding batch_op
  batch_op-IsValid (BatchWriteOp.create path content) v room h =
      create_file-IsValid env path content v room h
  batch_op-IsValid (BatchWriteOp.update id content) v room h =
      update_file-IsValid env id content none v h
  batch_op-IsValid (BatchWriteOp.delete id) v room h = delete_file-IsValid env id v h

  pub batch_ops-IsValid :
      (ops : List BatchWriteOp) (v : Vfs)
      → v.next_file_id + creates_ops ops < u64_mod
      → IsValid env v
      → IsValid env (batch_ops env ops v).0
  unfolding batch_ops
  batch_ops-IsValid [] v room h = h
  batch_ops-IsValid (op ∷ ops) v room h =
      let step = batch_op_room op v (omega arith) in
      batch_ops-IsValid ops (batch_op env op v).0 (omega arith)
        (batch_op-IsValid op v (omega arith) h)

  batch_ops_room :
      (ops : List BatchWriteOp) (v : Vfs)
      → v.next_file_id + creates_ops ops < u64_mod
      → (batch_ops env ops v).0.next_file_id ≤ v.next_file_id + creates_ops ops
  unfolding batch_ops
  batch_ops_room [] v room = omega arith
  batch_ops_room (op ∷ ops) v room =
      let step = batch_op_room op v (omega arith) in
      omega (arith, batch_ops_room ops (batch_op env op v).0 (omega arith))

  pub apply_room :
      (c : VfsCommand) (v : Vfs)
      → v.next_file_id + creates c < u64_mod
      → (apply env c v).0.next_file_id ≤ v.next_file_id + creates c
  unfolding apply update_file delete_file rename_file batch_write
  apply_room (VfsCommand.create_file path content) v room = create_file_room path content v room
  apply_room (VfsCommand.update_file id content expected) v room = ground arith
  apply_room (VfsCommand.delete_file id) v room = ground arith
  apply_room (VfsCommand.rename_file id path) v room = ground arith
  apply_room (VfsCommand.batch_write operations) v room = batch_ops_room operations v room
  apply_room (VfsCommand.invalidate_cache ids) v room = omega arith

  -- Every command, succeeding or not, keeps the invariant of the file system, as long as the ids
  -- that it may take do not reach 2^64.
  pub apply-IsValid :
      (c : VfsCommand) (v : Vfs)
      → v.next_file_id + creates c < u64_mod
      → IsValid env v
      → IsValid env (apply env c v).0
  unfolding apply batch_write
  apply-IsValid (VfsCommand.create_file path content) v room h =
      create_file-IsValid env path content v room h
  apply-IsValid (VfsCommand.update_file id content expected) v room h =
      update_file-IsValid env id content expected v h
  apply-IsValid (VfsCommand.delete_file id) v room h = delete_file-IsValid env id v h
  apply-IsValid (VfsCommand.rename_file id path) v room h = rename_file-IsValid env id path v h
  apply-IsValid (VfsCommand.batch_write operations) v room h = batch_ops-IsValid operations v room h
  apply-IsValid (VfsCommand.invalidate_cache ids) v room h = h
