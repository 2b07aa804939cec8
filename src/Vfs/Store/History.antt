-- ===== src/Vfs/Store/History.antt =====
-- What a command does to the file with a given id (crates/vraftls-vfs/src/vfs.rs): refusals change
-- nothing, ids are not used twice, versions count the writes.
use vraftls.Prelude.{
  ℕ, ◌+◌, ◌<◌, ◌≡◌, inl, inr, Option, none, some, List, [], ◌∷◌, arith, nat_eq, Text, Option-cases,
}
use vraftls.Prelude.Map
use vraftls.Prelude.Map.{get-insert, get-remove}
use vraftls.Core.Types.{FileId, u64_mod}
use vraftls.Core.Error.{ok}
use vraftls.Vfs.VfsPath.{VfsPath, path_eq}
use vraftls.Vfs.VfsFile
use vraftls.Vfs.VfsFile.{Env, VfsFile, update_content}
use vraftls.Vfs.Commands.{BatchWriteOp, VfsCommand, VfsCommandError, VfsResponse, version_mismatch}
use vraftls.Vfs.Store.{
  Vfs, create_file, write_file, update_file, delete_file, rename_file, batch_op, batch_ops,
  batch_write, apply, get_file, get_content,
}
use vraftls.Vfs.Store.Invariant.Apply.{creates_op, creates_ops, creates, batch_op_room}

module _ (env : Env) where
  -- A command that is answered with an error has changed nothing: no file, no index entry, no id,
  -- no event.
  pub apply_error :
      (c : VfsCommand) (v : Vfs) (e : VfsCommandError)
      → (apply env c v).1 ≡ VfsResponse.error e
      → (apply env c v).0 ≡ v
  unfolding apply create_file update_file write_file delete_file rename_file batch_write
  apply_error (VfsCommand.create_file path content) v e h = ground arith
  apply_error (VfsCommand.update_file id content expected) v e h = ground arith
  apply_error (VfsCommand.delete_file id) v e h = ground arith
  apply_error (VfsCommand.rename_file id path) v e h = ground arith
  apply_error (VfsCommand.batch_write ops) v e h = cc
  apply_error (VfsCommand.invalidate_cache ids) v e h = cc

  -- An id that was given out and holds no file.
  abbrev pub IsRetired : FileId → Vfs → Type 0
  IsRetired id v = (id < v.next_file_id) × (Map.get id v.files ≡ none)

  create_file-IsRetired :
      (id : FileId) (path : VfsPath) (content : Text) (v : Vfs)
      → v.next_file_id + 1 < u64_mod
      → IsRetired id v
      → IsRetired id (create_file env path content v).0
  unfolding create_file
  create_file-IsRetired id path content v room h =
      let f = VfsFile.new env (env.now v.reads) v.next_file_id path content v.group_id in
      ground (arith, get-insert v.next_file_id id f v.files)

  update_file-IsRetired :
      (id j : FileId) (content : Text) (expected : Option ℕ) (v : Vfs)
      → IsRetired id v
      → IsRetired id (update_file env j content expected v).0
  unfolding update_file write_file
  update_file-IsRetired id j content expected v h = elim (Option-cases (Map.get j v.files)) [
    | inl absent ↦ rw (absent, update_file) h
    | inr (f, found) ↦
        ground (arith, get-insert j id (update_content env (env.now v.reads) content f) v.files)
  ]

  delete_file-IsRetired :
      (id j : FileId) (v : Vfs) → IsRetired id v → IsRetired id (delete_file env j v).0
  unfolding delete_file
  delete_file-IsRetired id j v h = ground (arith, get-remove j id v.files)

  rename_file-IsRetired :
      (id j : FileId) (path : VfsPath) (v : Vfs)
      → IsRetired id v
      → IsRetired id (rename_file env j path v).0
  unfolding rename_file
  rename_file-IsRetired id j path v h = elim (Option-cases (Map.get j v.files)) [
    | inl absent ↦ ground arith
    | inr (f, found) ↦
        ground (
          arith,
          get-insert j id (record f { path = path; last_modified = env.now v.reads }) v.files,
        )
  ]

  batch_op-IsRetired :
      (id : FileId) (op : BatchWriteOp) (v : Vfs)
      → v.next_file_id + creates_op op < u64_mod
      → IsRetired id v
      → IsRetired id (batch_op env op v).0
  unfolding batch_op
  batch_op-IsRetired id (BatchWriteOp.create path content) v room h =
      create_file-IsRetired id path content v room h
  batch_op-IsRetired id (BatchWriteOp.update j content) v room h =
      update_file-IsRetired id j content none v h
  batch_op-IsRetired id (BatchWriteOp.delete j) v room h = delete_file-IsRetired id j v h

  batch_ops-IsRetired :
      (id : FileId) (ops : List BatchWriteOp) (v : Vfs)
      → v.next_file_id + creates_ops ops < u64_mod
      → IsRetired id v
      → IsRetired id (batch_ops env ops v).0
  unfolding batch_ops
  batch_ops-IsRetired id [] v room h = h
  batch_ops-IsRetired id (op ∷ ops) v room h =
      let used = batch_op_room env op v (omega arith) in
      batch_ops-IsRetired id ops (batch_op env op v).0 (omega arith)
        (batch_op-IsRetired id op v (omega arith) h)

  -- An id that was given out and whose file is gone holds no file after any command, and stays
  -- given out: an id is never used twice, as long as the ids do not reach 2^64.
  pub apply-IsRetired :
      (id : FileId) (c : VfsCommand) (v : Vfs)
      → v.next_file_id + creates c < u64_mod
      → IsRetired id v
      → IsRetired id (apply env c v).0
  unfolding apply batch_write
  apply-IsRetired id (VfsCommand.create_file path content) v room h =
      create_file-IsRetired id path content v room h
  apply-IsRetired id (VfsCommand.update_file j content expected) v room h =
      update_file-IsRetired id j content expected v h
  apply-IsRetired id (VfsCommand.delete_file j) v room h = delete_file-IsRetired id j v h
  apply-IsRetired id (VfsCommand.rename_file j path) v room h = rename_file-IsRetired id j path v h
  apply-IsRetired id (VfsCommand.batch_write ops) v room h = batch_ops-IsRetired id ops v room h
  apply-IsRetired id (VfsCommand.invalidate_cache ids) v room h = h

  -- Two clients write the same file, both expecting the version that it has. The first write is
  -- taken, and raises the version by one; the second is refused with the two versions and changes
  -- nothing, so that the first one's text stays.
  pub update_file_conflict :
      (id : FileId) (a b : Text) (f : VfsFile) (v : Vfs)
      → get_file id v ≡ some f
      → f.version + 1 < u64_mod
      → let v' = (update_file env id a (some f.version) v).0 in
        ((update_file env id a (some f.version) v).1 ≡ VfsResponse.ok (some id))
        × (update_file env id b (some f.version) v'
            ≡ (v', VfsResponse.error (version_mismatch f.version (f.version + 1))))
        × (get_content id v' ≡ ok a)
  unfolding update_file write_file get_file get_content
  update_file_conflict id a b f v found room =
      let g = update_content env (env.now v.reads) a f in ground (arith, get-insert id id g v.files)
