-- ===== src/Vfs/Store/Reference/Refines.antt =====
-- `Vfs` implements the table of `Reference`.
use vraftls.Prelude.{
  ℕ, ◌+◌, ◌<◌, ◌≡◌, ◌∙◌, refl, ap, inl, inr, true, Option, none, some, List, [], ◌∷◌, arith, ◌==◌,
  ==_iff, nat_eq, Text, Bool-cases, Option-cases,
}
use vraftls.Prelude.Map
use vraftls.Prelude.Map.{
  Map, IsMap, map_values, get-map_values, map_values-insert, map_values-remove, contains_key-get,
}
use vraftls.Core.Types.{FileId, u64_mod}
use vraftls.Vfs.VfsPath.{VfsPath, path_eq}
use vraftls.Vfs.VfsFile
use vraftls.Vfs.VfsFile.{Env, VfsFile, update_content}
use vraftls.Vfs.Commands.{BatchWriteOp, VfsCommand, VfsResponse}
use vraftls.Vfs.Store.{
  Vfs, create_result, update_result, delete_result, create_file, update_file, write_file,
  delete_file, rename_file, batch_op, batch_ops, batch_write, apply,
}
use vraftls.Vfs.Store.Invariant.{IsValid}
use vraftls.Vfs.Store.Invariant.Apply.{creates_ops, creates, batch_op_room, batch_op-IsValid}
use vraftls.Vfs.Store.Reference.{
  Table, reported, entry_of, table_of, holds_path, create, update, delete, rename, perform_op,
  perform_ops, perform,
}

holds_path_of_get :
    (id : FileId) (f : VfsFile) (m : Map FileId VfsFile)
    → Map.get id m ≡ some f
    → holds_path f.path (map_values entry_of m) ≡ true
unfolding holds_path Map.get
holds_path_of_get id f [] h = cc
holds_path_of_get id f ((j, g) ∷ m) h =
    ground (arith, holds_path_of_get id f m, ==_iff j id, ==_iff g.path f.path)

get_of_holds_path :
    (p : VfsPath) (m : Map FileId VfsFile)
    → IsMap m
    → holds_path p (map_values entry_of m) ≡ true
    → (id : FileId) × (f : VfsFile) × (Map.get id m ≡ some f) × (f.path ≡ p)
unfolding holds_path Map.get
get_of_holds_path p [] u h = absurd (cc)
get_of_holds_path p ((j, g) ∷ m) u h = elim (Bool-cases (g.path == p)) [
  | inl here ↦ (j, g, ground (arith, ==_iff j j), ground (arith, ==_iff g.path p))
  | inr other ↦
      let (id, f, found, e) = get_of_holds_path p m u.1 (rw other at h) in
      (id, f, ground (arith, ==_iff j id), e)
]

-- The index answers what a scan of the files answers.
index-scan :
    (env : Env) (p : VfsPath) (v : Vfs)
    → IsValid env v
    → Map.contains_key p v.path_index ≡ holds_path p (map_values entry_of v.files)
unfolding Map.contains_key
index-scan env p v h = elim (Option-cases (Map.get p v.path_index)) [
  | inl absent ↦ elim (Bool-cases (holds_path p (map_values entry_of v.files))) [
    | inl held ↦
        let (id, f, found, e) = get_of_holds_path p v.files h.files_map held in
        absurd (ground (arith, h.indexed id p))
    | inr free ↦ ground arith
  ]
  | inr (id, present) ↦ elim (Option-cases (Map.get id v.files)) [
    | inl gone ↦ absurd (ground (arith, h.backed id p))
    | inr (f, found) ↦
        let e : f.path ≡ p = ground (arith, h.backed id p) in
        ground (arith, holds_path_of_get id f v.files found)
  ]
]

-- Both answer alike, and end with the same table.
abbrev Agrees {ℓ} : {R : Type ℓ} → Vfs × R → Table × R → Type ℓ
Agrees a b = (table_of a.0 ≡ b.0) × (a.1 ≡ b.1)

module _ (env : Env) (v : Vfs) (h : IsValid env v) where
  create_file-create :
      (path : VfsPath) (content : Text)
      → Agrees (create_file env path content v) (create path content (table_of v))
  unfolding create_file create
  create_file-create path content =
      let f = VfsFile.new env (env.now v.reads) v.next_file_id path content v.group_id in
      ground (arith, index-scan env path v h, map_values-insert entry_of v.next_file_id f v.files)

  update_file-update :
      (id : FileId) (content : Text) (expected : Option ℕ)
      → Agrees (update_file env id content expected v) (update id content expected (table_of v))
  unfolding update_file write_file update
  update_file-update id content none = elim (Option-cases (Map.get id v.files)) [
    | inl p ↦ ground (arith, get-map_values entry_of id v.files)
    | inr (f, p) ↦ ground (
      arith,
      get-map_values entry_of id v.files,
      map_values-insert entry_of id (update_content env (env.now v.reads) content f) v.files,
    )
  ]
  update_file-update id content (some n) = elim (Option-cases (Map.get id v.files)) [
    | inl p ↦ ground (arith, get-map_values entry_of id v.files)
    | inr (f, p) ↦ ground (
      arith,
      get-map_values entry_of id v.files,
      map_values-insert entry_of id (update_content env (env.now v.reads) content f) v.files,
    )
  ]

  delete_file-delete : (id : FileId) → Agrees (delete_file env id v) (delete id (table_of v))
  unfolding delete_file delete
  delete_file-delete id =
      ground (arith, get-map_values entry_of id v.files, map_values-remove entry_of id v.files)

  rename_file-rename :
      (id : FileId) (path : VfsPath)
      → Agrees (rename_file env id path v) (rename id path (table_of v))
  unfolding rename_file rename
  rename_file-rename id path = elim (Option-cases (Map.get id v.files)) [
    | inl p ↦ ground (arith, index-scan env path v h, get-map_values entry_of id v.files)
    | inr (f, p) ↦ ground (
      arith,
      index-scan env path v h,
      get-map_values entry_of id v.files,
      map_values-insert entry_of id (record f { path = path; last_modified = env.now v.reads })
          v.files,
    )
  ]

create_result-reported :
    (path : VfsPath) (content : Text) (t : Table)
    → create_result (create path content t).1 ≡ reported (create path content t).1
unfolding create
create_result-reported path content t = ground arith

update_result-reported :
    (id : FileId) (content : Text) (expected : Option ℕ) (t : Table)
    → update_result (update id content expected t).1 ≡ reported (update id content expected t).1
unfolding update
update_result-reported id content expected t = ground arith

delete_result-reported :
    (id : FileId) (t : Table) → delete_result (delete id t).1 ≡ reported (delete id t).1
unfolding delete
delete_result-reported id t = ground arith

module _ (env : Env) where
  batch_op-perform_op :
      (op : BatchWriteOp) (v : Vfs) (h : IsValid env v)
      → Agrees (batch_op env op v) (perform_op op (table_of v))
  unfolding batch_op perform_op
  batch_op-perform_op (BatchWriteOp.create path content) v h =
      let (t, r) = create_file-create env v h path content in
      (t, ap create_result r ∙ create_result-reported path content (table_of v))
  batch_op-perform_op (BatchWriteOp.update id content) v h =
      let (t, r) = update_file-update env v h id content none in
      (t, ap update_result r ∙ update_result-reported id content none (table_of v))
  batch_op-perform_op (BatchWriteOp.delete id) v h =
      let (t, r) = delete_file-delete env v h id in
      (t, ap delete_result r ∙ delete_result-reported id (table_of v))

  batch_ops-perform_ops :
      (ops : List BatchWriteOp) (v : Vfs)
      → v.next_file_id + creates_ops ops < u64_mod
      → IsValid env v
      → Agrees (batch_ops env ops v) (perform_ops ops (table_of v))
  unfolding batch_ops perform_ops
  batch_ops-perform_ops [] v room h = (refl, refl)
  batch_ops-perform_ops (op ∷ ops) v room h =
      let used = batch_op_room env op v (omega arith) in
      let (t, r) = batch_op-perform_op op v h in
      let (t', rs) =
        batch_ops-perform_ops ops (batch_op env op v).0 (omega arith)
          (batch_op-IsValid env op v (omega arith) h) in
      rw (← t) (t', cc (r, rs))

  -- On a valid file system, with enough ids left, every command gives the response that the plain
  -- table gives, and leaves the plain table that the table's own operation leaves: the path index,
  -- the checksums, the clock and the events change nothing that a client can see.
  pub apply-perform :
      (c : VfsCommand) (v : Vfs)
      → v.next_file_id + creates c < u64_mod
      → IsValid env v
      → (table_of (apply env c v).0 ≡ (perform c (table_of v)).0)
        × ((apply env c v).1 ≡ (perform c (table_of v)).1)
  unfolding apply batch_write perform
  apply-perform (VfsCommand.create_file path content) v room h =
      create_file-create env v h path content
  apply-perform (VfsCommand.update_file id content expected) v room h =
      update_file-update env v h id content expected
  apply-perform (VfsCommand.delete_file id) v room h = delete_file-delete env v h id
  apply-perform (VfsCommand.rename_file id path) v room h = rename_file-rename env v h id path
  apply-perform (VfsCommand.batch_write ops) v room h =
      let (t, rs) = batch_ops-perform_ops ops v room h in (t, ap VfsResponse.batch_results rs)
  apply-perform (VfsCommand.invalidate_cache ids) v room h = (refl, refl)
