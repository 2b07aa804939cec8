-- ===== src/Vfs/Store/Events.antt =====
-- The change events of `Vfs` (crates/vraftls-vfs/src/vfs.rs), as a subscriber sees them that has
-- followed them from the start and missed none.
use mathlib.Core.Option
use vraftls.Prelude.{
  ℕ, ◌+◌, ◌≡◌, refl, sym, ap, ◌∙◌, ◌%◌, ◌&&◌, Bool-cases, beq_refl, ◌==◌, if◌then◌else◌, Option,
  none, some, List, [], ◌∷◌, ◌++◌, arith, nat_eq, Text, Option-cases, inl, inr,
}
use vraftls.Prelude.Map
use vraftls.Prelude.Map.{Map, map_values, get-map_values, map_values-insert, map_values-remove}
use vraftls.Core.Types.{
  FileId, FileVersion, RaftGroupId, Timestamp, initial_version, next_version, u64_mod,
}
use vraftls.Vfs.VfsPath.{VfsPath, path_eq}
use vraftls.Vfs.VfsFile
use vraftls.Vfs.VfsFile.{
  Env, VfsFile, FileChangeType, FileChangeEvent, change_event, created, modified, deleted, renamed,
  update_content,
}
use vraftls.Vfs.Commands.{BatchWriteOp, VfsCommand}
use vraftls.Vfs.Store.{
  Vfs, new, create_file, write_file, update_file, delete_file, rename_file, batch_op, batch_ops,
  batch_write, apply,
}

abbrev pub Seen : Type 0
Seen = Map FileId (VfsPath × FileVersion)

-- What a subscriber makes of one event, who takes it only if it fits what he has seen: a new file
-- has the first version, a modified one is known under the same path and has the version after the
-- known one, a deleted one is known with the path and version, a renamed one with the version.
abbrev pub follow_change :
    FileChangeType
    → FileId
    → VfsPath
    → FileVersion
    → Option (VfsPath × FileVersion)
    → Seen
    → Option Seen
follow_change created id path version known s =
    if version == initial_version then some (Map.insert id (path, version) s) else none
follow_change modified id path version none s = none
follow_change modified id path version (some (p, n)) s =
    if p == path && version == (n + 1) % u64_mod
    then some (Map.insert id (path, version) s)
    else none
follow_change deleted id path version none s = none
follow_change deleted id path version (some (p, n)) s =
    if p == path && version == n then some (Map.remove id s) else none
follow_change renamed id path version none s = none
follow_change renamed id path version (some (p, n)) s =
    if version == n then some (Map.insert id (path, version) s) else none

abbrev pub follow : FileChangeEvent → Seen → Option Seen
follow x s = follow_change x.change_type x.file_id x.path x.version (Map.get x.file_id s) s

abbrev pub tell : List FileChangeEvent → Seen → Option Seen
tell [] s = some s
tell (x ∷ xs) s = elim (follow x s) [ none ↦ none | some t ↦ tell xs t ]

abbrev pub listing : VfsFile → VfsPath × FileVersion
listing f = (f.path, f.version)

-- A subscriber can take all events, and they tell the paths and versions of all files.
abbrev pub IsTold : Vfs → Type 0
IsTold v = tell v.sent [] ≡ some (map_values listing v.files)

just : {s t : Seen} → some s ≡ some t → s ≡ t
just h = cc

tell_one : (o : Option Seen) → (elim o as (λ x. Option Seen) [ none ↦ none | some t ↦ some t ]) ≡ o
tell_one none = refl
tell_one (some t) = refl

tell_concat :
    (xs : List FileChangeEvent) (x : FileChangeEvent) (s t : Seen)
    → tell xs s ≡ some t
    → tell (xs ++ x ∷ []) s ≡ follow x t
tell_concat [] x s t h = tell_one (follow x s) ∙ ap (follow x) (just h)
tell_concat (y ∷ xs) x s t h = elim (Option-cases (follow y s)) [
  | inl e ↦ absurd (ground (arith, h, e))
  | inr (u, e) ↦ rw (e, tell) (tell_concat xs x u t (ground (arith, h, e)))
]

follow-created :
    (id : FileId) (path : VfsPath) (now : Timestamp) (s : Seen)
    → follow (change_event created id path initial_version now) s
      ≡ some (Map.insert id (path, initial_version) s)
follow-created id path now s = refl

follow-modified :
    (id : FileId) (path : VfsPath) (n : FileVersion) (now : Timestamp) (s : Seen)
    → Map.get id s ≡ some (path, n)
    → follow (change_event modified id path ((n + 1) % u64_mod) now) s
      ≡ some (Map.insert id (path, (n + 1) % u64_mod) s)
follow-modified id path n now s h = rw (h, beq_refl path, beq_refl ((n + 1) % u64_mod)) refl

follow-deleted :
    (id : FileId) (path : VfsPath) (n : FileVersion) (now : Timestamp) (s : Seen)
    → Map.get id s ≡ some (path, n)
    → follow (change_event deleted id path n now) s ≡ some (Map.remove id s)
follow-deleted id path n now s h = rw (h, beq_refl path, beq_refl n) refl

follow-renamed :
    (id : FileId) (path new : VfsPath) (n : FileVersion) (now : Timestamp) (s : Seen)
    → Map.get id s ≡ some (path, n)
    → follow (change_event renamed id new n now) s ≡ some (Map.insert id (new, n) s)
follow-renamed id path new n now s h = rw (h, beq_refl n) refl

known :
    (id : FileId) (f : VfsFile) (files : Map FileId VfsFile)
    → Map.get id files ≡ some f
    → Map.get id (map_values listing files) ≡ some (listing f)
known id f files h = get-map_values listing id files ∙ ap (Option.map listing) h

module _ (env : Env) where
  pub new-IsTold : (group_id : RaftGroupId) → IsTold (new group_id)
  unfolding new
  new-IsTold group_id = refl

  create_file-IsTold :
      (path : VfsPath) (content : Text) (v : Vfs)
      → IsTold v
      → IsTold (create_file env path content v).0
  unfolding create_file VfsFile.new
  create_file-IsTold path content v h = elim (Bool-cases (Map.contains_key path v.path_index)) [
    | inl e ↦ rw (e, create_file) h
    | inr e ↦
        let f = VfsFile.new env (env.now v.reads) v.next_file_id path content v.group_id in
        let now = env.now (v.reads + 1) in
        rw (e, create_file)
          (tell_concat v.sent (change_event created v.next_file_id path initial_version now) []
              (map_values listing v.files) h
            ∙ follow-created v.next_file_id path now (map_values listing v.files)
            ∙ ap some (sym (map_values-insert listing v.next_file_id f v.files)))
  ]

  write_file-IsTold :
      (id : FileId) (content : Text) (old : VfsFile) (v : Vfs)
      → Map.get id v.files ≡ some old
      → IsTold v
      → IsTold (write_file env id content old v).0
  unfolding write_file update_content next_version
  write_file-IsTold id content old v found h =
      let f = update_content env (env.now v.reads) content old in
      let now = env.now (v.reads + 1) in
      tell_concat v.sent (change_event modified id old.path f.version now) []
        (map_values listing v.files) h
      ∙ follow-modified id old.path old.version now (map_values listing v.files)
          (known id old v.files found)
      ∙ ap some (sym (map_values-insert listing id f v.files))

  update_file-IsTold :
      (id : FileId) (content : Text) (expected : Option ℕ) (v : Vfs)
      → IsTold v
      → IsTold (update_file env id content expected v).0
  unfolding update_file
  update_file-IsTold id content expected v h = elim (Option-cases (Map.get id v.files)) [
    | inl absent ↦ rw (absent, update_file) h
    | inr (old, found) ↦ ground (arith, found, write_file-IsTold id content old v found h)
  ]

  delete_file-IsTold : (id : FileId) (v : Vfs) → IsTold v → IsTold (delete_file env id v).0
  unfolding delete_file
  delete_file-IsTold id v h = elim (Option-cases (Map.get id v.files)) [
    | inl absent ↦ rw (absent, delete_file) h
    | inr (old, found) ↦
        let now = env.now v.reads in
        rw (found, delete_file)
          (tell_concat v.sent (change_event deleted id old.path old.version now) []
              (map_values listing v.files) h
            ∙ follow-deleted id old.path old.version now (map_values listing v.files)
                (known id old v.files found)
            ∙ ap some (sym (map_values-remove listing id v.files)))
  ]

  rename_file-IsTold :
      (id : FileId) (path : VfsPath) (v : Vfs) → IsTold v → IsTold (rename_file env id path v).0
  unfolding rename_file
  rename_file-IsTold id path v h = elim (Bool-cases (Map.contains_key path v.path_index)) [
    | inl e ↦ rw (e, rename_file) h
    | inr e ↦ elim (Option-cases (Map.get id v.files)) [
      | inl absent ↦ rw (e, absent, rename_file) h
      | inr (old, found) ↦
          let now = env.now (v.reads + 1) in
          let moved = record old { path = path; last_modified = env.now v.reads } in
          rw (e, found, rename_file)
            (tell_concat v.sent (change_event renamed id path old.version now) []
                (map_values listing v.files) h
              ∙ follow-renamed id old.path path old.version now (map_values listing v.files)
                  (known id old v.files found)
              ∙ ap some (sym (map_values-insert listing id moved v.files)))
    ]
  ]

  batch_ops-IsTold : (ops : List BatchWriteOp) (v : Vfs) → IsTold v → IsTold (batch_ops env ops v).0
  unfolding batch_ops batch_op
  batch_ops-IsTold [] v h = h
  batch_ops-IsTold (BatchWriteOp.create path content ∷ ops) v h =
      batch_ops-IsTold ops (create_file env path content v).0 (create_file-IsTold path content v h)
  batch_ops-IsTold (BatchWriteOp.update id content ∷ ops) v h =
      batch_ops-IsTold ops (update_file env id content none v).0
        (update_file-IsTold id content none v h)
  batch_ops-IsTold (BatchWriteOp.delete id ∷ ops) v h =
      batch_ops-IsTold ops (delete_file env id v).0 (delete_file-IsTold id v h)

  -- If one who followed all events so far could take each of them and knows the id, path and
  -- version of every stored file and of no other, then so he does at the end of any command. He
  -- takes a created file only with the first version, a modified one only if he knows it under the
  -- same path with the version before, a deleted one only if he knows it with the same path and
  -- version, and a renamed one only if he knows it with the same version.
  pub apply-IsTold : (c : VfsCommand) (v : Vfs) → IsTold v → IsTold (apply env c v).0
  unfolding apply batch_write
  apply-IsTold (VfsCommand.create_file path content) v h = create_file-IsTold path content v h
  apply-IsTold (VfsCommand.update_file id content expected) v h =
      update_file-IsTold id content expected v h
  apply-IsTold (VfsCommand.delete_file id) v h = delete_file-IsTold id v h
  apply-IsTold (VfsCommand.rename_file id path) v h = rename_file-IsTold id path v h
  apply-IsTold (VfsCommand.batch_write ops) v h = batch_ops-IsTold ops v h
  apply-IsTold (VfsCommand.invalidate_cache ids) v h = h
