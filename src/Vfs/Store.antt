-- ===== src/Vfs/Store.antt =====
-- crates/vraftls-vfs/src/vfs.rs. An operation takes the state and returns the next one beside its
-- answer; what holds of them is proved in the modules below. The concurrent maps are used by one
-- caller at a time, as the state machine does. `sent` lists what went into the broadcast channel,
-- in order, and `reads` counts the readings of the clock.
pub mod Invariant
pub mod Replicas
pub mod Queries
pub mod Events
pub mod History
pub mod Reference
use mathlib.Core.List.{filter_map}
use mathlib.Core.Option
use vraftls.Prelude.{
  ℕ, ◌+◌, ◌%◌, Bool, true, false, Option, none, some, List, [], ◌∷◌, ◌++◌, map, not, ◌==◌, nat_eq,
  filter, length, Text, codes, contains, if◌then◌else◌,
}
use vraftls.Prelude.Map
use vraftls.Prelude.Map.{Map}
use vraftls.Core.Types.{FileId, RaftGroupId, u64_mod, initial_version}
use vraftls.Core.Error.{Result, ok, err, internal}
use vraftls.Core.Error
use vraftls.Vfs.VfsPath.{VfsPath, path_eq, as_str, starts_with}
use vraftls.Vfs.VfsFile
use vraftls.Vfs.VfsFile.{
  Env, VfsFile, update_content, content_str, FileChangeEvent, change_event, created, modified,
  deleted, renamed,
}
use vraftls.Vfs.Commands
use vraftls.Vfs.Commands.{
  BatchWriteOp, VfsCommand, VfsCommandError, VfsBatchResult, VfsResponse, file_not_found,
  file_already_exists, version_mismatch,
}

pub record Vfs : Type 0 where
  pub files : Map FileId VfsFile
  pub path_index : Map VfsPath FileId
  pub next_file_id : ℕ
  pub group_id : RaftGroupId
  pub sent : List FileChangeEvent
  pub reads : ℕ

unfoldable pub new : RaftGroupId → Vfs
new group_id = record {
  files = [];
  path_index = [];
  next_file_id = 1;
  group_id = group_id;
  sent = [];
  reads = 0;
}

-- the `match` on the response in each arm of `batch_write`
abbrev pub create_result : VfsResponse → VfsBatchResult
create_result (VfsResponse.created id) = VfsBatchResult.success (some id)
create_result (VfsResponse.error e) = VfsBatchResult.error e
create_result _ = VfsBatchResult.success none

abbrev pub update_result : VfsResponse → VfsBatchResult
update_result (VfsResponse.ok id) = VfsBatchResult.success id
update_result (VfsResponse.error e) = VfsBatchResult.error e
update_result _ = VfsBatchResult.success none

abbrev pub delete_result : VfsResponse → VfsBatchResult
delete_result (VfsResponse.error e) = VfsBatchResult.error e
delete_result _ = VfsBatchResult.success none

module _ (env : Env) where
  unfoldable pub create_file : VfsPath → Text → Vfs → Vfs × VfsResponse
  unfolding VfsFile.new
  create_file path content v =
      if Map.contains_key path v.path_index
      then (v, VfsResponse.error (file_already_exists (as_str path)))
      else let file_id = v.next_file_id in
        let file = VfsFile.new env (env.now v.reads) file_id path content v.group_id in
        let event = change_event created file_id path initial_version (env.now (v.reads + 1)) in
        (
          record v {
            files = Map.insert file_id file v.files;
            path_index = Map.insert path file_id v.path_index;
            next_file_id = (v.next_file_id + 1) % u64_mod;
            sent = v.sent ++ event ∷ [];
            reads = v.reads + 2;
          },
          VfsResponse.created file_id,
        )

  -- `update_file` past its guards
  unfoldable pub write_file : FileId → Text → VfsFile → Vfs → Vfs × VfsResponse
  unfolding update_content
  write_file file_id content old v =
      let file = update_content env (env.now v.reads) content old in
      let event = change_event modified file_id old.path file.version (env.now (v.reads + 1)) in
      (
        record v {
          files = Map.insert file_id file v.files;
          sent = v.sent ++ event ∷ [];
          reads = v.reads + 2;
        },
        VfsResponse.ok (some file_id),
      )

  unfoldable pub update_file : FileId → Text → Option ℕ → Vfs → Vfs × VfsResponse
  unfolding write_file
  update_file file_id content expected_version v = elim (Map.get file_id v.files) [
    | none ↦ (v, VfsResponse.error (file_not_found file_id))
    | some file ↦ elim expected_version [
      | none ↦ write_file file_id content file v
      | some expected ↦
          if not (file.version == expected)
          then (v, VfsResponse.error (version_mismatch expected file.version))
          else write_file file_id content file v
    ]
  ]

  unfoldable pub delete_file : FileId → Vfs → Vfs × VfsResponse
  delete_file file_id v = elim (Map.get file_id v.files) [
    | none ↦ (v, VfsResponse.error (file_not_found file_id))
    | some file ↦
        let event = change_event deleted file_id file.path file.version (env.now v.reads) in
        (
          record v {
            files = Map.remove file_id v.files;
            path_index = Map.remove file.path v.path_index;
            sent = v.sent ++ event ∷ [];
            reads = v.reads + 1;
          },
          VfsResponse.ok none,
        )
  ]

  unfoldable pub rename_file : FileId → VfsPath → Vfs → Vfs × VfsResponse
  rename_file file_id new_path v =
      if Map.contains_key new_path v.path_index
      then (v, VfsResponse.error (file_already_exists (as_str new_path)))
      else elim (Map.get file_id v.files) [
        | none ↦ (v, VfsResponse.error (file_not_found file_id))
        | some file ↦
            let moved = record file { path = new_path; last_modified = env.now v.reads } in
            let event =
              change_event renamed file_id new_path file.version (env.now (v.reads + 1)) in
            (
              record v {
                files = Map.insert file_id moved v.files;
                path_index = Map.insert new_path file_id (Map.remove file.path v.path_index);
                sent = v.sent ++ event ∷ [];
                reads = v.reads + 2;
              },
              VfsResponse.ok (some file_id),
            )
      ]

  unfoldable pub batch_op : BatchWriteOp → Vfs → Vfs × VfsBatchResult
  batch_op (BatchWriteOp.create path content) v =
      let (v', r) = create_file path content v in (v', create_result r)
  batch_op (BatchWriteOp.update file_id content) v =
      let (v', r) = update_file file_id content none v in (v', update_result r)
  batch_op (BatchWriteOp.delete file_id) v =
      let (v', r) = delete_file file_id v in (v', delete_result r)

  -- the `map` and `collect` of `batch_write`
  unfoldable pub batch_ops : List BatchWriteOp → Vfs → Vfs × List VfsBatchResult
  batch_ops [] v = (v, [])
  batch_ops (op ∷ ops) v =
      let (v', r) = batch_op op v in let (v'', rs) = batch_ops ops v' in (v'', r ∷ rs)

  unfoldable pub batch_write : List BatchWriteOp → Vfs → Vfs × VfsResponse
  batch_write operations v =
      let (v', results) = batch_ops operations v in (v', VfsResponse.batch_results results)

  unfoldable pub apply : VfsCommand → Vfs → Vfs × VfsResponse
  apply (VfsCommand.create_file path content) v = create_file path content v
  apply (VfsCommand.update_file file_id content expected) v = update_file file_id content expected v
  apply (VfsCommand.delete_file file_id) v = delete_file file_id v
  apply (VfsCommand.rename_file file_id new_path) v = rename_file file_id new_path v
  apply (VfsCommand.batch_write operations) v = batch_write operations v
  apply (VfsCommand.invalidate_cache file_ids) v = (v, VfsResponse.ok none)

unfoldable pub get_file : FileId → Vfs → Option VfsFile
get_file file_id v = Map.get file_id v.files

unfoldable pub get_file_by_path : VfsPath → Vfs → Option VfsFile
get_file_by_path path v = elim (Map.get path v.path_index) [
  | none ↦ none
  | some id ↦ Map.get id v.files
]

unfoldable pub get_content : FileId → Vfs → Result Text
unfolding content_str
get_content file_id v = elim (Map.get file_id v.files) [
  | none ↦ err (Error.file_not_found file_id)
  | some file ↦ elim (content_str file) [
    | none ↦ err (internal (codes "content not loaded"))
    | some s ↦ ok s
  ]
]

unfoldable pub list_directory : VfsPath → Vfs → List VfsFile
list_directory path v = filter (λ f. starts_with f.path path) (Map.values v.files)

unfoldable pub find_files : Text → Vfs → List VfsFile
find_files pattern v = filter (λ f. contains (as_str f.path) pattern) (Map.values v.files)

unfoldable pub file_count : Vfs → ℕ
file_count v = length v.files

unfoldable pub all_file_ids : Vfs → List FileId
all_file_ids v = Map.keys v.files
