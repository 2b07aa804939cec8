-- ===== src/Vfs/Store/Reference.antt =====
-- What a `Vfs` (crates/vraftls-vfs/src/vfs.rs) promises: a table of paths, contents and versions
-- by id, with no index, no checksums, no clock and no events. A path is looked up by a scan.
pub mod Refines
use vraftls.Prelude.{
  ℕ, ◌+◌, ◌%◌, Bool, true, false, ◌||◌, Option, none, some, List, [], ◌∷◌, not, ◌==◌, nat_eq, Text,
  if◌then◌else◌,
}
use vraftls.Prelude.Map
use vraftls.Prelude.Map.{Map, map_values}
use vraftls.Core.Types.{FileId, FileVersion, u64_mod, initial_version, next_version}
use vraftls.Vfs.VfsPath.{VfsPath, path_eq, as_str}
use vraftls.Vfs.FileContent.{FileContent, loaded}
use vraftls.Vfs.VfsFile.{VfsFile}
use vraftls.Vfs.Commands.{
  BatchWriteOp, VfsCommand, VfsBatchResult, VfsResponse, file_not_found, file_already_exists,
  version_mismatch,
}
use vraftls.Vfs.Store.{Vfs}

pub record Entry : Type 0 where
  pub path : VfsPath
  pub version : FileVersion
  pub content : FileContent

pub record Table : Type 0 where
  pub entries : Map FileId Entry
  pub next : FileId

abbrev pub entry_of : VfsFile → Entry
entry_of f = record { path = f.path; version = f.version; content = f.content }

abbrev pub table_of : Vfs → Table
table_of v = record { entries = map_values entry_of v.files; next = v.next_file_id }

pub holds_path : VfsPath → Map FileId Entry → Bool
holds_path p [] = false
holds_path p ((id, x) ∷ m) = (x.path == p) || holds_path p m

pub create : VfsPath → Text → Table → Table × VfsResponse
create path content t =
    if holds_path path t.entries
    then (t, VfsResponse.error (file_already_exists (as_str path)))
    else let x : Entry = record {
      path = path;
      version = initial_version;
      content = loaded content;
    } in
      (
        record { entries = Map.insert t.next x t.entries; next = (t.next + 1) % u64_mod },
        VfsResponse.created t.next,
      )

abbrev accepts : Option ℕ → FileVersion → Bool
accepts none version = true
accepts (some expected) version = version == expected

-- the version that a refused update names
abbrev or_zero : Option ℕ → ℕ
or_zero none = 0
or_zero (some n) = n

pub update : FileId → Text → Option ℕ → Table → Table × VfsResponse
update id content expected t = elim (Map.get id t.entries) [
  | none ↦ (t, VfsResponse.error (file_not_found id))
  | some x ↦
      if accepts expected x.version
      then (let y = record x { version = next_version x.version; content = loaded content } in
          (record t { entries = Map.insert id y t.entries }, VfsResponse.ok (some id)))
      else (t, VfsResponse.error (version_mismatch (or_zero expected) x.version))
]

pub delete : FileId → Table → Table × VfsResponse
delete id t = elim (Map.get id t.entries) [
  | none ↦ (t, VfsResponse.error (file_not_found id))
  | some x ↦ (record t { entries = Map.remove id t.entries }, VfsResponse.ok none)
]

pub rename : FileId → VfsPath → Table → Table × VfsResponse
rename id path t =
    if holds_path path t.entries
    then (t, VfsResponse.error (file_already_exists (as_str path)))
    else elim (Map.get id t.entries) [
      | none ↦ (t, VfsResponse.error (file_not_found id))
      | some x ↦ (
        record t { entries = Map.insert id (record x { path = path }) t.entries },
        VfsResponse.ok (some id),
      )
    ]

-- What a batch reports of an operation: the error that the operation alone would give, and else
-- success with the id that it would name.
abbrev pub reported : VfsResponse → VfsBatchResult
reported (VfsResponse.error e) = VfsBatchResult.error e
reported (VfsResponse.created id) = VfsBatchResult.success (some id)
reported (VfsResponse.ok id) = VfsBatchResult.success id
reported _ = VfsBatchResult.success none

pub perform_op : BatchWriteOp → Table → Table × VfsBatchResult
perform_op (BatchWriteOp.create path content) t =
    let (t', r) = create path content t in (t', reported r)
perform_op (BatchWriteOp.update id content) t =
    let (t', r) = update id content none t in (t', reported r)
perform_op (BatchWriteOp.delete id) t = let (t', r) = delete id t in (t', reported r)

pub perform_ops : List BatchWriteOp → Table → Table × List VfsBatchResult
perform_ops [] t = (t, [])
perform_ops (op ∷ ops) t =
    let (t', r) = perform_op op t in let (t'', rs) = perform_ops ops t' in (t'', r ∷ rs)

unfoldable pub perform : VfsCommand → Table → Table × VfsResponse
unfolding holds_path create update delete rename perform_op perform_ops
perform (VfsCommand.create_file path content) t = create path content t
perform (VfsCommand.update_file id content expected) t = update id content expected t
perform (VfsCommand.delete_file id) t = delete id t
perform (VfsCommand.rename_file id path) t = rename id path t
perform (VfsCommand.batch_write ops) t =
    let (t', rs) = perform_ops ops t in (t', VfsResponse.batch_results rs)
perform (VfsCommand.invalidate_cache ids) t = (t, VfsResponse.ok none)
