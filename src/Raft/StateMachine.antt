-- ===== src/Raft/StateMachine.antt =====
-- crates/vraftls-raft/src/state_machine.rs. `serde_json` is the pair of functions of a `Codec`;
-- the cursor of a snapshot is its bytes.
pub mod Apply
pub mod Logs
pub mod Restore
pub mod Transfer
pub mod Stale
use mathlib.Core.List.{filter_map}
use mathlib.Core.Option
use vraftls.Prelude.{ℕ, ◌≡◌, Option, none, some, List, [], ◌∷◌, ◌++◌, Text, codes, decimal}
use vraftls.Core.Types.{RaftGroupId}
use vraftls.Vfs.FileContent
use vraftls.Vfs.VfsFile.{Env, VfsFile}
use vraftls.Vfs.Commands.{VfsCommand, VfsResponse}
use vraftls.Vfs.Store
use vraftls.Vfs.Store.{Vfs, all_file_ids, get_file}
use vraftls.Raft.Types.{
  OpenRaft, VfsStateMachineResponse, EntryPayload, blank, normal, membership, Entry, StorageResult,
  ok, err, state_machine, read, write,
}

pub record VfsStateMachine (o : OpenRaft) : Type 0 where
  pub vfs : Vfs
  pub last_applied_log : Option o.LogId
  pub membership : o.StoredMembership
  pub group_id : RaftGroupId

-- `vfs_state.files` is the field `files`.
pub record VfsSnapshot (o : OpenRaft) : Type 0 where
  pub last_applied_log : Option o.LogId
  pub membership : o.StoredMembership
  pub files : List VfsFile

-- `serde_json::to_vec` and `from_slice` at a snapshot; `none` is an error.
pub record Codec (o : OpenRaft) : Type 0 where
  pub to_vec : VfsSnapshot o → Option Text
  pub from_slice : Text → Option (VfsSnapshot o)

-- What `serde_json` documents: what was written is read back.
abbrev pub IsLawful : (o : OpenRaft) → Codec o → Type 0
IsLawful o codec =
    (s : VfsSnapshot o) (d : Text) → codec.to_vec s ≡ some d → codec.from_slice d ≡ some s

pub record SnapshotMeta (o : OpenRaft) : Type 0 where
  pub last_log_id : Option o.LogId
  pub last_membership : o.StoredMembership
  pub snapshot_id : Text

pub record Snapshot (o : OpenRaft) : Type 0 where
  pub meta : SnapshotMeta o
  pub snapshot : Text

-- an answer with no file
abbrev nothing : VfsStateMachineResponse
nothing = record { response = VfsResponse.ok none }

module _ (o : OpenRaft) where
  unfoldable pub new : RaftGroupId → VfsStateMachine o
  unfolding Store.new
  new group_id = record {
    vfs = Store.new group_id;
    last_applied_log = none;
    membership = o.unstored;
    group_id = group_id;
  }

  unfoldable pub with_vfs : RaftGroupId → Vfs → VfsStateMachine o
  with_vfs group_id vfs = record {
    vfs = vfs;
    last_applied_log = none;
    membership = o.unstored;
    group_id = group_id;
  }

  module _ (env : Env) where
    -- the `match` on the payload, after the log id was written
    unfoldable pub apply_payload :
        o.LogId → EntryPayload o → VfsStateMachine o → VfsStateMachine o × VfsStateMachineResponse
    apply_payload log_id blank sm = (sm, nothing)
    apply_payload log_id (normal request) sm =
        let (vfs, response) = Store.apply env request.command sm.vfs in
        (record sm { vfs = vfs }, record { response = response })
    apply_payload log_id (membership m) sm =
        (record sm { membership = o.stored (some log_id) m }, nothing)

    unfoldable pub apply_entry :
        Entry o → VfsStateMachine o → VfsStateMachine o × VfsStateMachineResponse
    unfolding apply_payload
    apply_entry entry sm =
        apply_payload entry.log_id entry.payload
          (record sm { last_applied_log = some entry.log_id })

    -- `apply`, which never fails
    unfoldable pub apply :
        List (Entry o) → VfsStateMachine o → VfsStateMachine o × List VfsStateMachineResponse
    apply [] sm = (sm, [])
    apply (entry ∷ entries) sm =
        let (sm', r) = apply_entry entry sm in let (sm'', rs) = apply entries sm' in (sm'', r ∷ rs)

    unfoldable pub applied_state : VfsStateMachine o → Option o.LogId × o.StoredMembership
    applied_state sm = (sm.last_applied_log, sm.membership)

    -- the loop of `install_snapshot`
    unfoldable pub restore_files : List VfsFile → Vfs → Vfs
    unfolding FileContent.as_str
    restore_files [] v = v
    restore_files (file ∷ files) v =
        let content = Option.get_or (FileContent.as_str file.content) [] in
        restore_files files (Store.apply env (VfsCommand.create_file file.path content) v).0

  -- the files in the order of the ids
  unfoldable pub snapshot_of : VfsStateMachine o → VfsSnapshot o
  unfolding all_file_ids get_file
  snapshot_of sm = record {
    last_applied_log = sm.last_applied_log;
    membership = sm.membership;
    files = filter_map (λ id. get_file id sm.vfs) (all_file_ids sm.vfs);
  }

  module _ (codec : Codec o) where
    -- `now` is the text of `chrono::Utc::now().timestamp()`.
    unfoldable pub build_snapshot : Text → VfsStateMachine o → StorageResult (Snapshot o)
    unfolding snapshot_of
    build_snapshot now sm = elim (codec.to_vec (snapshot_of sm)) [
      | none ↦ err (record { subject = state_machine; verb = write })
      | some bytes ↦
          let index = Option.get_or (Option.map o.index sm.last_applied_log) 0 in
          ok (record {
            meta = record {
              last_log_id = sm.last_applied_log;
              last_membership = sm.membership;
              snapshot_id = decimal index ++ (codes "-" ++ now);
            };
            snapshot = bytes;
          })
    ]

    unfoldable pub install_snapshot :
        Env → SnapshotMeta o → Text → VfsStateMachine o → StorageResult (VfsStateMachine o)
    unfolding restore_files
    install_snapshot env meta snapshot sm = elim (codec.from_slice snapshot) [
      | none ↦ err (record { subject = state_machine; verb = read })
      | some s ↦ ok (record sm {
        vfs = restore_files env s.files sm.vfs;
        last_applied_log = s.last_applied_log;
        membership = s.membership;
      })
    ]

    unfoldable pub get_current_snapshot :
        Text → VfsStateMachine o → StorageResult (Option (Snapshot o))
    get_current_snapshot now sm = elim (build_snapshot now sm) [
      | err e ↦ err e
      | ok s ↦ ok (some s)
    ]
