-- ===== src/Raft/StateMachine/Logs.antt =====
-- What holds of the file system of a state machine, whatever log is applied to it
-- (crates/vraftls-raft/src/state_machine.rs).
use vraftls.Prelude.{ℕ, ◌+◌, ◌<◌, ◌≤◌, ◌≡◌, refl, some, List, [], ◌∷◌, arith}
use vraftls.Core.Types.{u64_mod, FileId}
use vraftls.Vfs.VfsFile.{Env}
use vraftls.Vfs.Store
use vraftls.Vfs.Store.{Vfs}
use vraftls.Vfs.Store.Invariant.{IsValid}
use vraftls.Vfs.Store.Invariant.Apply.{creates, apply_room, apply-IsValid}
use vraftls.Vfs.Store.Replicas.{SameData, apply-SameData}
use vraftls.Vfs.Store.History.{IsRetired, apply-IsRetired}
use vraftls.Raft.Types.{OpenRaft, EntryPayload, blank, normal, membership, Entry}
use vraftls.Raft.StateMachine.{VfsStateMachine, apply_payload, apply_entry, apply}

module _ (o : OpenRaft) where
  -- How many ids a log may take.
  abbrev pub creates_payload : EntryPayload o → ℕ
  creates_payload (normal request) = creates request.command
  creates_payload _ = 0

  abbrev pub creates_log : List (Entry o) → ℕ
  creates_log [] = 0
  creates_log (x ∷ xs) = creates_payload x.payload + creates_log xs

  -- Two machines that stand at the same log position with the same data.
  pub record SameState (a b : VfsStateMachine o) : Type 0 where
    pub data_same : SameData a.vfs b.vfs
    pub log_same : a.last_applied_log ≡ b.last_applied_log
    pub membership_same : a.membership ≡ b.membership

module _ (o : OpenRaft) (env : Env) where
  payload_room :
      (id : o.LogId) (p : EntryPayload o) (sm : VfsStateMachine o)
      → sm.vfs.next_file_id + creates_payload o p < u64_mod
      → (apply_payload o env id p sm).0.vfs.next_file_id ≤ sm.vfs.next_file_id + creates_payload o p
  unfolding apply_payload
  payload_room id blank sm room = omega arith
  payload_room id (normal request) sm room = apply_room env request.command sm.vfs room
  payload_room id (membership m) sm room = omega arith

  -- A property of file systems that every command keeps, while there are ids left, is kept by
  -- every log.
  module _ (P : Vfs → Type 0)
      (keep : (c : _) (v : Vfs)
        → v.next_file_id + creates c < u64_mod
        → P v
        → P (Store.apply env c v).0) where
    payload_keeps :
        (id : o.LogId) (p : EntryPayload o) (sm : VfsStateMachine o)
        → sm.vfs.next_file_id + creates_payload o p < u64_mod
        → P sm.vfs
        → P (apply_payload o env id p sm).0.vfs
    unfolding apply_payload
    payload_keeps id blank sm room h = h
    payload_keeps id (normal request) sm room h = keep request.command sm.vfs room h
    payload_keeps id (membership m) sm room h = h

    pub log_keeps :
        (xs : List (Entry o)) (sm : VfsStateMachine o)
        → sm.vfs.next_file_id + creates_log o xs < u64_mod
        → P sm.vfs
        → P (apply o env xs sm).0.vfs
    unfolding apply apply_entry
    log_keeps [] sm room h = h
    log_keeps (x ∷ xs) sm room h =
        let sm' = record sm { last_applied_log = some x.log_id } in
        let used = payload_room x.log_id x.payload sm' (omega arith) in
        log_keeps xs (apply_payload o env x.log_id x.payload sm').0 (omega arith)
          (payload_keeps x.log_id x.payload sm' (omega arith) h)

  -- Whatever log is applied, the file system stays valid, as long as the ids that the log may take
  -- do not reach 2^64.
  pub apply_log-IsValid :
      (xs : List (Entry o)) (sm : VfsStateMachine o)
      → sm.vfs.next_file_id + creates_log o xs < u64_mod
      → IsValid env sm.vfs
      → IsValid env (apply o env xs sm).0.vfs
  apply_log-IsValid = log_keeps (IsValid env) (apply-IsValid env)

  -- Whatever log is applied, an id that was given out and whose file is gone is not used again.
  pub apply_log-IsRetired :
      (id : FileId) (xs : List (Entry o)) (sm : VfsStateMachine o)
      → sm.vfs.next_file_id + creates_log o xs < u64_mod
      → IsRetired env id sm.vfs
      → IsRetired env id (apply o env xs sm).0.vfs
  apply_log-IsRetired id = log_keeps (IsRetired env id) (apply-IsRetired env id)

module _ (o : OpenRaft) (env env' : Env) (hash : env.hash ≡ env'.hash) where
  payload-SameState :
      (id : o.LogId) (p : EntryPayload o) (a b : VfsStateMachine o)
      → SameState o a b
      → SameState o (apply_payload o env id p a).0 (apply_payload o env' id p b).0
        × ((apply_payload o env id p a).1 ≡ (apply_payload o env' id p b).1)
  unfolding apply_payload
  payload-SameState id blank a b h = (h, refl)
  payload-SameState id (normal request) a b h =
      let (s, r) = apply-SameData env env' hash request.command a.vfs b.vfs h.data_same in
      (record { data_same = s; log_same = h.log_same; membership_same = h.membership_same }, cc r)
  payload-SameState id (membership m) a b h =
      (record { data_same = h.data_same; log_same = h.log_same; membership_same = refl }, refl)

  -- Replicated state machine: two nodes in the same state that apply the same log give the same
  -- responses and end in the same state, whatever their clocks show; only timestamps differ.
  pub apply-SameState :
      (xs : List (Entry o)) (a b : VfsStateMachine o)
      → SameState o a b
      → SameState o (apply o env xs a).0 (apply o env' xs b).0
        × ((apply o env xs a).1 ≡ (apply o env' xs b).1)
  unfolding apply apply_entry
  apply-SameState [] a b h = (h, refl)
  apply-SameState (x ∷ xs) a b h =
      let a' = record a { last_applied_log = some x.log_id } in
      let b' = record b { last_applied_log = some x.log_id } in
      let (s, r) = payload-SameState x.log_id x.payload a' b' (record {
        data_same = h.data_same;
        log_same = refl;
        membership_same = h.membership_same;
      }) in
      let (t, rs) =
        apply-SameState xs (apply_payload o env x.log_id x.payload a').0
          (apply_payload o env' x.log_id x.payload b').0 s in
      (t, cc (r, rs))
