-- ===== src/Raft/StateMachine/Apply.antt =====
-- What `apply` of the state machine (crates/vraftls-raft/src/state_machine.rs) does with a log.
use vraftls.Prelude.{◌≡◌, refl, ap, ◌∙◌, Option, some, List, [], ◌∷◌, ◌++◌, arith, length}
use vraftls.Vfs.VfsFile.{Env}
use vraftls.Raft.Types.{OpenRaft, EntryPayload, blank, normal, membership, Entry}
use vraftls.Raft.StateMachine.{VfsStateMachine, apply_payload, apply_entry, apply}

module _ (o : OpenRaft) (env : Env) where
  -- Applying a log in two batches is applying it whole: the same state, the same responses in the
  -- same order.
  pub apply-append :
      (xs ys : List (Entry o)) (sm : VfsStateMachine o)
      → apply o env (xs ++ ys) sm ≡ (
        (apply o env ys (apply o env xs sm).0).0,
        (apply o env xs sm).1 ++ (apply o env ys (apply o env xs sm).0).1,
      )
  unfolding apply
  apply-append [] ys sm = refl
  apply-append (x ∷ xs) ys sm =
      let ih = apply-append xs ys (apply_entry o env x sm).0 in ground arith

  -- the last of some entries, or what was there before
  abbrev pub last_log : Option o.LogId → List (Entry o) → Option o.LogId
  last_log before [] = before
  last_log before (x ∷ xs) = last_log (some x.log_id) xs

  abbrev pub member_after : o.StoredMembership → o.LogId → EntryPayload o → o.StoredMembership
  member_after before log_id (membership m) = o.stored (some log_id) m
  member_after before log_id _ = before

  abbrev pub last_membership : o.StoredMembership → List (Entry o) → o.StoredMembership
  last_membership before [] = before
  last_membership before (x ∷ xs) = last_membership (member_after before x.log_id x.payload) xs

  payload_log :
      (id : o.LogId) (p : EntryPayload o) (sm : VfsStateMachine o)
      → ((apply_payload o env id p sm).0.last_applied_log ≡ sm.last_applied_log)
        × ((apply_payload o env id p sm).0.membership ≡ member_after sm.membership id p)
        × ((apply_payload o env id p sm).0.group_id ≡ sm.group_id)
  unfolding apply_payload
  payload_log id blank sm = (refl, refl, refl)
  payload_log id (normal request) sm = (refl, refl, refl)
  payload_log id (membership m) sm = (refl, refl, refl)

  -- After `apply` the machine stands at the log id of the last entry, holds the membership of the
  -- last membership entry with its log id, and has answered each entry once.
  pub apply_log :
      (xs : List (Entry o)) (sm : VfsStateMachine o)
      → ((apply o env xs sm).0.last_applied_log ≡ last_log sm.last_applied_log xs)
        × ((apply o env xs sm).0.membership ≡ last_membership sm.membership xs)
        × (length (apply o env xs sm).1 ≡ length xs)
  unfolding apply apply_entry
  apply_log [] sm = (refl, refl, refl)
  apply_log (x ∷ xs) sm =
      let sm' = record sm { last_applied_log = some x.log_id } in
      let (p, q, _) = payload_log x.log_id x.payload sm' in
      let (a, b, c) = apply_log xs (apply_payload o env x.log_id x.payload sm').0 in
      (a ∙ ap (λ l. last_log l xs) p, b ∙ ap (λ m. last_membership m xs) q, omega arith)
