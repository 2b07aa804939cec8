-- ===== src/Cluster/Tests.antt =====
-- The theorems about crates/vraftls-cluster at small inputs.
use vraftls.Prelude.{ℕ, ◌<◌, ◌≡◌, refl, true, false, some, List, [], ◌∷◌, arith, nat_eq, All}
use vraftls.Core.Types.{metadata_group}
use vraftls.Cluster.Failure
use vraftls.Cluster.Failure.{is_suspect, is_failed}
use vraftls.Prelude.Sets.{IsDistinct}
use vraftls.Cluster.Metadata
use vraftls.Cluster.Metadata.{RoutingEntry, lookup, get_group_nodes}
use vraftls.Cluster.Metadata.Calls
use vraftls.Cluster.Metadata.Calls.{
  updating, allocating, last_update, allocate_group_id-IsDistinct, run_lem,
}
use vraftls.Cluster.Membership.{ClusterNode, suspect, new}
use vraftls.Cluster.Membership.Calls as Members
use vraftls.Cluster.Membership.Calls.{
  upserting, suspecting, beating, step, status_of, statuses, status_of-run, step_healthy,
  mem-healthy_nodes,
}

-- eight seconds of silence under the default limits
suspected :
    (is_suspect 8000000000 Failure.default ≡ true) × (is_failed 8000000000 Failure.default ≡ false)
unfolding is_suspect is_failed
suspected = (refl, refl)

abbrev entry : RoutingEntry
entry = record { group_id = 1; leader = some 4; replicas = 4 ∷ 5 ∷ [] }

abbrev meta_calls : List Calls.Call
meta_calls = allocating ∷ updating (3 ∷ []) entry ∷ allocating ∷ []

allocate_group_id-IsDistinct_example :
    IsDistinct (Calls.run meta_calls Metadata.new).0
    × All (λ id. metadata_group < id) (Calls.run meta_calls Metadata.new).0
allocate_group_id-IsDistinct_example = allocate_group_id-IsDistinct meta_calls (omega arith)

-- an address is a port
abbrev node : ClusterNode ℕ
node = record { id = 4; addr = 7000; status = suspect; raft_groups = 1 ∷ []; last_heartbeat = 10 }

abbrev member_calls : List (Members.Call ℕ)
member_calls = upserting node ∷ beating 30 4 ∷ []

status_of-run_example :
    status_of 4 (Members.run member_calls (new {Addr = ℕ} 4))
    ≡ statuses 4 member_calls (status_of 4 (new {Addr = ℕ} 4))
status_of-run_example = status_of-run 4 member_calls (new 4)
