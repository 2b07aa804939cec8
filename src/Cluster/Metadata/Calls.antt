-- ===== src/Cluster/Metadata/Calls.antt =====
-- The cluster metadata (crates/vraftls-cluster/src/metadata.rs) after any calls of its methods.
use vraftls.Prelude.{
  ℕ, ◌+◌, ◌<◌, ◌≤◌, ◌≡◌, refl, false, Option, none, some, List, [], ◌∷◌, arith, nat_eq, list_eq,
  All, length, ◌==◌, if◌then◌else◌,
}
use vraftls.Prelude.Map
use vraftls.Prelude.Sets.{member, IsDistinct}
use vraftls.Core.Types.{RaftGroupId, PartitionKey, u64_mod, metadata_group}
use vraftls.Cluster.Metadata.{
  ClusterMetadata, RoutingEntry, new, lookup, update_routing, get_group_nodes, allocate_group_id,
}

pub data Call : Type 0 where
  updating : PartitionKey → RoutingEntry → Call
  allocating : Call

-- the ids that the calls give out, and the state after them
unfoldable pub run : List Call → ClusterMetadata → List RaftGroupId × ClusterMetadata
unfolding update_routing allocate_group_id
run [] c = ([], c)
run (updating key entry ∷ calls) c = run calls (update_routing key entry c)
run (allocating ∷ calls) c =
    let given = allocate_group_id c in let rest = run calls given.1 in (given.0 ∷ rest.0, rest.1)

-- the entry of the last update of a key
unfoldable pub last_update : PartitionKey → List Call → Option RoutingEntry → Option RoutingEntry
last_update key [] old = old
last_update key (updating k entry ∷ calls) old =
    last_update key calls (if k == key then some entry else old)
last_update key (allocating ∷ calls) old = last_update key calls old

-- Every id given out is at least the counter, as long as the counter does not wrap.
run-bounds :
    (least : ℕ) (calls : List Call) (c : ClusterMetadata)
    → least ≤ c.next_group_id
    → c.next_group_id + length calls < u64_mod
    → All (λ id. least ≤ id) (run calls c).0
unfolding run update_routing allocate_group_id
run-bounds least [] c l h = tt
run-bounds least (updating key entry ∷ calls) c l h =
    run-bounds least calls (update_routing key entry c) l (omega arith)
run-bounds least (allocating ∷ calls) c l h =
    (l, run-bounds least calls (allocate_group_id c).1 (omega arith) (omega arith))

not-member_of_All : (a b : ℕ) (xs : List ℕ) → a < b → All (λ x. b ≤ x) xs → member a xs ≡ false
not-member_of_All a b [] h p = refl
not-member_of_All a b (x ∷ xs) h p = ground (arith, not-member_of_All a b xs h p.1)

run-IsDistinct :
    (calls : List Call) (c : ClusterMetadata)
    → c.next_group_id + length calls < u64_mod
    → IsDistinct (run calls c).0
unfolding run update_routing allocate_group_id
run-IsDistinct [] c h = tt
run-IsDistinct (updating key entry ∷ calls) c h =
    run-IsDistinct calls (update_routing key entry c) (omega arith)
run-IsDistinct (allocating ∷ calls) c h =
    let c' = (allocate_group_id c).1 in
    let next = c.next_group_id + 1 in
    (
      not-member_of_All c.next_group_id next (run calls c').0 (omega arith)
          (run-bounds next calls c' (omega arith) (omega arith)),
      run-IsDistinct calls c' (omega arith),
    )

-- Below 2 ^ 64 - 1 calls on new metadata, no Raft group id is given out twice, and none is the
-- metadata group's.
pub allocate_group_id-IsDistinct :
    (calls : List Call)
    → length calls + 1 < u64_mod
    → IsDistinct (run calls new).0 × All (λ id. metadata_group < id) (run calls new).0
allocate_group_id-IsDistinct calls h =
    (run-IsDistinct calls new (omega arith), run-bounds 1 calls new (omega arith) (omega arith))

lookup-run :
    (calls : List Call) (c : ClusterMetadata) (key : PartitionKey)
    → lookup key (run calls c).1 ≡ last_update key calls (lookup key c)
unfolding run update_routing allocate_group_id lookup last_update
lookup-run [] c key = refl
lookup-run (updating k entry ∷ calls) c key = ground (
  arith,
  lookup-run calls (update_routing k entry c) key,
  Map.get-insert k key entry c.routing_table,
)
lookup-run (allocating ∷ calls) c key = lookup-run calls (allocate_group_id c).1 key

run-get_group_nodes :
    (calls : List Call) (c : ClusterMetadata) (group_id : RaftGroupId)
    → get_group_nodes group_id (run calls c).1 ≡ get_group_nodes group_id c
unfolding run update_routing allocate_group_id get_group_nodes
run-get_group_nodes [] c group_id = refl
run-get_group_nodes (updating k entry ∷ calls) c group_id =
    run-get_group_nodes calls (update_routing k entry c) group_id
run-get_group_nodes (allocating ∷ calls) c group_id =
    run-get_group_nodes calls (allocate_group_id c).1 group_id

-- After any calls on new metadata a look-up finds the entry of the last update of its key, and the
-- nodes of every group are still the empty list, whatever replicas the entries name.
pub run_lem :
    (calls : List Call) (key : PartitionKey) (group_id : RaftGroupId)
    → (lookup key (run calls new).1 ≡ last_update key calls none)
      × (get_group_nodes group_id (run calls new).1 ≡ [])
unfolding lookup get_group_nodes Map.get
run_lem calls key group_id = (lookup-run calls new key, run-get_group_nodes calls new group_id)
