-- ===== src/Cluster/Metadata.antt =====
-- crates/vraftls-cluster/src/metadata.rs: the routing table and the numbers of the Raft groups.
pub mod Calls
use vraftls.Prelude.{
  ℕ, ◌+◌, ◌%◌, ◌<◌, ◌≤◌, ◌≡◌, ◌≢◌, refl, Option, none, some, List, [], ◌∷◌, arith, nat_eq, list_eq,
  All, ◌==◌, if◌then◌else◌,
}
use vraftls.Prelude.Map
use vraftls.Prelude.Map.{Map}
use vraftls.Core.Types.{NodeId, RaftGroupId, PartitionKey, u64_mod, metadata_group}

pub record RoutingEntry : Type 0 where
  pub group_id : RaftGroupId
  pub leader : Option NodeId
  pub replicas : List NodeId

pub record ClusterMetadata : Type 0 where
  pub routing_table : Map PartitionKey RoutingEntry
  pub group_nodes : Map RaftGroupId (List NodeId)
  pub next_group_id : ℕ

abbrev pub new : ClusterMetadata
new = record { routing_table = []; group_nodes = []; next_group_id = 1 }

unfoldable pub lookup : PartitionKey → ClusterMetadata → Option RoutingEntry
unfolding Map.get
lookup key c = Map.get key c.routing_table

unfoldable pub update_routing : PartitionKey → RoutingEntry → ClusterMetadata → ClusterMetadata
unfolding Map.insert
update_routing key entry c = record c { routing_table = Map.insert key entry c.routing_table }

unfoldable pub get_group_nodes : RaftGroupId → ClusterMetadata → List NodeId
unfolding Map.get
get_group_nodes group_id c = elim (Map.get group_id c.group_nodes) [
  | none ↦ []
  | some nodes ↦ nodes
]

-- `*next_id += 1` on a `u64`, which wraps in a release build
unfoldable pub allocate_group_id : ClusterMetadata → RaftGroupId × ClusterMetadata
allocate_group_id c =
    (c.next_group_id, record c { next_group_id = (c.next_group_id + 1) % u64_mod })
