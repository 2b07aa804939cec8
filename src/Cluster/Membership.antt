-- ===== src/Cluster/Membership.antt =====
-- crates/vraftls-cluster/src/membership.rs. A socket address is an element of `Addr`, which the
-- code only stores. `now` is what `Timestamp::now` reads.
pub mod Calls
use vraftls.Prelude.{
  ℕ, Bool, true, false, ◌≡◌, Option, none, some, List, [], ◌∷◌, length, filter, nat_eq,
}
use vraftls.Prelude.Map
use vraftls.Prelude.Map.{Map}
use vraftls.Core.Types.{NodeId, RaftGroupId, Timestamp}

pub data NodeStatus : Type 0 where
  healthy suspect down joining leaving : NodeStatus

-- `status == NodeStatus::Healthy`
unfoldable pub is_healthy : NodeStatus → Bool
is_healthy healthy = true
is_healthy _ = false

-- `status == NodeStatus::Suspect`, and what `update_heartbeat` makes of it
unfoldable pub after_heartbeat : NodeStatus → NodeStatus
after_heartbeat suspect = healthy
after_heartbeat other = other

module _ (Addr : Type 0) where
  pub record ClusterNode : Type 0 where
    pub id : NodeId
    pub addr : Addr
    pub status : NodeStatus
    pub raft_groups : List RaftGroupId
    pub last_heartbeat : Timestamp

  pub record ClusterMembership : Type 0 where
    pub nodes : Map NodeId ClusterNode
    pub local_node_id : NodeId

module _ {Addr : Type 0} where
  unfoldable pub new : NodeId → ClusterMembership Addr
  new local_node_id = record { nodes = []; local_node_id = local_node_id }

  unfoldable pub upsert_node : ClusterNode Addr → ClusterMembership Addr → ClusterMembership Addr
  unfolding Map.insert
  upsert_node node c = record c { nodes = Map.insert node.id node c.nodes }

  unfoldable pub get_node : NodeId → ClusterMembership Addr → Option (ClusterNode Addr)
  unfolding Map.get
  get_node id c = Map.get id c.nodes

  unfoldable pub healthy_nodes : ClusterMembership Addr → List (ClusterNode Addr)
  unfolding is_healthy
  healthy_nodes c = filter (λ n. is_healthy n.status) (Map.values c.nodes)

  -- `if let Some(mut node) = self.nodes.get_mut(&id)`
  unfoldable pub modify :
      (ClusterNode Addr → ClusterNode Addr)
      → NodeId
      → ClusterMembership Addr
      → ClusterMembership Addr
  unfolding Map.get Map.insert
  modify f id c = elim (Map.get id c.nodes) [
    | none ↦ c
    | some node ↦ record c { nodes = Map.insert id (f node) c.nodes }
  ]

  unfoldable pub mark_suspect : NodeId → ClusterMembership Addr → ClusterMembership Addr
  unfolding modify
  mark_suspect = modify (λ node. record node { status = suspect })

  unfoldable pub mark_down : NodeId → ClusterMembership Addr → ClusterMembership Addr
  unfolding modify
  mark_down = modify (λ node. record node { status = down })

  unfoldable pub update_heartbeat :
      Timestamp → NodeId → ClusterMembership Addr → ClusterMembership Addr
  unfolding modify after_heartbeat
  update_heartbeat now =
      modify (λ node. record node { last_heartbeat = now; status = after_heartbeat node.status })

  unfoldable pub remove_node : NodeId → ClusterMembership Addr → ClusterMembership Addr
  unfolding Map.remove
  remove_node id c = record c { nodes = Map.remove id c.nodes }

  unfoldable pub node_count : ClusterMembership Addr → ℕ
  node_count c = length (Map.values c.nodes)

  unfoldable pub healthy_node_count : ClusterMembership Addr → ℕ
  unfolding is_healthy
  healthy_node_count c = length (filter (λ n. is_healthy n.status) (Map.values c.nodes))
