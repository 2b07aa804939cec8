-- ===== src/Cluster/Membership/Calls.antt =====
-- The node table (crates/vraftls-cluster/src/membership.rs) under its calls: what they do to the
-- status of one node, and which nodes count as healthy.
use vraftls.Prelude.{
  ◌≡◌, refl, ap, ◌∙◌, ◌⊎◌, ◌↔◌, inl, inr, Option, none, some, List, [], ◌∷◌, arith, nat_eq, Memᴰ,
  mem-filter, Option-cases, Bool-cases, ◌==◌, ==_iff, if◌then◌else◌,
}
use mathlib.Core.Option
use vraftls.Prelude.Map
use vraftls.Prelude.Map.{IsMap}
use vraftls.Core.Types.{NodeId, Timestamp}
use vraftls.Cluster.Membership.{
  NodeStatus, healthy, suspect, down, joining, leaving, is_healthy, after_heartbeat, ClusterNode,
  ClusterMembership, new, upsert_node, get_node, healthy_nodes, modify, mark_suspect, mark_down,
  update_heartbeat, remove_node,
}

-- the statuses that a heartbeat leaves healthy
recovers : (s : NodeStatus) → after_heartbeat s ≡ healthy → (s ≡ healthy) ⊎ (s ≡ suspect)
unfolding after_heartbeat
recovers healthy h = inl refl
recovers suspect h = inr refl
recovers down h = absurd (cc)
recovers joining h = absurd (cc)
recovers leaving h = absurd (cc)

module _ (Addr : Type 0) where
  pub data Call : Type 0 where
    upserting : ClusterNode Addr → Call
    suspecting downing removing : NodeId → Call
    beating : Timestamp → NodeId → Call

  unfoldable pub step : Call → ClusterMembership Addr → ClusterMembership Addr
  unfolding upsert_node mark_suspect mark_down update_heartbeat remove_node
  step (upserting node) = upsert_node node
  step (suspecting id) = mark_suspect id
  step (downing id) = mark_down id
  step (removing id) = remove_node id
  step (beating now id) = update_heartbeat now id

module _ {Addr : Type 0} where
  unfoldable pub run : List (Call Addr) → ClusterMembership Addr → ClusterMembership Addr
  unfolding step
  run [] c = c
  run (call ∷ calls) c = run calls (step Addr call c)

  unfoldable pub status_of : NodeId → ClusterMembership Addr → Option NodeStatus
  unfolding get_node
  status_of id c = Option.map (λ (n : ClusterNode Addr). n.status) (get_node id c)

  -- no node stands twice, and each stands under its id
  pub record IsValid (c : ClusterMembership Addr) : Type 0 where
    pub unique : IsMap c.nodes
    pub keyed : (id : NodeId) (n : ClusterNode Addr) → Map.get id c.nodes ≡ some n → n.id ≡ id

  pub new-IsValid : (id : NodeId) → IsValid (new id)
  unfolding new Map.get
  new-IsValid id = record { unique = tt; keyed = λ i n h. absurd (cc) }

  modify-IsValid :
      (f : ClusterNode Addr → ClusterNode Addr) (id : NodeId) (c : ClusterMembership Addr)
      → ((n : ClusterNode Addr) → (f n).id ≡ n.id)
      → IsValid c
      → IsValid (modify f id c)
  unfolding modify
  modify-IsValid f id c k h = elim (Option-cases (Map.get id c.nodes)) [
    | inl p ↦ rw (p, modify) h
    | inr (n, p) ↦
        rw (p, modify)
          (record {
            unique = Map.insert-IsMap id (f n) c.nodes h.unique;
            keyed = λ i m q. ground (
              arith,
              Map.get-insert id i (f n) c.nodes,
              h.keyed i m,
              h.keyed id n p,
              k n,
              ==_iff id i,
            );
          })
  ]

  pub step-IsValid :
      (call : Call Addr) (c : ClusterMembership Addr) → IsValid c → IsValid (step Addr call c)
  unfolding step upsert_node mark_suspect mark_down update_heartbeat remove_node
  step-IsValid (upserting node) c h = record {
    unique = Map.insert-IsMap node.id node c.nodes h.unique;
    keyed = λ i m q.
        ground (arith, Map.get-insert node.id i node c.nodes, h.keyed i m, ==_iff node.id i);
  }
  step-IsValid (suspecting id) c h = modify-IsValid _ id c (λ n. refl) h
  step-IsValid (downing id) c h = modify-IsValid _ id c (λ n. refl) h
  step-IsValid (beating now id) c h = modify-IsValid _ id c (λ n. refl) h
  step-IsValid (removing id) c h = record {
    unique = Map.remove-IsMap id c.nodes h.unique;
    keyed = λ i m q. ground (arith, Map.get-remove id i c.nodes, h.keyed i m);
  }

  pub run-IsValid :
      (calls : List (Call Addr)) (c : ClusterMembership Addr) → IsValid c → IsValid (run calls c)
  unfolding run
  run-IsValid [] c h = h
  run-IsValid (call ∷ calls) c h = run-IsValid calls (step Addr call c) (step-IsValid call c h)

  -- the nodes called healthy are those whose entry says so
  pub mem-healthy_nodes_of :
      (n : ClusterNode Addr) (c : ClusterMembership Addr)
      → IsValid c
      → Memᴰ n (healthy_nodes c) ↔ ((get_node n.id c ≡ some n) × (n.status ≡ healthy))
  unfolding healthy_nodes get_node is_healthy
  mem-healthy_nodes_of n c h =
      let entries = Map.mem-values n c.nodes h.unique in
      let passing =
        mem-filter (λ (m : ClusterNode Addr). is_healthy m.status) n (Map.values c.nodes) in
      (
        λ m.
            let (stored, is) = passing.0 m in
            let (id, found) = entries.0 stored in
            (ground (arith, h.keyed id n found), ground arith),
        λ p. passing.1 (entries.1 (n.id, p.0), ground arith),
      )

  -- What a call makes of the status of one node, none where there is no such node. A heartbeat
  -- brings back a node that is suspect and leaves every other status.
  unfoldable pub next_status : NodeId → Call Addr → Option NodeStatus → Option NodeStatus
  next_status id (upserting node) old = if node.id == id then some node.status else old
  next_status id (suspecting i) old = if i == id then Option.map (λ _. suspect) old else old
  next_status id (downing i) old = if i == id then Option.map (λ _. down) old else old
  next_status id (removing i) old = if i == id then none else old
  next_status id (beating now i) (some suspect) = if i == id then some healthy else some suspect
  next_status id (beating now i) (some healthy) = some healthy
  next_status id (beating now i) (some down) = some down
  next_status id (beating now i) (some joining) = some joining
  next_status id (beating now i) (some leaving) = some leaving
  next_status id (beating now i) none = none

  status_of-modify :
      (f : ClusterNode Addr → ClusterNode Addr) (i id : NodeId) (c : ClusterMembership Addr)
      → status_of id (modify f i c) ≡ (
          if i == id
          then Option.map (λ (n : ClusterNode Addr). (f n).status) (get_node id c)
          else status_of id c)
  unfolding status_of get_node modify
  status_of-modify f i id c = elim (Option-cases (Map.get i c.nodes)) [
    | inl p ↦ rw (p, modify) (ground (arith, ==_iff i id))
    | inr (n, p) ↦ rw (p, modify) (ground (arith, Map.get-insert i id (f n) c.nodes, ==_iff i id))
  ]

  status_of-step :
      (id : NodeId) (call : Call Addr) (c : ClusterMembership Addr)
      → status_of id (step Addr call c) ≡ next_status id call (status_of id c)
  unfolding step upsert_node mark_suspect mark_down update_heartbeat remove_node status_of get_node
      next_status
  status_of-step id (upserting node) c = ground (arith, Map.get-insert node.id id node c.nodes)
  status_of-step id (suspecting i) c =
      ground (arith, status_of-modify (λ n. record n { status = suspect }) i id c)
  status_of-step id (downing i) c =
      ground (arith, status_of-modify (λ n. record n { status = down }) i id c)
  status_of-step id (removing i) c = ground (arith, Map.get-remove i id c.nodes)
  status_of-step id (beating now i) c = ground (
    arith,
    status_of-modify (λ n. record n { last_heartbeat = now; status = after_heartbeat n.status }) i
        id c,
  )

  unfoldable pub statuses : NodeId → List (Call Addr) → Option NodeStatus → Option NodeStatus
  unfolding next_status
  statuses id [] old = old
  statuses id (call ∷ calls) old = statuses id calls (next_status id call old)

  -- After any calls, what the table says of a node's status is what the calls make of it, one after
  -- the other: putting a node in sets its status, removing it leaves none, `mark_suspect` and
  -- `mark_down` set the status of a node that is there, a heartbeat makes a suspect node healthy and
  -- leaves any other status, and a call at another node changes nothing.
  pub status_of-run :
      (id : NodeId) (calls : List (Call Addr)) (c : ClusterMembership Addr)
      → status_of id (run calls c) ≡ statuses id calls (status_of id c)
  unfolding run statuses
  status_of-run id [] c = refl
  status_of-run id (call ∷ calls) c =
      status_of-run id calls (step Addr call c) ∙ ap (statuses id calls) (status_of-step id call c)

  -- A node that a call leaves healthy was healthy before, or is put in as healthy, or was suspect
  -- and the call is its heartbeat: no heartbeat brings back a node that is down, joining or leaving.
  pub step_healthy :
      (id : NodeId) (call : Call Addr) (c : ClusterMembership Addr)
      → status_of id (step Addr call c) ≡ some healthy
      → (status_of id c ≡ some healthy)
        ⊎ (((node : ClusterNode Addr) × (call ≡ upserting node)
              × (node.id ≡ id)
              × (node.status ≡ healthy))
            ⊎ (((now : Timestamp) × (call ≡ beating now id)) × (status_of id c ≡ some suspect)))
  unfolding next_status after_heartbeat
  step_healthy id (upserting node) c h = elim (Bool-cases (node.id == id)) [
    | inl same ↦ inr (
        inl (
          node,
          refl,
          (==_iff node.id id).0 same,
          ground (arith, status_of-step id (upserting node) c),
        ))
    | inr different ↦ inl (ground (arith, status_of-step id (upserting node) c))
  ]
  step_healthy id (suspecting i) c h =
      ground (arith, status_of-step id (suspecting i) c, ==_iff i id)
  step_healthy id (downing i) c h = ground (arith, status_of-step id (downing i) c, ==_iff i id)
  step_healthy id (removing i) c h = ground (arith, status_of-step id (removing i) c, ==_iff i id)
  step_healthy id (beating now i) c h = elim (Bool-cases (i == id)) [
    | inr different ↦ inl (ground (arith, status_of-step id (beating now i) c))
    | inl same ↦ elim (Option-cases (status_of id c)) [
      | inl p ↦ absurd (ground (arith, status_of-step id (beating now i) c))
      | inr (s, p) ↦ elim (recovers s (ground (arith, status_of-step id (beating now i) c))) [
        | inl was ↦ inl (ground arith)
        | inr was ↦ inr (inr ((now, ap (beating now) ((==_iff i id).0 same)), ground arith))
      ]
    ]
  ]

  -- After any calls on a new table, `healthy_nodes` lists exactly the nodes that `get_node` finds
  -- under their id with the status healthy.
  pub mem-healthy_nodes :
      (calls : List (Call Addr)) (local : NodeId) (n : ClusterNode Addr)
      → Memᴰ n (healthy_nodes (run calls (new local)))
        ↔ ((get_node n.id (run calls (new local)) ≡ some n) × (n.status ≡ healthy))
  mem-healthy_nodes calls local n =
      mem-healthy_nodes_of n (run calls (new local))
        (run-IsValid calls (new local) (new-IsValid local))
