-- ===== src/Lsp/Router.antt =====
-- crates/vraftls-lsp/src/router.rs. The locks are taken one after the other; each method runs alone
-- here. `lsp_types` is not this repository's code: its items are elements of a type, and what
-- `CompletionResponse::Array` wraps is the list itself.
pub mod Calls
use vraftls.Prelude.{
  ℕ, Bool, true, false, not, ◌≡◌, Option, none, some, List, [], ◌∷◌, ◌++◌, Text, nat_eq,
  if◌then◌else◌,
}
use vraftls.Prelude.Map
use vraftls.Prelude.Map.{Map}
use vraftls.Core.Types.{NodeId, RaftGroupId}
use vraftls.Vfs.VfsPath.{VfsPath, path_eq}

pub data RouteDecision : Type 0 where
  single : NodeId → RouteDecision
  local_only : RouteDecision
  scatter_gather : List RaftGroupId → RouteDecision
  two_phase_commit : List RaftGroupId → RouteDecision

pub record LspRouter : Type 0 where
  pub file_cache : Map VfsPath NodeId
  pub group_leaders : Map RaftGroupId NodeId
  pub local_node_id : Option NodeId

abbrev pub new : LspRouter
new = record { file_cache = []; group_leaders = []; local_node_id = none }

unfoldable pub set_local_node : NodeId → LspRouter → LspRouter
set_local_node node_id r = record r { local_node_id = some node_id }

unfoldable pub update_leader : RaftGroupId → NodeId → LspRouter → LspRouter
unfolding Map.insert
update_leader group_id leader r = record r {
  group_leaders = Map.insert group_id leader r.group_leaders;
}

unfoldable pub route_for_file : VfsPath → LspRouter → RouteDecision
unfolding Map.get
route_for_file path r = elim (Map.get path r.file_cache) [
  | none ↦ local_only
  | some node_id ↦ single node_id
]

-- `is_empty`
abbrev pub is_empty {ℓ} : {A : Type ℓ} → List A → Bool
is_empty [] = true
is_empty (x ∷ xs) = false

unfoldable pub route_workspace : LspRouter → RouteDecision
route_workspace r =
    if is_empty r.group_leaders then local_only else scatter_gather (Map.keys r.group_leaders)

unfoldable pub get_leader : RaftGroupId → LspRouter → Option NodeId
unfolding Map.get
get_leader group_id r = Map.get group_id r.group_leaders

unfoldable pub cache_file_owner : VfsPath → NodeId → LspRouter → LspRouter
unfolding Map.insert
cache_file_owner path node_id r = record r { file_cache = Map.insert path node_id r.file_cache }

unfoldable pub invalidate_file : VfsPath → LspRouter → LspRouter
unfolding Map.remove
invalidate_file path r = record r { file_cache = Map.remove path r.file_cache }

unfoldable pub clear : LspRouter → LspRouter
clear r = record r { file_cache = []; group_leaders = [] }

module _ (T : Type 0) where
  pub record ResponseAggregator : Type 0 where
    pub responses : List T
    pub errors : List Text

module _ {T : Type 0} where
  unfoldable pub empty_aggregator : ResponseAggregator T
  empty_aggregator = record { responses = []; errors = [] }

  unfoldable pub add_response : T → ResponseAggregator T → ResponseAggregator T
  add_response response a = record a { responses = a.responses ++ response ∷ [] }

  unfoldable pub add_error : Text → ResponseAggregator T → ResponseAggregator T
  add_error error a = record a { errors = a.errors ++ error ∷ [] }

  unfoldable pub into_results : ResponseAggregator T → List T × List Text
  into_results a = (a.responses, a.errors)

  unfoldable pub has_errors : ResponseAggregator T → Bool
  has_errors a = not (is_empty a.errors)

  unfoldable pub into_completion_response : ResponseAggregator T → Option (List T)
  into_completion_response a = if is_empty a.responses then none else some a.responses

  unfoldable pub into_locations : ResponseAggregator T → Option (List T)
  into_locations a = if is_empty a.responses then none else some a.responses
