-- ===== src/Lsp/Router/Calls.antt =====
-- The router (crates/vraftls-lsp/src/router.rs) after any calls of its methods, and the aggregator
-- after any answers.
use vraftls.Prelude.{
  true, ◌≡◌, ◌≢◌, refl, sym, ap, ◌∙◌, ◌⊎◌, inl, inr, ◌↔◌, Option, none, some, List, [], ◌∷◌, ◌++◌,
  Text, arith, nat_eq, List-cases, ◌==◌, if◌then◌else◌,
}
use mathlib.Core.List.{append-nil, append_assoc}
use vraftls.Prelude.Map
use vraftls.Prelude.Map.{Map, IsMap}
use vraftls.Prelude.Sets.{member, IsDistinct}
use vraftls.Core.Types.{NodeId, RaftGroupId}
use vraftls.Vfs.VfsPath.{VfsPath, path_eq}
use vraftls.Lsp.Router.{
  single, local_only, scatter_gather, LspRouter, new, set_local_node, update_leader, route_for_file,
  route_workspace, cache_file_owner, invalidate_file, clear, ResponseAggregator, empty_aggregator,
  add_response, add_error, into_results, has_errors, into_locations,
}

pub data Call : Type 0 where
  setting_local : NodeId → Call
  leading : RaftGroupId → NodeId → Call
  owning : VfsPath → NodeId → Call
  forgetting : VfsPath → Call
  clearing : Call

unfoldable pub step : Call → LspRouter → LspRouter
unfolding set_local_node update_leader cache_file_owner invalidate_file clear
step (setting_local node) = set_local_node node
step (leading group node) = update_leader group node
step (owning path node) = cache_file_owner path node
step (forgetting path) = invalidate_file path
step clearing = clear

unfoldable pub run : List Call → LspRouter → LspRouter
unfolding step
run [] r = r
run (call ∷ calls) r = run calls (step call r)

-- the owner told last for a path, unless it was forgotten or all was cleared since
unfoldable pub owner : VfsPath → List Call → Option NodeId → Option NodeId
owner path [] old = old
owner path (owning p node ∷ calls) old = owner path calls (if p == path then some node else old)
owner path (forgetting p ∷ calls) old = owner path calls (if p == path then none else old)
owner path (clearing ∷ calls) old = owner path calls none
owner path (setting_local node ∷ calls) old = owner path calls old
owner path (leading group node ∷ calls) old = owner path calls old

-- the leader told last for a group, unless all was cleared since
unfoldable pub leader : RaftGroupId → List Call → Option NodeId → Option NodeId
leader group [] old = old
leader group (leading g node ∷ calls) old =
    leader group calls (if g == group then some node else old)
leader group (clearing ∷ calls) old = leader group calls none
leader group (setting_local node ∷ calls) old = leader group calls old
leader group (owning p node ∷ calls) old = leader group calls old
leader group (forgetting p ∷ calls) old = leader group calls old

file_cache-run :
    (calls : List Call) (r : LspRouter) (path : VfsPath)
    → Map.get path (run calls r).file_cache ≡ owner path calls (Map.get path r.file_cache)
unfolding run step set_local_node update_leader cache_file_owner invalidate_file clear owner Map.get
file_cache-run [] r path = refl
file_cache-run (setting_local node ∷ calls) r path =
    file_cache-run calls (set_local_node node r) path
file_cache-run (leading group node ∷ calls) r path =
    file_cache-run calls (update_leader group node r) path
file_cache-run (owning p node ∷ calls) r path =
    file_cache-run calls (cache_file_owner p node r) path
    ∙ ap (owner path calls) (Map.get-insert p path node r.file_cache)
file_cache-run (forgetting p ∷ calls) r path =
    file_cache-run calls (invalidate_file p r) path
    ∙ ap (owner path calls) (Map.get-remove p path r.file_cache)
file_cache-run (clearing ∷ calls) r path = file_cache-run calls (clear r) path

group_leaders-run :
    (calls : List Call) (r : LspRouter) (group : RaftGroupId)
    → Map.get group (run calls r).group_leaders ≡ leader group calls (Map.get group r.group_leaders)
unfolding run step set_local_node update_leader cache_file_owner invalidate_file clear leader
    Map.get
group_leaders-run [] r group = refl
group_leaders-run (setting_local node ∷ calls) r group =
    group_leaders-run calls (set_local_node node r) group
group_leaders-run (leading g node ∷ calls) r group =
    group_leaders-run calls (update_leader g node r) group
    ∙ ap (leader group calls) (Map.get-insert g group node r.group_leaders)
group_leaders-run (owning p node ∷ calls) r group =
    group_leaders-run calls (cache_file_owner p node r) group
group_leaders-run (forgetting p ∷ calls) r group =
    group_leaders-run calls (invalidate_file p r) group
group_leaders-run (clearing ∷ calls) r group = group_leaders-run calls (clear r) group

IsMap-run :
    (calls : List Call) (r : LspRouter) → IsMap r.group_leaders → IsMap (run calls r).group_leaders
unfolding run step set_local_node update_leader cache_file_owner invalidate_file clear
IsMap-run [] r h = h
IsMap-run (setting_local node ∷ calls) r h = IsMap-run calls (set_local_node node r) h
IsMap-run (leading g node ∷ calls) r h =
    IsMap-run calls (update_leader g node r) (Map.insert-IsMap g node r.group_leaders h)
IsMap-run (owning p node ∷ calls) r h = IsMap-run calls (cache_file_owner p node r) h
IsMap-run (forgetting p ∷ calls) r h = IsMap-run calls (invalidate_file p r) h
IsMap-run (clearing ∷ calls) r h = IsMap-run calls (clear r) tt

-- After any calls on a new router, a request about a file goes to the owner that was told last for
-- its path, and stays local if none was told, or it was forgotten, or all was cleared since.
pub route_for_file-run :
    (calls : List Call) (path : VfsPath)
    → route_for_file path (run calls new)
      ≡ (elim (owner path calls none) [ none ↦ local_only | some node ↦ single node ])
unfolding route_for_file Map.get
route_for_file-run calls path = rw (file_cache-run calls new path, route_for_file) refl

-- After any calls on a new router, a request about the workspace goes to all groups whose leader
-- was told since the last clearing, each once, and stays local exactly if there is none.
pub route_workspace-run :
    (calls : List Call)
    → ((route_workspace (run calls new) ≡ local_only)
        × ((group : RaftGroupId) → leader group calls none ≡ none))
      ⊎ ((groups : List RaftGroupId) × (route_workspace (run calls new) ≡ scatter_gather groups)
          × (groups ≢ [])
          × IsDistinct groups
          × ((group : RaftGroupId)
              → (member group groups ≡ true) ↔ (leader group calls none ≢ none)))
unfolding route_workspace Map.get Map.contains_key
route_workspace-run calls =
    let leaders = (run calls new).group_leaders in
    let told = λ (g : RaftGroupId). group_leaders-run calls new g in
    elim (List-cases leaders) [
      | inl empty ↦ inl (ground arith, λ g. sym (told g) ∙ ap (Map.get g) empty)
      | inr (l, ls, p) ↦ inr (
        Map.keys leaders,
        ground arith,
        ground arith,
        Map.keys-IsDistinct leaders (IsMap-run calls new tt),
        λ g. ground (arith, told g, Map.member-keys g leaders),
      )
    ]

module _ {T : Type 0} where
  -- an answer of one node, a result or an error
  unfoldable pub collect : List (T ⊎ Text) → ResponseAggregator T → ResponseAggregator T
  unfolding add_response add_error
  collect [] a = a
  collect (inl response ∷ answers) a = collect answers (add_response response a)
  collect (inr error ∷ answers) a = collect answers (add_error error a)

  unfoldable pub results_of : List (T ⊎ Text) → List T
  results_of [] = []
  results_of (inl response ∷ answers) = response ∷ results_of answers
  results_of (inr error ∷ answers) = results_of answers

  unfoldable pub errors_of : List (T ⊎ Text) → List Text
  errors_of [] = []
  errors_of (inl response ∷ answers) = errors_of answers
  errors_of (inr error ∷ answers) = error ∷ errors_of answers

  into_results-collect_from :
      (answers : List (T ⊎ Text)) (a : ResponseAggregator T)
      → into_results (collect answers a)
        ≡ (a.responses ++ results_of answers, a.errors ++ errors_of answers)
  unfolding collect results_of errors_of into_results add_response add_error
  into_results-collect_from [] a = rw (append-nil a.responses, append-nil a.errors) refl
  into_results-collect_from (inl response ∷ answers) a =
      into_results-collect_from answers (add_response response a)
      ∙ ap (λ l. (l, a.errors ++ errors_of answers))
          (append_assoc a.responses (response ∷ []) (results_of answers))
  into_results-collect_from (inr error ∷ answers) a =
      into_results-collect_from answers (add_error error a)
      ∙ ap (λ l. (a.responses ++ results_of answers, l))
          (append_assoc a.errors (error ∷ []) (errors_of answers))

  -- From the answers of the nodes the aggregator makes the results and the errors, each in the
  -- order in which they came; it is without locations exactly if there is no result, and has
  -- errors exactly if some answer is an error.
  pub into_results-collect :
      (answers : List (T ⊎ Text))
      → (into_results (collect answers empty_aggregator) ≡ (results_of answers, errors_of answers))
        × ((into_locations (collect answers empty_aggregator) ≡ none) ↔ (results_of answers ≡ []))
        × ((has_errors (collect answers empty_aggregator) ≡ true) ↔ (errors_of answers ≢ []))
  unfolding into_results into_locations has_errors empty_aggregator
  into_results-collect answers =
      let all = into_results-collect_from answers empty_aggregator in
      (all, ground arith, ground arith)
