-- ===== src/Cache/Invalidation.antt =====
-- crates/vraftls-cache/src/invalidation.rs: the graph of which file depends on which. Each method
-- runs alone here; `Interleaved` has its locks one by one.
pub mod Edges
pub mod Closure
pub mod Calls
pub mod Interleaved
use vraftls.Prelude.{
  ℕ, zero, suc, ◌+◌, Bool, true, ◌≡◌, Option, none, some, List, [], ◌∷◌, ◌++◌, length, nat_eq,
  if◌then◌else◌,
}
use vraftls.Prelude.Map
use vraftls.Prelude.Map.{Map}
use vraftls.Prelude.Sets
use vraftls.Prelude.Sets.{Set, member}
use vraftls.Core.Types.{FileId}

pub record DependencyGraph : Type 0 where
  pub dependents : Map FileId (Set FileId)
  pub dependencies : Map FileId (Set FileId)

abbrev pub new : DependencyGraph
new = record { dependents = []; dependencies = [] }

-- the set at a key, empty if there is none: `get` in the loops, and `entry(…).or_insert_with(…)`
unfoldable pub set_at : FileId → Map FileId (Set FileId) → Set FileId
unfolding Map.get
set_at file m = elim (Map.get file m) [ none ↦ [] | some files ↦ files ]

-- `entry(key).or_insert_with(HashSet::new).insert(file)`
unfoldable pub insert_at : FileId → FileId → Map FileId (Set FileId) → Map FileId (Set FileId)
unfolding set_at Map.insert Sets.insert
insert_at key file m = Map.insert key (Sets.insert file (set_at key m)) m

unfoldable pub add_dependency : FileId → FileId → DependencyGraph → DependencyGraph
unfolding insert_at
add_dependency dependent dependency g = record {
  dependents = insert_at dependency dependent g.dependents;
  dependencies = insert_at dependent dependency g.dependencies;
}

-- the `for` loop: every dependent that is new to the result is pushed on the stack, whose top is
-- the head of the list here
unfoldable pub visit : Set FileId → Set FileId → List FileId → Set FileId × List FileId
visit [] result to_visit = (result, to_visit)
visit (dep ∷ deps) result to_visit =
    if member dep result
    then visit deps result to_visit
    else visit deps (dep ∷ result) (dep ∷ to_visit)

-- the `while let` loop, a round for each unit of fuel; none if the fuel does not last
unfoldable pub search : Map FileId (Set FileId) → ℕ → Set FileId → List FileId → Option (Set FileId)
unfolding visit set_at
search m fuel result [] = some result
search m zero result (current ∷ to_visit) = none
search m (suc fuel) result (current ∷ to_visit) =
    let next = visit (set_at current m) result to_visit in search m fuel next.0 next.1

-- every dependent of every file
abbrev pub all_dependents : Map FileId (Set FileId) → List FileId
all_dependents [] = []
all_dependents ((file, deps) ∷ m) = deps ++ all_dependents m

unfoldable pub transitive_dependents : FileId → DependencyGraph → Option (Set FileId)
unfolding search
transitive_dependents file_id g =
    search g.dependents (length (all_dependents g.dependents) + 1) [] (file_id ∷ [])

-- the loop of `remove_file` over what the file depends on
unfoldable pub remove_dependent :
    FileId → Set FileId → Map FileId (Set FileId) → Map FileId (Set FileId)
unfolding Map.get Map.insert Sets.remove
remove_dependent file_id [] m = m
remove_dependent file_id (dep ∷ deps) m =
    remove_dependent file_id deps (elim (Map.get dep m) [
      | none ↦ m
      | some files ↦ Map.insert dep (Sets.remove file_id files) m
    ])

unfoldable pub remove_file : FileId → DependencyGraph → DependencyGraph
unfolding remove_dependent Map.get Map.remove
remove_file file_id g = record {
  dependents = Map.remove file_id (elim (Map.get file_id g.dependencies) [
    | none ↦ g.dependents
    | some deps ↦ remove_dependent file_id deps g.dependents
  ]);
  dependencies = Map.remove file_id g.dependencies;
}

-- `target` is recorded as a direct dependent of `source`
abbrev pub Edge : DependencyGraph → FileId → FileId → Type 0
Edge g source target = member target (set_at source g.dependents) ≡ true
