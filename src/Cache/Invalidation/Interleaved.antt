-- ===== src/Cache/Invalidation/Interleaved.antt =====
-- The methods of crates/vraftls-cache/src/invalidation.rs as they run at the same time: each takes
-- its locks one after the other, so that another method may run between two of its steps.
use vraftls.Prelude.{
  ◌≡◌, ◌≢◌, refl, All, ap, ◌∙◌, Bool, true, false, List, [], ◌∷◌, Option, none, some, arith, nat_eq,
}
use vraftls.Prelude.Map
use vraftls.Prelude.Sets.{Set, member}
use vraftls.Core.Types.{FileId}
use vraftls.Cache.Invalidation.{
  DependencyGraph, insert_at, set_at, add_dependency, remove_dependent, remove_file, Edge,
}
use vraftls.Cache.Invalidation.Edges.{
  dependents-remove_file, member-set_at-remove, member-remove_dependent, member-set_at-insert_at,
}

-- where a method stands: before its first lock, or with the locks already taken
pub data Task : Type 0 where
  adding : FileId → FileId → Task
  adding_dependency : FileId → FileId → Task
  removing : FileId → Task
  removing_listed : FileId → Option (Set FileId) → Task
  removing_dependents : FileId → Task
  removing_dependencies : FileId → Task

-- what a method does under its next lock, and where it then stands
unfoldable pub step : Task → DependencyGraph → DependencyGraph × Option Task
unfolding insert_at remove_dependent Map.remove Map.get
step (adding dependent dependency) g = (
  record g { dependents = insert_at dependency dependent g.dependents },
  some (adding_dependency dependent dependency),
)
step (adding_dependency dependent dependency) g =
    (record g { dependencies = insert_at dependent dependency g.dependencies }, none)
step (removing file_id) g = (g, some (removing_listed file_id (Map.get file_id g.dependencies)))
step (removing_listed file_id deps) g = (
  record g {
    dependents = elim deps [
      | none ↦ g.dependents
      | some listed ↦ remove_dependent file_id listed g.dependents
    ];
  },
  some (removing_dependents file_id),
)
step (removing_dependents file_id) g = (
  record g { dependents = Map.remove file_id g.dependents },
  some (removing_dependencies file_id),
)
step (removing_dependencies file_id) g =
    (record g { dependencies = Map.remove file_id g.dependencies }, none)

unfoldable pub step_if : Option Task → DependencyGraph → DependencyGraph × Option Task
unfolding step
step_if none g = (g, none)
step_if (some task) g = step task g

-- two methods at once: the schedule says whose step comes next
unfoldable pub interleave :
    List Bool → Option Task → Option Task → DependencyGraph → DependencyGraph
unfolding step_if
interleave [] left right g = g
interleave (true ∷ schedule) left right g =
    let s = step_if left g in interleave schedule s.1 right s.0
interleave (false ∷ schedule) left right g =
    let s = step_if right g in interleave schedule left s.1 s.0

-- Two methods whose steps do not mix are the methods run one after the other.
pub interleave-alone :
    (file dependent dependency : FileId) (g : DependencyGraph)
    → (interleave
          (true ∷ true ∷ true ∷ true ∷ false ∷ false ∷ [])
          (some (removing file))
          (some (adding dependent dependency))
          g
        ≡ add_dependency dependent dependency (remove_file file g))
      × (interleave
            (false ∷ false ∷ true ∷ true ∷ true ∷ true ∷ [])
            (some (removing file))
            (some (adding dependent dependency))
            g
          ≡ remove_file file (add_dependency dependent dependency g))
unfolding interleave add_dependency remove_file step
interleave-alone file dependent dependency g = (refl, refl)

-- What is not listed on the side of the file stays a dependent when any file but the dependency is
-- removed, and is still not listed.
Edge-remove_file_unlisted :
    (removed file dependency : FileId) (g : DependencyGraph)
    → dependency ≢ removed
    → set_at file g.dependencies ≡ []
    → Edge g dependency file
    → Edge (remove_file removed g) dependency file
Edge-remove_file_unlisted removed file dependency g apart unlisted edge =
    let deps = set_at removed g.dependencies in
    let free : removed ≡ file → member dependency deps ≡ false = λ p.
      ap (λ f. member dependency (set_at f g.dependencies)) p ∙ ap (member dependency) unlisted in
    rw (dependents-remove_file removed g) (
      ground (
        arith,
        free,
        member-set_at-remove removed dependency file (remove_dependent removed deps g.dependents),
        member-remove_dependent removed dependency file deps g.dependents,
      ))

unlisted-remove_file :
    (removed file : FileId) (g : DependencyGraph)
    → set_at file g.dependencies ≡ []
    → set_at file (remove_file removed g).dependencies ≡ []
unfolding remove_file set_at
unlisted-remove_file removed file g h =
    ground (arith, h, Map.get-remove removed file g.dependencies)

abbrev pub remove_files : List FileId → DependencyGraph → DependencyGraph
remove_files [] g = g
remove_files (file ∷ files) g = remove_files files (remove_file file g)

Edge-remove_files_unlisted :
    (files : List FileId) (file dependency : FileId) (g : DependencyGraph)
    → All (λ removed. dependency ≢ removed) files
    → set_at file g.dependencies ≡ []
    → Edge g dependency file
    → Edge (remove_files files g) dependency file
Edge-remove_files_unlisted [] file dependency g apart unlisted edge = edge
Edge-remove_files_unlisted (removed ∷ files) file dependency g (apart, others) unlisted edge =
    Edge-remove_files_unlisted files file dependency (remove_file removed g) others
      (unlisted-remove_file removed file g unlisted)
      (Edge-remove_file_unlisted removed file dependency g apart unlisted edge)

-- the graph after the race
abbrev pub raced : FileId → FileId → DependencyGraph → DependencyGraph
raced file dependency g =
    interleave (true ∷ false ∷ false ∷ true ∷ true ∷ true ∷ []) (some (removing file))
      (some (adding file dependency)) g

dependents-raced :
    (file dependency : FileId) (g : DependencyGraph)
    → (raced file dependency g).dependents
      ≡ Map.remove file (
          remove_dependent file
            (set_at file g.dependencies)
            (insert_at dependency file g.dependents))
unfolding interleave step set_at remove_dependent
dependents-raced file dependency g = ground arith

Edge-raced :
    (file dependency : FileId) (g : DependencyGraph)
    → dependency ≢ file
    → member dependency (set_at file g.dependencies) ≡ false
    → Edge (raced file dependency g) dependency file
Edge-raced file dependency g apart unlisted =
    let deps = set_at file g.dependencies in
    let added = insert_at dependency file g.dependents in
    rw (dependents-raced file dependency g) (
      ground (
        arith,
        member-set_at-remove file dependency file (remove_dependent file deps added),
        member-remove_dependent file dependency file deps added,
        member-set_at-insert_at dependency file dependency file g.dependents,
      ))

dependencies-raced :
    (file dependency : FileId) (g : DependencyGraph)
    → set_at file (raced file dependency g).dependencies ≡ []
unfolding interleave step set_at
dependencies-raced file dependency g =
    ground (arith, Map.get-remove file file (insert_at file dependency g.dependencies))

-- `remove_file` of a file has read what the file depends on, and before it goes on, a dependency of
-- the file that is not among it is added: afterwards the file is still a dependent, nothing is left
-- that says so on its side, and no removals of files later, the same file among them or not, take
-- it away, as long as the dependency itself is not removed.
pub remove_file-race :
    (file dependency : FileId) (files : List FileId) (g : DependencyGraph)
    → dependency ≢ file
    → member dependency (set_at file g.dependencies) ≡ false
    → All (λ removed. dependency ≢ removed) files
    → Edge (raced file dependency g) dependency file
      × (set_at file (raced file dependency g).dependencies ≡ [])
      × Edge (remove_files files (raced file dependency g)) dependency file
remove_file-race file dependency files g apart unlisted others =
    let edge = Edge-raced file dependency g apart unlisted in
    let nothing = dependencies-raced file dependency g in
    (
      edge,
      nothing,
      Edge-remove_files_unlisted files file dependency (raced file dependency g) others nothing
          edge,
    )
