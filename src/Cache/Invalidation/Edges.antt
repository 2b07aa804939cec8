-- ===== src/Cache/Invalidation/Edges.antt =====
-- The direct dependents after each operation of
-- crates/vraftls-cache/src/invalidation.rs, as one relation.
use vraftls.Prelude.{
  ◌≡◌, ◌≢◌, ◌⊎◌, ◌↔◌, true, not, ◌&&◌, ◌||◌, [], ◌∷◌, arith, inl, inr, Option-cases, nat_eq, ◌==◌,
  ==_iff,
}
use vraftls.Prelude.Map
use vraftls.Prelude.Map.{Map}
use vraftls.Prelude.Sets
use vraftls.Prelude.Sets.{Set, member}
use vraftls.Core.Types.{FileId}
use vraftls.Cache.Invalidation.{
  DependencyGraph, new, set_at, insert_at, add_dependency, remove_dependent, remove_file, Edge,
}

pub member-set_at-insert_at :
    (key file a b : FileId) (m : Map FileId (Set FileId))
    → member b (set_at a (insert_at key file m))
      ≡ (((key == a) && (file == b)) || member b (set_at a m))
unfolding set_at insert_at
member-set_at-insert_at key file a b m = ground (
  arith,
  Map.get-insert key a (Sets.insert file (set_at key m)) m,
  Sets.member-insert file b (set_at key m),
)

pub member-set_at-remove :
    (key a b : FileId) (m : Map FileId (Set FileId))
    → member b (set_at a (Map.remove key m)) ≡ (not (key == a) && member b (set_at a m))
unfolding set_at
member-set_at-remove key a b m = ground (arith, Map.get-remove key a m)

pub member-remove_dependent :
    (file a b : FileId) (deps : Set FileId) (m : Map FileId (Set FileId))
    → member b (set_at a (remove_dependent file deps m))
      ≡ (not (member a deps && (file == b)) && member b (set_at a m))
unfolding remove_dependent set_at
member-remove_dependent file a b [] m = ground arith
member-remove_dependent file a b (dep ∷ deps) m = elim (Option-cases (Map.get dep m)) [
  | inl p ↦ rw p (ground (arith, member-remove_dependent file a b deps m, ==_iff dep a))
  | inr (files, p) ↦
      let m' = Map.insert dep (Sets.remove file files) m in
      rw p (
        ground (
          arith,
          member-remove_dependent file a b deps m',
          Map.get-insert dep a (Sets.remove file files) m,
          Sets.member-remove file b files,
          ==_iff dep a,
        ))
]

-- What is a dependent of a file lists it among its dependencies. `remove_file` keeps this, but
-- not the converse: the dependents of the file that goes still list it.
abbrev pub IsCovered : DependencyGraph → Type 0
IsCovered g = (a b : FileId) → Edge g a b → member a (set_at b g.dependencies) ≡ true

pub Edge-new : (a b : FileId) → ¬ Edge new a b
unfolding set_at Map.get
Edge-new a b h = cc

pub Edge-add_dependency :
    (dependent dependency a b : FileId) (g : DependencyGraph)
    → Edge (add_dependency dependent dependency g) a b
      ↔ (((a ≡ dependency) × (b ≡ dependent)) ⊎ Edge g a b)
unfolding add_dependency
Edge-add_dependency dependent dependency a b g = ground (
  arith,
  member-set_at-insert_at dependency dependent a b g.dependents,
  ==_iff dependency a,
  ==_iff dependent b,
)

pub dependents-remove_file :
    (file : FileId) (g : DependencyGraph)
    → (remove_file file g).dependents
      ≡ Map.remove file (remove_dependent file (set_at file g.dependencies) g.dependents)
unfolding remove_file set_at remove_dependent
dependents-remove_file file g = ground arith

-- Removing a file from a graph whose dependents are covered removes exactly the edges at the file.
pub Edge-remove_file :
    (file a b : FileId) (g : DependencyGraph)
    → IsCovered g
    → Edge (remove_file file g) a b ↔ (Edge g a b × (a ≢ file) × (b ≢ file))
Edge-remove_file file a b g h =
    let deps = set_at file g.dependencies in
    rw (dependents-remove_file file g) (
      ground (
        arith,
        h a b,
        member-set_at-remove file a b (remove_dependent file deps g.dependents),
        member-remove_dependent file a b deps g.dependents,
      ))

pub IsCovered-new : IsCovered new
IsCovered-new a b h = absurd (Edge-new a b h)

pub IsCovered-add_dependency :
    (dependent dependency : FileId) (g : DependencyGraph)
    → IsCovered g
    → IsCovered (add_dependency dependent dependency g)
unfolding add_dependency
IsCovered-add_dependency dependent dependency g h a b edge = ground (
  arith,
  h a b,
  member-set_at-insert_at dependency dependent a b g.dependents,
  member-set_at-insert_at dependent dependency b a g.dependencies,
)

pub IsCovered-remove_file :
    (file : FileId) (g : DependencyGraph) → IsCovered g → IsCovered (remove_file file g)
unfolding remove_file
IsCovered-remove_file file g h a b edge = ground (
  arith,
  h a b,
  (Edge-remove_file file a b g h).0 edge,
  member-set_at-remove file b a g.dependencies,
)
