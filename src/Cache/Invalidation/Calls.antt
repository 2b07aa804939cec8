-- ===== src/Cache/Invalidation/Calls.antt =====
-- The dependency graph (crates/vraftls-cache/src/invalidation.rs) after any calls of its methods.
use mathlib.Core.Logic.{⊎_map}
use vraftls.Prelude.{◌≡◌, ◌≢◌, ◌⊎◌, ◌↔◌, List, [], ◌∷◌}
use vraftls.Core.Types.{FileId}
use vraftls.Cache.Invalidation.{DependencyGraph, new, add_dependency, remove_file, Edge}
use vraftls.Cache.Invalidation.Edges.{
  Edge-new, Edge-add_dependency, Edge-remove_file, IsCovered, IsCovered-new,
  IsCovered-add_dependency, IsCovered-remove_file,
}

-- a call that changes the graph
pub data Call : Type 0 where
  adding : FileId → FileId → Call
  removing : FileId → Call

unfoldable pub run : List Call → DependencyGraph → DependencyGraph
unfolding add_dependency remove_file
run [] g = g
run (adding dependent dependency ∷ calls) g = run calls (add_dependency dependent dependency g)
run (removing file ∷ calls) g = run calls (remove_file file g)

-- What the calls promise, with no maps: a relation from the files to their dependents, to which a
-- pair is added, or from which a file is taken with every pair that it stands in.
abbrev pub Promised : List Call → (FileId → FileId → Type 0) → FileId → FileId → Type 0
Promised [] R = R
Promised (adding dependent dependency ∷ calls) R =
    Promised calls (λ a b. ((a ≡ dependency) × (b ≡ dependent)) ⊎ R a b)
Promised (removing file ∷ calls) R = Promised calls (λ a b. R a b × (a ≢ file) × (b ≢ file))

pub IsCovered-run :
    (calls : List Call) (g : DependencyGraph) → IsCovered g → IsCovered (run calls g)
unfolding run
IsCovered-run [] g h = h
IsCovered-run (adding dependent dependency ∷ calls) g h =
    IsCovered-run calls (add_dependency dependent dependency g)
      (IsCovered-add_dependency dependent dependency g h)
IsCovered-run (removing file ∷ calls) g h =
    IsCovered-run calls (remove_file file g) (IsCovered-remove_file file g h)

Promised-↔ :
    (calls : List Call) (R S : FileId → FileId → Type 0)
    → ((a b : FileId) → R a b ↔ S a b)
    → (a b : FileId) → Promised calls R a b ↔ Promised calls S a b
Promised-↔ [] R S h = h
Promised-↔ (adding dependent dependency ∷ calls) R S h =
    Promised-↔ calls _ _ (λ a b. (⊎_map (λ p. p) (h a b).0, ⊎_map (λ p. p) (h a b).1))
Promised-↔ (removing file ∷ calls) R S h =
    Promised-↔ calls _ _ (λ a b. (λ p. ((h a b).0 p.0, p.1, p.2), λ p. ((h a b).1 p.0, p.1, p.2)))

Edge-run_from :
    (calls : List Call) (g : DependencyGraph)
    → IsCovered g
    → (a b : FileId) → Edge (run calls g) a b ↔ Promised calls (Edge g) a b
unfolding run
Edge-run_from [] g h a b = (λ e. e, λ e. e)
Edge-run_from (adding dependent dependency ∷ calls) g h a b =
    let ih =
      Edge-run_from calls (add_dependency dependent dependency g)
        (IsCovered-add_dependency dependent dependency g h) a b in
    let step = Promised-↔ calls _ _ (λ x y. Edge-add_dependency dependent dependency x y g) a b in
    (λ e. step.0 (ih.0 e), λ p. ih.1 (step.1 p))
Edge-run_from (removing file ∷ calls) g h a b =
    let ih = Edge-run_from calls (remove_file file g) (IsCovered-remove_file file g h) a b in
    let step = Promised-↔ calls _ _ (λ x y. Edge-remove_file file x y g h) a b in
    (λ e. step.0 (ih.0 e), λ p. ih.1 (step.1 p))

-- After any calls on a new graph, the direct dependents that the graph records are the relation
-- that the calls promise: a pair per `add_dependency`, and no pair at a file since its removal.
pub Edge-run :
    (calls : List Call) (a b : FileId) → Edge (run calls new) a b ↔ Promised calls (λ _ _. ⊥) a b
Edge-run calls a b =
    let from_new = Edge-run_from calls new IsCovered-new a b in
    let empty = Promised-↔ calls _ _ (λ x y. (Edge-new x y, λ f. absurd f)) a b in
    (λ e. empty.0 (from_new.0 e), λ p. from_new.1 (empty.1 p))

-- Whatever the calls, a dependent that the graph records for a file lists the file among what it
-- depends on, so that `remove_file` finds every entry that it has to drop.
pub run-IsCovered : (calls : List Call) → IsCovered (run calls new)
run-IsCovered calls = IsCovered-run calls new IsCovered-new
