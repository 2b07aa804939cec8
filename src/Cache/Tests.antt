-- ===== src/Cache/Tests.antt =====
-- The theorems about crates/vraftls-cache at a small graph with a cycle.
use vraftls.Prelude.{◌≡◌, refl, ◌↔◌, true, some, [], ◌∷◌, List, nat_eq, arith}
use vraftls.Prelude.Sets.{Set, member}
use vraftls.Core.Types.{FileId}
use vraftls.Cache.Invalidation
use vraftls.Cache.Invalidation.{add_dependency, set_at, remove_file, transitive_dependents, Edge}
use vraftls.Cache.Invalidation.Closure.{Reach, transitive_dependents_decides}
use vraftls.Cache.Invalidation.Calls.{Call, adding, removing, run, Promised, Edge-run}
use vraftls.Cache.Invalidation.Interleaved.{raced, remove_files, remove_file-race}

-- 2 and 3 depend on 1, 1 and 4 on 3
abbrev sample_calls : List Call
sample_calls = adding 2 1 ∷ adding 3 1 ∷ adding 1 3 ∷ adding 4 3 ∷ []

cycle : transitive_dependents 1 (run sample_calls Invalidation.new) ≡ some (1 ∷ 4 ∷ 2 ∷ 3 ∷ [])
unfolding run transitive_dependents
cycle = refl

without_3 :
    transitive_dependents 1 (remove_file 3 (run sample_calls Invalidation.new)) ≡ some (2 ∷ [])
unfolding run transitive_dependents
without_3 = refl

transitive_dependents_decides_example :
    (found : Set FileId) × (transitive_dependents 1 (run sample_calls Invalidation.new)
      ≡ some found)
    × ((a : FileId) → (member a found ≡ true) ↔ ∥ Reach (run sample_calls Invalidation.new) 1 a ∥₁)
transitive_dependents_decides_example =
    transitive_dependents_decides 1 (run sample_calls Invalidation.new)

Edge-run_example :
    Edge (run (adding 2 1 ∷ removing 1 ∷ []) Invalidation.new) 1 2
    ↔ Promised (adding 2 1 ∷ removing 1 ∷ []) (λ _ _. ⊥) 1 2
Edge-run_example = Edge-run (adding 2 1 ∷ removing 1 ∷ []) 1 2

remove_file-race_example :
    Edge (raced 3 2 (run sample_calls Invalidation.new)) 2 3
    × (set_at 3 (raced 3 2 (run sample_calls Invalidation.new)).dependencies ≡ [])
    × Edge (remove_files (3 ∷ 1 ∷ 3 ∷ []) (raced 3 2 (run sample_calls Invalidation.new))) 2 3
unfolding run set_at
remove_file-race_example =
    remove_file-race 3 2 (3 ∷ 1 ∷ 3 ∷ []) (run sample_calls Invalidation.new) (omega arith) refl
      (omega arith, (omega arith, (omega arith, tt)))
