-- ===== src/Cache/Invalidation/Closure.antt =====
-- `transitive_dependents` (crates/vraftls-cache/src/invalidation.rs): the worklist loop ends and
-- finds what the chains of direct dependents reach.
use vraftls.Prelude.{
  ℕ, zero, suc, ◌+◌, ◌≤◌, ◌≡◌, refl, ap, ◌≢◌, ◌⊎◌, ◌↔◌, inl, inr, true, not, ◌&&◌, ◌||◌, List, [],
  ◌∷◌, some, arith, length, Bool-cases, nat_eq, ==_iff,
}
use mathlib.Core.Path.{subst}
use mathlib.Core.Bool.{So-prop}
use mathlib.Core.Logic.{∥∥₁_elim}
use vraftls.Prelude.Map
use vraftls.Prelude.Map.{Map}
use vraftls.Prelude.Sets.{Set, member, member-append, missing, missing-cons}
use vraftls.Core.Types.{FileId}
use vraftls.Cache.Invalidation.{
  DependencyGraph, set_at, visit, search, all_dependents, transitive_dependents, remove_file, Edge,
}
use vraftls.Cache.Invalidation.Edges.{IsCovered, Edge-remove_file}

-- the chains of one or more direct dependents
pub data Reach (g : DependencyGraph) (source : FileId) : FileId → Type 0 where
  direct : {a : FileId} → Edge g source a → Reach g source a
  next : {a b : FileId} → Reach g source a → Edge g a b → Reach g source b

member-visit :
    (a : FileId) (deps result : Set FileId) (stack : List FileId)
    → (member a (visit deps result stack).0 ≡ (member a deps || member a result))
      × (member a (visit deps result stack).1
          ≡ (member a stack || member a deps && not (member a result)))
unfolding visit
member-visit a [] result stack = ground arith
member-visit a (d ∷ deps) result stack = elim (Bool-cases (member d result)) [
  | inl old ↦ rw (old, visit) (ground (arith, member-visit a deps result stack, ==_iff d a))
  | inr new ↦
      rw (new, visit) (ground (arith, member-visit a deps (d ∷ result) (d ∷ stack), ==_iff d a))
]

-- A round pushes only what enters the result, so this falls by one for each round.
visit_work :
    (all : List FileId) (deps result : Set FileId) (stack : List FileId)
    → ((a : FileId) → member a deps ≡ true → member a all ≡ true)
    → missing (visit deps result stack).0 all + length (visit deps result stack).1
      ≤ missing result all + length stack
unfolding visit
visit_work all [] result stack h = omega arith
visit_work all (d ∷ deps) result stack h =
    let rest_in = λ (a : FileId) (m : member a deps ≡ true). h a (ground arith) in
    elim (Bool-cases (member d result)) [
      | inl old ↦ rw (old, visit) (visit_work all deps result stack rest_in)
      | inr new ↦
          rw (new, visit)
            (omega (
              arith,
              visit_work all deps (d ∷ result) (d ∷ stack) rest_in,
              missing-cons d result all new (h d (ground arith)),
            ))
    ]

member-all_dependents :
    (file a : FileId) (m : Map FileId (Set FileId))
    → member a (set_at file m) ≡ true
    → member a (all_dependents m) ≡ true
unfolding set_at Map.get
member-all_dependents file a [] h = absurd (cc)
member-all_dependents file a ((k, deps) ∷ m) h =
    ground (arith, member-all_dependents file a m, member-append a deps (all_dependents m))

search_ends :
    (m : Map FileId (Set FileId)) (fuel : ℕ) (result : Set FileId) (stack : List FileId)
    → missing result (all_dependents m) + length stack ≤ fuel
    → (found : Set FileId) × (search m fuel result stack ≡ some found)
unfolding search
search_ends m zero result [] h = (result, refl)
search_ends m zero result (c ∷ stack) h = absurd (omega arith)
search_ends m (suc fuel) result [] h = (result, refl)
search_ends m (suc fuel) result (c ∷ stack) h =
    let deps = set_at c m in
    search_ends m fuel (visit deps result stack).0 (visit deps result stack).1 (
      omega
        (arith, visit_work (all_dependents m) deps result stack (λ a. member-all_dependents c a m)))

module _ (g : DependencyGraph) (source : FileId) where
  record Inv (result : Set FileId) (stack : List FileId) : Type 0 where
    sound : (a : FileId) → member a result ≡ true → Reach g source a
    stacked : (a : FileId) → member a stack ≡ true → (a ≡ source) ⊎ (member a result ≡ true)
    closed_source :
        (b : FileId) → Edge g source b → (member source stack ≡ true) ⊎ (member b result ≡ true)
    closed :
        (a b : FileId)
        → member a result ≡ true
        → Edge g a b
        → (member a stack ≡ true) ⊎ (member b result ≡ true)

  Inv-start : Inv [] (source ∷ [])
  Inv-start = record {
    sound = λ a h. absurd (cc);
    stacked = λ a h. ground (arith, ==_iff source a);
    closed_source = λ b h. inl (ground arith);
    closed = λ a b h. absurd (cc);
  }

  Reach-popped :
      (c a : FileId) (result : Set FileId) (stack : List FileId)
      → Inv result (c ∷ stack)
      → Edge g c a
      → Reach g source a
  Reach-popped c a result stack h e = elim (h.stacked c (ground (arith, ==_iff c c))) [
    | inl p ↦ direct (subst (λ s. Edge g s a) p e)
    | inr old ↦ next (h.sound c old) e
  ]

  Inv-visit :
      (c : FileId) (result : Set FileId) (stack : List FileId)
      → Inv result (c ∷ stack)
      → Inv
          (visit (set_at c g.dependents) result stack).0
          (visit (set_at c g.dependents) result stack).1
  Inv-visit c result stack h =
      let deps = set_at c g.dependents in
      let at = λ (a : FileId). member-visit a deps result stack in
      record {
        sound = λ a m. elim (Bool-cases (member a result)) [
          | inl old ↦ h.sound a old
          | inr new ↦ Reach-popped c a result stack h (ground (arith, at a))
        ];
        stacked = λ a m. ground (arith, at a, h.stacked a);
        closed_source = λ b e. ground (arith, at source, at b, h.closed_source b, ==_iff c source);
        closed = λ a b m e. ground (arith, at a, at b, h.closed a b, ==_iff c a);
      }

  Inv-search :
      (fuel : ℕ) (result found : Set FileId) (stack : List FileId)
      → Inv result stack
      → search g.dependents fuel result stack ≡ some found
      → Inv found []
  unfolding search
  Inv-search zero result found [] h p = ground arith
  Inv-search zero result found (c ∷ stack) h p = absurd (cc)
  Inv-search (suc fuel) result found [] h p = ground arith
  Inv-search (suc fuel) result found (c ∷ stack) h p =
      let deps = set_at c g.dependents in
      Inv-search fuel (visit deps result stack).0 found (visit deps result stack).1
        (Inv-visit c result stack h) p

  complete :
      (found : Set FileId) → Inv found [] → {a : FileId} → Reach g source a → member a found ≡ true
  complete found h (direct {a} e) = ground (arith, h.closed_source a e)
  complete found h (next {a} {b} r e) = ground (arith, h.closed a b (complete found h r) e)

missing-empty : (xs : List FileId) → missing [] xs ≡ length xs
missing-empty [] = refl
missing-empty (x ∷ xs) = ap suc (missing-empty xs)

transitive_dependents_ends :
    (source : FileId) (g : DependencyGraph)
    → (found : Set FileId) × (transitive_dependents source g ≡ some found) × Inv g source found []
unfolding transitive_dependents
transitive_dependents_ends source g =
    let all = all_dependents g.dependents in
    let (found, ends) =
      search_ends g.dependents (length all + 1) [] (source ∷ [])
        (omega (arith, missing-empty all)) in
    (
      found,
      ends,
      Inv-search g source (length all + 1) [] found (source ∷ []) (Inv-start g source) ends,
    )

-- On every graph, cycles included, the worklist ends with a result, and the result has a file if
-- and only if a chain of one or more direct dependents leads to it from the given file.
pub transitive_dependents_decides :
    (source : FileId) (g : DependencyGraph)
    → (found : Set FileId) × (transitive_dependents source g ≡ some found)
      × ((a : FileId) → (member a found ≡ true) ↔ ∥ Reach g source a ∥₁)
transitive_dependents_decides source g =
    let (found, ends, inv) = transitive_dependents_ends source g in
    (
      found,
      ends,
      λ a. (λ m. ∣ inv.sound a m ∣₁, λ r. ∥∥₁_elim r (So-prop _) (complete g source found inv)),
    )

no-Reach-removed :
    (file source : FileId) (g : DependencyGraph) {a : FileId}
    → IsCovered g
    → Reach (remove_file file g) source a
    → (source ≢ file) × (a ≢ file)
no-Reach-removed file source g {a} h (direct e) =
    let (_, s, t) = (Edge-remove_file file source a g h).0 e in (s, t)
no-Reach-removed file source g {a} h (next {a = b} r e) =
    let (_, s, t) = (Edge-remove_file file b a g h).0 e in
    ((no-Reach-removed file source g h r).0, t)

-- After a file is removed from a graph whose dependents are covered, it is found from no file, and
-- nothing is found from it.
pub transitive_dependents-remove_file :
    (file source a : FileId) (g : DependencyGraph) (found : Set FileId)
    → IsCovered g
    → transitive_dependents source (remove_file file g) ≡ some found
    → member a found ≡ true
    → (source ≢ file) × (a ≢ file)
transitive_dependents-remove_file file source a g found h p m =
    let (found', ends, inv) = transitive_dependents_ends source (remove_file file g) in
    no-Reach-removed file source g h (inv.sound a (ground arith))
