-- ===== src/Prelude/Strings/Pieces.antt =====
-- How `split`, `join` and `rsplit_once` fit together.
use mathlib.Core.Bool.{Bool, false, ◌||◌}
use mathlib.Core.List.{List, [], ◌∷◌, ◌++◌}
use mathlib.Core.Logic.{inl, inr}
use mathlib.Core.Option.{none, some}
use mathlib.Core.Path.{◌≡◌, refl, ap, ◌∙◌}
use native.Mathlib.Omega.{arith}
use Prim.Native.Nat.{ℕ}
use vraftls.Prelude.Tests.{Bool-cases, Option-cases}
use vraftls.Prelude.Equality.{◌==◌, ==_iff, nat_eq, beq_refl}
use vraftls.Prelude.Lists.{All}
use vraftls.Prelude.Strings.{Text, split, join, rsplit_once}

-- the byte stands in the text
abbrev pub has : ℕ → Text → Bool
has c [] = false
has c (x ∷ xs) = (x == c) || has c xs

module _ (c : ℕ) where
  split-cons : (s : Text) → (p : Text) × (ps : List Text) × (split c s ≡ p ∷ ps)
  unfolding split
  split-cons [] = ([], [], refl)
  split-cons (x ∷ xs) =
      let (p, ps, e) = split-cons xs in
      elim (Bool-cases (x == c)) [
        | inl t ↦ ([], p ∷ ps, ground arith)
        | inr f ↦ (x ∷ p, ps, ground arith)
      ]

  -- No piece holds the separator.
  pub has-split : (s : Text) → All (λ p. has c p ≡ false) (split c s)
  unfolding split
  has-split [] = (refl, tt)
  has-split (x ∷ xs) = let (p, ps, e) = split-cons xs in let ih = has-split xs in ground (arith)

  pub split_piece : (p : Text) → has c p ≡ false → split c p ≡ p ∷ []
  unfolding split
  split_piece [] h = refl
  split_piece (x ∷ xs) h = ground (arith, split_piece xs)

  pub split-append :
      (p rest : Text) → has c p ≡ false → split c (p ++ (c ∷ rest)) ≡ p ∷ split c rest
  unfolding split
  split-append [] rest h = let (q, qs, e) = split-cons rest in ground (arith, beq_refl c)
  split-append (x ∷ xs) rest h = ground (arith, split-append xs rest)

  -- Splitting undoes joining, if there is a piece and no piece holds the separator.
  pub split-join :
      (p : Text) (ps : List Text)
      → All (λ q. has c q ≡ false) (p ∷ ps)
      → split c (join c (p ∷ ps)) ≡ p ∷ ps
  unfolding join
  split-join p [] h = split_piece p h.0
  split-join p (q ∷ ps) h = split-append p (join c (q ∷ ps)) h.0 ∙ ap (◌∷◌ p) (split-join q ps h.1)

  rsplit_once-has : (s : Text) → rsplit_once c s ≡ none → has c s ≡ false
  unfolding rsplit_once
  rsplit_once-has [] h = refl
  rsplit_once-has (x ∷ xs) h = ground (arith, rsplit_once-has xs)

  -- The cut is at the last separator.
  pub rsplit_once_parts :
      (s a b : Text) → rsplit_once c s ≡ some (a, b) → (s ≡ a ++ (c ∷ b)) × (has c b ≡ false)
  unfolding rsplit_once
  rsplit_once_parts [] a b h = absurd (cc)
  rsplit_once_parts (x ∷ xs) a b h = elim (Option-cases (rsplit_once c xs)) [
    | inl p ↦ ground (arith, rsplit_once-has xs, ==_iff x c)
    | inr ((a', b'), p) ↦ ground (arith, rsplit_once_parts xs a' b', ==_iff x c)
  ]

  pub rsplit_once-none : (s : Text) → has c s ≡ false → rsplit_once c s ≡ none
  unfolding rsplit_once
  rsplit_once-none [] h = refl
  rsplit_once-none (x ∷ xs) h = ground (arith, rsplit_once-none xs)
