-- ===== src/Prelude/Sets.antt =====
-- `HashSet` as a list: an element is tested by its `Eq`, and no client depends on the order.
use Prim.Native.Nat.{ℕ, suc, ◌+◌, ◌≤◌}
use mathlib.Core.Bool.{Bool, true, false, not, ◌&&◌, ◌||◌}
use mathlib.Core.List.{List, [], ◌∷◌, ◌++◌}
use mathlib.Core.Path.{◌≡◌, refl}
use native.Mathlib.Omega.{arith}
use vraftls.Prelude.Tests.{if◌then◌else◌}
use vraftls.Prelude.Equality.{Eq, ◌==◌, beq_refl}

abbrev pub Set {ℓ} : Type ℓ → Type ℓ
Set A = List A

module _ {ℓ} {A : Type ℓ} ⦃e : Eq A⦄ where
  -- `contains`
  abbrev pub member : A → Set A → Bool
  member a [] = false
  member a (x ∷ xs) = (x == a) || member a xs

  unfoldable pub insert : A → Set A → Set A
  insert a s = if member a s then s else a ∷ s

  unfoldable pub remove : A → Set A → Set A
  remove a [] = []
  remove a (x ∷ xs) = let rest = remove a xs in if x == a then rest else x ∷ rest

  pub member-insert : (a b : A) (s : Set A) → member b (insert a s) ≡ ((a == b) || member b s)
  unfolding insert
  member-insert a b s = ground (arith, e.decides a b)

  pub member-remove : (a b : A) (s : Set A) → member b (remove a s) ≡ (not (a == b) && member b s)
  unfolding remove
  member-remove a b [] = ground arith
  member-remove a b (x ∷ xs) =
      ground (arith, member-remove a b xs, e.decides x a, e.decides x b, e.decides a b)

  pub member-append : (a : A) (xs ys : List A) → member a (xs ++ ys) ≡ (member a xs || member a ys)
  member-append a [] ys = refl
  member-append a (x ∷ xs) ys = ground (arith, member-append a xs ys)

  -- the elements of a list, repetitions counted, that a set does not have
  abbrev pub missing : Set A → List A → ℕ
  missing s [] = 0
  missing s (x ∷ xs) = let rest = missing s xs in if member x s then rest else suc rest

  pub missing-cons_le : (a : A) (s : Set A) (xs : List A) → missing (a ∷ s) xs ≤ missing s xs
  missing-cons_le a s [] = omega arith
  missing-cons_le a s (x ∷ xs) = ground (arith, missing-cons_le a s xs)

  -- A new element of the list that enters the set is no longer missing.
  pub missing-cons :
      (a : A) (s : Set A) (xs : List A)
      → member a s ≡ false
      → member a xs ≡ true
      → missing (a ∷ s) xs + 1 ≤ missing s xs
  missing-cons a s [] h m = absurd (cc)
  missing-cons a s (x ∷ xs) h m =
      ground (arith, missing-cons a s xs, missing-cons_le a s xs, e.decides x a, beq_refl a)

  -- no element stands twice
  abbrev pub IsDistinct : List A → Type 0
  IsDistinct [] = Unit
  IsDistinct (x ∷ xs) = (member x xs ≡ false) × IsDistinct xs
