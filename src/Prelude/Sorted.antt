-- ===== src/Prelude/Sorted.antt =====
-- What `BTreeMap` adds to a map, at keys that are numbers: the cut at a key and the last entry.
use Prim.Native.Nat.{ℕ, ◌≤◌}
use mathlib.Core.List.{[], ◌∷◌}
use mathlib.Core.Logic.{inl, inr}
use mathlib.Core.Option.{Option, none, some}
use mathlib.Core.Path.{◌≡◌, refl}
use native.Mathlib.Omega.{arith}
use vraftls.Prelude.Tests.{ltb, Option-cases, if◌then◌else◌}
use vraftls.Prelude.Equality.{nat_eq}
use vraftls.Prelude.Map
use vraftls.Prelude.Map.{Map}

module _ {V : Type 0} where
  -- what `split_off` leaves
  unfoldable pub below : ℕ → Map ℕ V → Map ℕ V
  below k [] = []
  below k ((j, v) ∷ m) = let rest = below k m in if ltb j k then (j, v) ∷ rest else rest

  -- what `split_off` returns
  unfoldable pub from : ℕ → Map ℕ V → Map ℕ V
  from k [] = []
  from k ((j, v) ∷ m) = let rest = from k m in if ltb j k then rest else (j, v) ∷ rest

  -- `iter().next_back()`
  unfoldable pub last_entry : Map ℕ V → Option (ℕ × V)
  last_entry [] = none
  last_entry ((j, v) ∷ m) = elim (last_entry m) [
    | none ↦ some (j, v)
    | some (i, w) ↦ if ltb j i then some (i, w) else some (j, v)
  ]

  pub get-below :
      (k j : ℕ) (m : Map ℕ V) → Map.get j (below k m) ≡ (if ltb j k then Map.get j m else none)
  unfolding below Map.get
  get-below k j [] = ground arith
  get-below k j ((i, v) ∷ m) = ground (arith, get-below k j m)

  pub get-from :
      (k j : ℕ) (m : Map ℕ V) → Map.get j (from k m) ≡ (if ltb j k then none else Map.get j m)
  unfolding from Map.get
  get-from k j [] = ground arith
  get-from k j ((i, v) ∷ m) = ground (arith, get-from k j m)

  -- The last entry is an entry of the map.
  pub get-last_entry :
      (m : Map ℕ V) (j : ℕ) (v : V) → last_entry m ≡ some (j, v) → Map.get j m ≡ some v
  unfolding last_entry Map.get
  get-last_entry [] j v h = absurd (cc)
  get-last_entry ((i, w) ∷ m) j v h = elim (Option-cases (last_entry m)) [
    | inl p ↦ ground arith
    | inr ((k, u), p) ↦ ground (arith, get-last_entry m k u p)
  ]

  -- An empty map has no last entry, and no other has none.
  pub last_entry-none : (m : Map ℕ V) (i : ℕ) → last_entry m ≡ none → Map.get i m ≡ none
  unfolding last_entry Map.get
  last_entry-none [] i h = refl
  last_entry-none ((k, u) ∷ m) i h = absurd (ground arith)

  -- No key is above the last entry's.
  pub last_entry_le :
      (m : Map ℕ V) (j : ℕ) (v : V) (i : ℕ) (w : V)
      → last_entry m ≡ some (j, v)
      → Map.get i m ≡ some w
      → i ≤ j
  unfolding last_entry Map.get
  last_entry_le [] j v i w h g = absurd (cc)
  last_entry_le ((k, u) ∷ m) j v i w h g = elim (Option-cases (last_entry m)) [
    | inl p ↦ ground (arith, last_entry-none m i p)
    | inr ((l, x), p) ↦ ground (arith, last_entry_le m l x i w p)
  ]
