-- ===== src/Prelude/Map.antt =====
-- `DashMap`, `HashMap` and `BTreeMap` as association lists: a key is tested by its `Eq`, a write
-- drops the old entry, and no client depends on the order of the entries.
use Prim.Native.Nat.{◌+◌}
use mathlib.Core.Bool.{Bool, true, false}
use mathlib.Core.List.Memᴰ
use mathlib.Core.Option
use mathlib.Core.List.{List, [], ◌∷◌, map, Memᴰ}
use mathlib.Core.Logic.{◌↔◌, inl, inr}
use mathlib.Core.Option.{Option, none, some}
use mathlib.Core.Path.{◌≡◌, refl}
use native.Mathlib.Omega.{arith}
use vraftls.Prelude.Tests.{if◌then◌else◌}
use vraftls.Prelude.Equality.{Eq, ◌==◌, ==_iff, beq_refl}
use vraftls.Prelude.Lists.{length, Memᴰ-cons}
use vraftls.Prelude.Sets.{member, IsDistinct}

abbrev pub Map {ℓ} : Type ℓ → Type ℓ → Type ℓ
Map K V = List (K × V)

module _ {ℓ} {K V : Type ℓ} where
  abbrev pub keys : Map K V → List K
  keys = map (λ e. e.0)

  abbrev pub values : Map K V → List V
  values = map (λ e. e.1)

module _ {ℓ} {K V : Type ℓ} ⦃e : Eq K⦄ where
  unfoldable pub get : K → Map K V → Option V
  get k [] = none
  get k ((j, v) ∷ m) = if j == k then some v else get k m

  unfoldable pub remove : K → Map K V → Map K V
  remove k [] = []
  remove k ((j, v) ∷ m) = let rest = remove k m in if j == k then rest else (j, v) ∷ rest

  unfoldable pub insert : K → V → Map K V → Map K V
  unfolding remove
  insert k v m = (k, v) ∷ remove k m

  unfoldable pub contains_key : K → Map K V → Bool
  unfolding get
  contains_key k m = elim (get k m) [ none ↦ false | some _ ↦ true ]

  pub get-empty : (k : K) → get k [] ≡ none
  unfolding get
  get-empty k = refl

  pub get-remove : (k j : K) (m : Map K V) → get j (remove k m) ≡ (if k == j then none else get j m)
  unfolding get remove
  get-remove k j [] = ground arith
  get-remove k j ((i, v) ∷ m) =
      ground (arith, get-remove k j m, e.decides i k, e.decides i j, e.decides k j)

  pub get-insert :
      (k j : K) (v : V) (m : Map K V) → get j (insert k v m) ≡ (if k == j then some v else get j m)
  unfolding get insert
  get-insert k j v m = ground (arith, get-remove k j m)

  pub contains_key-get : (k : K) (m : Map K V) → (contains_key k m ≡ false) ↔ (get k m ≡ none)
  unfolding contains_key
  contains_key-get k m = ground arith

  -- no key stands twice
  abbrev pub IsMap : Map K V → Type ℓ
  IsMap [] = Unit
  IsMap ((k, v) ∷ m) = (get k m ≡ none) × IsMap m

  pub remove-IsMap : (k : K) (m : Map K V) → IsMap m → IsMap (remove k m)
  unfolding remove
  remove-IsMap k [] h = tt
  remove-IsMap k ((j, v) ∷ m) h = ground (arith, get-remove k j m, remove-IsMap k m h.1)

  pub insert-IsMap : (k : K) (v : V) (m : Map K V) → IsMap m → IsMap (insert k v m)
  unfolding insert
  insert-IsMap k v m h = (ground (arith, get-remove k k m, beq_refl k), remove-IsMap k m h)

  -- In a map with no key twice, the entries are what `get` finds.
  pub mem-get : (k : K) (v : V) (m : Map K V) → IsMap m → Memᴰ (k, v) m ↔ (get k m ≡ some v)
  unfolding get
  mem-get k v [] h = (λ d. absurd (Memᴰ.not-nil d), λ p. cc)
  mem-get k v ((j, w) ∷ m) h =
      ground (arith, mem-get k v m h.1, Memᴰ-cons (k, v) (j, w) m, e.decides j k)

  mem-values_of_get : (k : K) (v : V) (m : Map K V) → get k m ≡ some v → Memᴰ v (values m)
  unfolding get
  mem-values_of_get k v [] h = absurd (cc)
  mem-values_of_get k v ((j, w) ∷ m) h =
      ground (arith, mem-values_of_get k v m, Memᴰ-cons v w (values m))

  get_of_mem-values :
      (v : V) (m : Map K V) → IsMap m → Memᴰ v (values m) → (k : K) × (get k m ≡ some v)
  unfolding get
  get_of_mem-values v [] h d = absurd (Memᴰ.not-nil d)
  get_of_mem-values v ((j, w) ∷ m) h d = elim ((Memᴰ-cons v w (values m)).0 d) [
    | inl here ↦ (j, ground (arith, beq_refl j))
    | inr there ↦
        let (k, found) = get_of_mem-values v m h.1 there in (k, ground (arith, ==_iff j k))
  ]

  -- In a map with no key twice, the values are what `get` finds.
  pub mem-values :
      (v : V) (m : Map K V) → IsMap m → Memᴰ v (values m) ↔ ((k : K) × (get k m ≡ some v))
  mem-values v m h = (get_of_mem-values v m h, λ p. mem-values_of_get p.0 v m p.1)

  pub length-remove :
      (k : K) (m : Map K V)
      → IsMap m
      → length m ≡ length (remove k m) + (if contains_key k m then 1 else 0)
  unfolding remove contains_key get
  length-remove k [] h = refl
  length-remove k ((j, v) ∷ m) h = ground (arith, length-remove k m h.1, e.decides j k)

  -- The keys are those that `contains_key` finds, each once.
  pub member-keys : (k : K) (m : Map K V) → member k (keys m) ≡ contains_key k m
  unfolding contains_key get
  member-keys k [] = refl
  member-keys k ((j, v) ∷ m) = ground (arith, member-keys k m)

  pub keys-IsDistinct : (m : Map K V) → IsMap m → IsDistinct (keys m)
  keys-IsDistinct [] h = tt
  keys-IsDistinct ((j, v) ∷ m) h =
      (ground (arith, member-keys j m, contains_key-get j m), keys-IsDistinct m h.1)

module _ {ℓ} {K V W : Type ℓ} where
  abbrev pub map_values : (V → W) → Map K V → Map K W
  map_values f = map (λ e. (e.0, f e.1))

module _ {ℓ} {K V W : Type ℓ} ⦃e : Eq K⦄ (f : V → W) where
  pub get-map_values : (k : K) (m : Map K V) → get k (map_values f m) ≡ Option.map f (get k m)
  unfolding get
  get-map_values k [] = refl
  get-map_values k ((j, v) ∷ m) = ground (arith, get-map_values k m)

  pub map_values-remove :
      (k : K) (m : Map K V) → map_values f (remove k m) ≡ remove k (map_values f m)
  unfolding remove
  map_values-remove k [] = refl
  map_values-remove k ((j, v) ∷ m) = ground (arith, map_values-remove k m)

  pub map_values-insert :
      (k : K) (v : V) (m : Map K V) → map_values f (insert k v m) ≡ insert k (f v) (map_values f m)
  unfolding insert
  map_values-insert k v m = ground (arith, map_values-remove k m)

pub ruleset map_laws = (get-empty, get-remove, get-insert)
