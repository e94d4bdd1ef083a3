-- ===== src/Common/Assoc.antt =====
-- A map as an association list: `HashMap` and `DashMap` with the order of their entries fixed.
use mathlib.Core.Path.{◌≡◌, refl}
use mathlib.Core.Logic.{◌≢◌}
use mathlib.Core.List.{List, [], ◌∷◌}
use mathlib.Core.Option.{Option, none, some}
use native.Mathlib.Omega.{arith}
use logdrain.Common.Tests.{Eq, ◌==◌, if◌then◌else◌}

module _ {ℓ κ} {K : Type ℓ} {V : Type κ} ⦃e : Eq K⦄ where
  unfoldable pub lookup : K → List (K × V) → Option V
  lookup key [] = none
  lookup key (entry ∷ entries) = if entry.0 == key then some entry.1 else lookup key entries

  unfoldable pub insert : K → V → List (K × V) → List (K × V)
  insert key value [] = (key, value) ∷ []
  insert key value (entry ∷ entries) =
      if entry.0 == key then (key, value) ∷ entries else entry ∷ insert key value entries

  -- Every entry with the key: there is at most one.
  unfoldable pub remove : K → List (K × V) → List (K × V)
  remove key [] = []
  remove key (entry ∷ entries) =
      if entry.0 == key then remove key entries else entry ∷ remove key entries

  pub lookup-insert :
      (key other : K) (value : V) (entries : List (K × V))
      → lookup other (insert key value entries)
        ≡ (if key == other then some value else lookup other entries)
  unfolding lookup insert
  lookup-insert key other value [] = refl
  lookup-insert key other value (entry ∷ entries) =
      ground (arith, lookup-insert key other value entries)

  pub lookup-remove :
      (key other : K) (entries : List (K × V))
      → lookup other (remove key entries) ≡ (if key == other then none else lookup other entries)
  unfolding lookup remove
  lookup-remove key other [] = ground arith
  lookup-remove key other (entry ∷ entries) = ground (arith, lookup-remove key other entries)

  pub lookup-insert_self :
      (key : K) (value : V) (entries : List (K × V))
      → lookup key (insert key value entries) ≡ some value
  lookup-insert_self key value entries = ground (arith, lookup-insert key key value entries)

  pub lookup-insert_ne :
      (key other : K) (value : V) (entries : List (K × V))
      → key ≢ other
      → lookup other (insert key value entries) ≡ lookup other entries
  lookup-insert_ne key other value entries h = ground (arith, lookup-insert key other value entries)

  pub lookup-remove_ne :
      (key other : K) (entries : List (K × V))
      → key ≢ other
      → lookup other (remove key entries) ≡ lookup other entries
  lookup-remove_ne key other entries h = ground (arith, lookup-remove key other entries)
