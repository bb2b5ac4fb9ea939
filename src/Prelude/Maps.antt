-- ===== src/Prelude/Maps.antt =====
-- `HashMap` with integer keys as an association list. Where the program iterates over a map, it
-- either visits every entry to the same effect or the model leaves the order to its environment.
use Prim.Native.Nat.{ℕ}
use mathlib.Core.Path.{◌≡◌, refl}
use mathlib.Core.Logic.{inl, inr}
use mathlib.Core.List.{List, [], ◌∷◌}
use mathlib.Core.Option.{Option, none, some}
use native.Mathlib.Omega.{arith}
use botloader.Prelude.Tests.{Bool-cases, ◌==◌, if◌then◌else◌}

abbrev pub Map {ℓ} : Type ℓ → Type ℓ
Map V = List (ℕ × V)

module _ {ℓ} {V : Type ℓ} where
  unfoldable pub lookup : (key : ℕ) → Map V → Option V
  lookup key [] = none
  lookup key ((this, value) ∷ rest) =
      let later = lookup key rest in if this == key then some value else later

  unfoldable pub insert : (key : ℕ) → V → Map V → Map V
  insert key value [] = (key, value) ∷ []
  insert key value ((this, old) ∷ rest) =
      let later = insert key value rest in
      if this == key then (key, value) ∷ rest else (this, old) ∷ later

  unfoldable pub erase : ℕ → Map V → Map V
  erase k [] = []
  erase k ((j, w) ∷ m) = let rest = erase k m in if j == k then rest else (j, w) ∷ rest

  -- Every value changed in place.
  unfoldable pub map_values : (V → V) → Map V → Map V
  map_values f [] = []
  map_values f ((j, w) ∷ m) = (j, f w) ∷ map_values f m

  pub lookup-insert :
      (key other : ℕ) (value : V) (entries : Map V)
      → lookup other (insert key value entries)
        ≡ (if key == other then some value else lookup other entries)
  unfolding lookup insert
  lookup-insert key other value [] = refl
  lookup-insert key other value ((this, old) ∷ rest) =
      ground (arith, lookup-insert key other value rest)

  pub lookup-erase :
      (k j : ℕ) (m : Map V) → lookup j (erase k m) ≡ (if k == j then none else lookup j m)
  unfolding lookup erase
  lookup-erase k j [] = ground arith
  lookup-erase k j ((i, w) ∷ m) = ground (arith, lookup-erase k j m)

  pub lookup-map_values :
      (f : V → V) (j : ℕ) (m : Map V)
      → lookup j (map_values f m) ≡ elim (lookup j m) [ none ↦ none | some v ↦ some (f v) ]
  unfolding lookup map_values
  lookup-map_values f j [] = refl
  lookup-map_values f j ((i, w) ∷ m) = ground (arith, lookup-map_values f j m)

  -- A property of what a key holds, after an insertion.
  pub lookup-insert_cases {κ} :
      (P : Option V → Type κ) (k j : ℕ) (v : V) (m : Map V)
      → (k ≡ j → P (some v))
      → P (lookup j m)
      → P (lookup j (insert k v m))
  lookup-insert_cases P k j v m f h = elim (Bool-cases (k == j)) [
    | inl e ↦ rw (lookup-insert, e) (f (ground arith))
    | inr e ↦ rw (lookup-insert, e) h
  ]
