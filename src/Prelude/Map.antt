-- ===== src/Prelude/Map.antt =====
-- Go's maps with string keys, as association lists. Iteration follows the list.
use mathlib.Core.Path.{◌≡◌, refl}
use mathlib.Core.Logic.{inl, inr}
use mathlib.Core.Bool.{Bool, true, false}
use mathlib.Core.Option.{Option, none, some}
use mathlib.Core.List.{List, [], ◌∷◌}
use native.Mathlib.Omega.{arith}
use mini.Prelude.Tests.{if◌then◌else◌, Bool-cases}
use mini.Prelude.Strings.{Bytes, bytes_eq, bytes_eq_iff}

abbrev pub Map {ℓ} : Type ℓ → Type ℓ
Map V = List (Bytes × V)

module _ {ℓ} {V : Type ℓ} where
  -- v, ok := m[k]
  unfoldable pub lookup : Map V → Bytes → Option V
  lookup [] k = none
  lookup ((j, v) ∷ m) k = if bytes_eq j k then some v else lookup m k

  -- m[k] = v
  unfoldable pub insert : Map V → Bytes → V → Map V
  insert [] k v = (k, v) ∷ []
  insert ((j, w) ∷ m) k v =
      let rest = insert m k v in if bytes_eq j k then (k, v) ∷ m else (j, w) ∷ rest

  -- delete(m, k)
  unfoldable pub erase : Map V → Bytes → Map V
  erase [] k = []
  erase ((j, v) ∷ m) k = let rest = erase m k in if bytes_eq j k then rest else (j, v) ∷ rest

  unfoldable pub member : Map V → Bytes → Bool
  unfolding lookup
  member m k = elim (lookup m k) [ none ↦ false | some v ↦ true ]

  unfoldable pub keys : Map V → List Bytes
  keys [] = []
  keys ((k, v) ∷ m) = k ∷ keys m

  pub lookup-insert :
      (m : Map V) (k j : Bytes) (v : V)
      → lookup (insert m k v) j ≡ (if bytes_eq k j then some v else lookup m j)
  unfolding lookup insert
  lookup-insert [] k j v = refl
  lookup-insert ((i, w) ∷ m) k j v =
      ground (arith, bytes_eq_iff k j, bytes_eq_iff i k, bytes_eq_iff i j, lookup-insert m k j v)

  pub lookup-erase :
      (m : Map V) (k j : Bytes) → lookup (erase m k) j ≡ (if bytes_eq k j then none else lookup m j)
  unfolding lookup erase
  lookup-erase [] k j = ground arith
  lookup-erase ((i, w) ∷ m) k j =
      ground (arith, bytes_eq_iff k j, bytes_eq_iff i k, bytes_eq_iff i j, lookup-erase m k j)

pub ruleset map_laws = (lookup-insert, lookup-erase)

-- No key stands twice, as in every map that `insert` builds.
abbrev pub IsUnique {ℓ} : {V : Type ℓ} → Map V → Type ℓ
IsUnique [] = Unit
IsUnique ((k, v) ∷ m) = (lookup m k ≡ none) × IsUnique m

module _ {ℓ} {V : Type ℓ} where
  pub insert-IsUnique : (m : Map V) (k : Bytes) (v : V) → IsUnique m → IsUnique (insert m k v)
  unfolding insert lookup
  insert-IsUnique [] k v u = (refl, tt)
  insert-IsUnique ((j, w) ∷ m) k v u = elim (Bool-cases (bytes_eq j k)) [
    | inl e ↦ rw e (rw (← (bytes_eq_iff j k).0 e) u.0, u.1)
    | inr e ↦ rw e (
      ground (arith, bytes_eq_iff j k, bytes_eq_iff k j, lookup-insert m k j v),
      insert-IsUnique m k v u.1,
    )
  ]

-- m[k] where a missing key reads as the zero value.
abbrev pub string_at : Map Bytes → Bytes → Bytes
string_at m k = elim (lookup m k) [ none ↦ [] | some v ↦ v ]

abbrev pub flag_at : Map Bool → Bytes → Bool
flag_at m k = elim (lookup m k) [ none ↦ false | some v ↦ v ]

abbrev pub list_at {ℓ} : {A : Type ℓ} → Map (List A) → Bytes → List A
list_at m k = elim (lookup m k) [ none ↦ [] | some v ↦ v ]

pub list_at-insert {ℓ} :
    {A : Type ℓ} (m : Map (List A)) (k j : Bytes) (v : List A)
    → list_at (insert m k v) j ≡ (if bytes_eq k j then v else list_at m j)
list_at-insert m k j v = ground (arith, lookup-insert m k j v)

pub flag_at-insert :
    (m : Map Bool) (k j : Bytes) (v : Bool)
    → flag_at (insert m k v) j ≡ (if bytes_eq k j then v else flag_at m j)
flag_at-insert m k j v = ground (arith, lookup-insert m k j v)

pub list_at-erase {ℓ} :
    {A : Type ℓ} (m : Map (List A)) (k j : Bytes)
    → list_at (erase m k) j ≡ (if bytes_eq k j then [] else list_at m j)
list_at-erase m k j = ground (arith, lookup-erase m k j)
