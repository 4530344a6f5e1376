-- ===== src/Prelude/Sort.antt =====
-- Byte order on strings and a sort by a string key, as sort.Strings and slices.Sort have them.
use mathlib.Core.Bool.{Bool, true, false, ◌&&◌, ◌||◌}
use mathlib.Core.List.{List, [], ◌∷◌}
use mathlib.Core.Path.{◌≡◌, refl}
use native.Mathlib.Omega.{arith}
use mini.Prelude.Tests.{ltb, ◌==◌, if◌then◌else◌, if-elim}
use mini.Prelude.Strings.{Bytes, bytes_eq, contains}

-- a < b
unfoldable pub bytes_lt : Bytes → Bytes → Bool
bytes_lt [] [] = false
bytes_lt [] (y ∷ ys) = true
bytes_lt (x ∷ xs) [] = false
bytes_lt (x ∷ xs) (y ∷ ys) = ltb x y || (x == y && bytes_lt xs ys)

module _ {ℓ} {A : Type ℓ} (key : A → Bytes) where
  unfoldable pub insert_by : A → List A → List A
  unfolding bytes_lt
  insert_by a [] = a ∷ []
  insert_by a (b ∷ bs) =
      let rest = insert_by a bs in if bytes_lt (key b) (key a) then b ∷ rest else a ∷ b ∷ bs

  unfoldable pub sort_by : List A → List A
  unfolding insert_by
  sort_by [] = []
  sort_by (a ∷ l) = insert_by a (sort_by l)

pub contains-insert_by :
    (a : Bytes) (l : List Bytes) (k : Bytes)
    → contains (insert_by (λ p. p) a l) k ≡ bytes_eq a k || contains l k
unfolding insert_by contains
contains-insert_by a [] k = refl
contains-insert_by a (b ∷ l) k =
    if-elim (λ r. contains r k ≡ bytes_eq a k || contains (b ∷ l) k) (bytes_lt b a) _ _
      (λ e. rw (contains-insert_by a l k) (ground arith)) (λ e. refl)

pub contains-sort_by : (l : List Bytes) (k : Bytes) → contains (sort_by (λ p. p) l) k ≡ contains l k
unfolding sort_by contains
contains-sort_by [] k = refl
contains-sort_by (a ∷ l) k =
    rw (contains-insert_by a (sort_by (λ p. p) l) k) (rw (contains-sort_by l k) refl)
