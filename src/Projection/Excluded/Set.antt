-- ===== src/Projection/Excluded/Set.antt =====
-- internal/projection/excluded.go: the collapsed paths are the set of the collapsed paths, sorted.
use mini.Prelude.{
  ◌≡◌, refl, sym, Bool, true, false, false≢true, not, ◌&&◌, List, [], ◌∷◌, map, Bytes, bytes_eq,
  bytes_eq_iff, bytes_eq_refl, bytes_lt, contains, insert_by, sort_by, contains-sort_by, if-elim,
  arith, Bool-cases, inl, inr,
}
use mini.Jq.Path.{collapse_index}
use mini.Projection.Excluded.{collapse_each, collapse_excluded}

-- Each path is below the next one: sorted, and none twice.
unfoldable pub ascending : List Bytes → Bool
ascending [] = true
ascending (a ∷ []) = true
ascending (a ∷ b ∷ l) = bytes_lt a b && ascending (b ∷ l)

unfoldable distinct : List Bytes → Bool
distinct [] = true
distinct (a ∷ l) = not (contains l a) && distinct l

-- What collapse_each gives is what it has not seen of the collapsed paths, and once.
contains-collapse_each :
    (seen paths : List Bytes) (k : Bytes)
    → contains (collapse_each seen paths) k
      ≡ not (contains seen k) && contains (map collapse_index paths) k
unfolding collapse_each contains
contains-collapse_each seen [] k = ground arith
contains-collapse_each seen (p ∷ paths) k = elim (Bool-cases (contains seen (collapse_index p))) [
  | inl h ↦ rw h (
      rw (contains-collapse_each seen paths k) (elim (Bool-cases (bytes_eq (collapse_index p) k)) [
        | inl e ↦ rw (← (bytes_eq_iff (collapse_index p) k).0 e) (rw h refl)
        | inr e ↦ rw e refl
      ]))
  | inr h ↦ rw h (
      rw (contains-collapse_each (collapse_index p ∷ seen) paths k)
        (elim (Bool-cases (bytes_eq (collapse_index p) k)) [
          | inl e ↦
              rw (← (bytes_eq_iff (collapse_index p) k).0 e)
                (rw h (rw (bytes_eq_refl (collapse_index p)) refl))
          | inr e ↦ rw e refl
        ]))
]

distinct-collapse_each : (seen paths : List Bytes) → distinct (collapse_each seen paths) ≡ true
unfolding collapse_each distinct contains
distinct-collapse_each seen [] = refl
distinct-collapse_each seen (p ∷ paths) = elim (Bool-cases (contains seen (collapse_index p))) [
  | inl h ↦ rw h (distinct-collapse_each seen paths)
  | inr h ↦ rw h (
      rw (contains-collapse_each (collapse_index p ∷ seen) paths (collapse_index p)) (
        rw (bytes_eq_refl (collapse_index p))
          (distinct-collapse_each (collapse_index p ∷ seen) paths)))
]

bytes_lt-total : (a b : Bytes) → bytes_lt b a ≡ false → bytes_eq b a ≡ false → bytes_lt a b ≡ true
unfolding bytes_lt bytes_eq
bytes_lt-total [] [] h e = absurd (false≢true (sym e))
bytes_lt-total [] (y ∷ b) h e = refl
bytes_lt-total (x ∷ a) [] h e = absurd (false≢true (sym h))
bytes_lt-total (x ∷ a) (y ∷ b) h e = ground (arith, h, e, bytes_lt-total a b)

abbrev below : Bytes → List Bytes → Bool
below b [] = true
below b (a ∷ l) = bytes_lt b a

ascending-below : (b : Bytes) (l : List Bytes) → ascending (b ∷ l) ≡ below b l && ascending l
unfolding ascending
ascending-below b [] = refl
ascending-below b (a ∷ l) = refl

below-insert_by :
    (b a : Bytes) (l : List Bytes)
    → bytes_lt b a ≡ true
    → below b l ≡ true
    → below b (insert_by (λ p. p) a l) ≡ true
unfolding insert_by
below-insert_by b a [] h g = h
below-insert_by b a (c ∷ l) h g =
    if-elim (λ r. below b r ≡ true) (bytes_lt c a) _ _ (λ _. g) (λ _. h)

ascending-insert_by :
    (a : Bytes) (l : List Bytes)
    → ascending l ≡ true
    → contains l a ≡ false
    → ascending (insert_by (λ p. p) a l) ≡ true
unfolding insert_by contains
ascending-insert_by a [] h n = rw (ascending-below a []) h
ascending-insert_by a (b ∷ l) h n =
    let g : (below b l && ascending l) ≡ true = rw (← ascending-below b l) h in
    if-elim (λ r. ascending r ≡ true) (bytes_lt b a) _ _
      (λ e. rw (ascending-below b (insert_by (λ p. p) a l)) (
        rw (below-insert_by b a l e (ground (arith, g)))
          (ascending-insert_by a l (ground (arith, g)) (ground (arith, n)))))
      (λ e. rw (ascending-below a (b ∷ l)) (rw (bytes_lt-total a b e (ground (arith, n))) h))

ascending-sort_by : (l : List Bytes) → distinct l ≡ true → ascending (sort_by (λ p. p) l) ≡ true
unfolding sort_by distinct ascending
ascending-sort_by [] h = refl
ascending-sort_by (a ∷ l) h =
    ascending-insert_by a (sort_by (λ p. p) l) (ascending-sort_by l (ground (arith, h)))
      (rw (contains-sort_by l a) (ground (arith, h)))

pub contains-collapse_excluded :
    (paths : List Bytes) (k : Bytes)
    → contains (collapse_excluded paths) k ≡ contains (map collapse_index paths) k
unfolding collapse_excluded contains
contains-collapse_excluded paths k =
    rw (contains-sort_by (collapse_each [] paths) k) (contains-collapse_each [] paths k)

-- The excluded keys of a response are exactly the collapsed paths of what was left out, in
-- ascending order, so none twice.
pub collapse_excluded_is_set :
    (paths : List Bytes)
    → (ascending (collapse_excluded paths) ≡ true)
      × ((k : Bytes) → contains (collapse_excluded paths) k ≡ contains (map collapse_index paths) k)
unfolding collapse_excluded
collapse_excluded_is_set paths = (
  ascending-sort_by (collapse_each [] paths) (distinct-collapse_each [] paths),
  contains-collapse_excluded paths,
)
