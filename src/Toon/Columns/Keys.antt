-- ===== src/Toon/Columns/Keys.antt =====
-- internal/toon/array.go and keyed.go: the keys of a header are those of the values.
use mini.Prelude.{
  ℕ, zero, suc, ◌≡◌, refl, sym, subst, not, ◌||◌, List, [], ◌∷◌, Option, none, some, Bytes, ltb,
  length, is_empty, all, All, if-elim,
}
use mini.Prelude.Map.{Map}
use mini.Toon.Value.{Value, fields_of}
use mini.Toon.Columns.{
  Columns, no_columns, column, TabularCol, all_primitive, field_keys, entry_values, field_index,
  indexes_of, value_at, column_values, is_object, all_non_empty_objects, matches_key_set,
  matched_columns, shared_columns, with_column, classify_columns, with_children,
  classify_nested_column, classify_column, deepest, tabular_fields, tabular_fields_on,
  shared_entries, keyed_tabular_cols, keyed_tabular_cols_on,
}
use mini.Toon.Columns.Found.{Found, Found-when}

-- A predicate of values, which their fields inherit, and one of keys, which those of such values have.
module _ (P : Value → Type 0) (K : Bytes → Type 0)
    (inherits : (v : Value) (key : Bytes) → P v → P (value_at (field_index v) key))
    (has_keys : (v : Value) → P v → All K (field_keys v)) where
  unfoldable pub HasKeys : Columns → Type 0
  HasKeys no_columns = Unit
  HasKeys (column key children rest) = K key × HasKeys children × HasKeys rest

  abbrev IsGood : Map Value → Type 0
  IsGood idx = (key : Bytes) → P (value_at idx key)

  with_column-HasKeys :
      (key : Bytes) (col : TabularCol) (rest : Option Columns)
      → K key
      → (col.0 ≡ key) × HasKeys col.1
      → Found HasKeys rest
      → Found HasKeys (with_column col rest)
  unfolding HasKeys
  with_column-HasKeys key col none k c r = tt
  with_column-HasKeys key (name, children) (some rest) k (e, c) r = (subst K (sym e) k, c, r)

  step-HasKeys :
      (key : Bytes) (o : Option TabularCol) (rest : Option Columns)
      → K key
      → Found (λ c. (c.0 ≡ key) × HasKeys c.1) o
      → Found HasKeys rest
      → Found HasKeys (elim o [ none ↦ none | some col ↦ with_column col rest ])
  step-HasKeys key none rest k c r = tt
  step-HasKeys key (some col) rest k c r = with_column-HasKeys key col rest k c r

  classify_columns-HasKeys :
      (classify : Bytes → Option TabularCol) (keys : List Bytes)
      → All K keys
      → ((key : Bytes) → Found (λ c. (c.0 ≡ key) × HasKeys c.1) (classify key))
      → Found HasKeys (classify_columns classify keys)
  unfolding classify_columns HasKeys
  classify_columns-HasKeys classify [] k c = tt
  classify_columns-HasKeys classify (key ∷ keys) (k, ks) c =
      step-HasKeys key (classify key) _ k (c key) (classify_columns-HasKeys classify keys ks c)

  matched_columns-HasKeys :
      (classify : Bytes → Option TabularCol) (first : Value) (others : List Value)
      (set : Option (List Bytes))
      → P first
      → ((key : Bytes) → Found (λ c. (c.0 ≡ key) × HasKeys c.1) (classify key))
      → Found HasKeys (matched_columns classify first others set)
  matched_columns-HasKeys classify first others none p c = tt
  matched_columns-HasKeys classify first others (some set) p c =
      Found-when _ (not (all (matches_key_set set) others)) _
        (classify_columns-HasKeys classify (field_keys first) (has_keys first p) c)

  with_children-HasKeys :
      (key : Bytes) (o : Option Columns)
      → Found HasKeys o
      → Found (λ c. (c.0 ≡ key) × HasKeys c.1) (with_children key o)
  with_children-HasKeys key none h = tt
  with_children-HasKeys key (some children) h = (refl, h)

  values-Good :
      (indexes : List (Map Value)) (key : Bytes)
      → All IsGood indexes
      → All IsGood (indexes_of (column_values indexes key))
  values-Good [] key g = tt
  values-Good (idx ∷ indexes) key (g, gs) =
      (λ k. inherits (value_at idx key) k (g key), values-Good indexes key gs)

  classify_column-HasKeys :
      (fuel : ℕ) (indexes : List (Map Value)) (key : Bytes)
      → All IsGood indexes
      → Found (λ c. (c.0 ≡ key) × HasKeys c.1) (classify_column fuel indexes key)
  unfolding classify_column HasKeys
  classify_column-HasKeys zero indexes key g = tt
  classify_column-HasKeys (suc fuel) indexes key g =
      let Q = Found (λ (c : TabularCol). (c.0 ≡ key) × HasKeys c.1) in
      let vals = column_values indexes key in
      if-elim (λ (o : Option TabularCol). Q o) (all_primitive vals) _ _ (λ _. (refl, tt))
        (λ _. Found-when _ (not (all_non_empty_objects vals)) _ (
          nested fuel indexes key g
            (λ k. classify_column-HasKeys fuel (indexes_of vals) k (values-Good indexes key g))))
    where
      nested :
          (fuel : ℕ) (indexes : List (Map Value)) (key : Bytes)
          → All IsGood indexes
          → ((k : Bytes)
              → Found
                  (λ c. (c.0 ≡ k) × HasKeys c.1)
                  (classify_column fuel (indexes_of (column_values indexes key)) k))
          → Found
              (λ c. (c.0 ≡ key) × HasKeys c.1)
              (classify_nested_column (classify_column fuel) key (column_values indexes key))
      nested fuel [] key g c = tt
      nested fuel (idx ∷ indexes) key (g, gs) c =
          with_children-HasKeys key _
            (matched_columns-HasKeys _ (value_at idx key) (column_values indexes key) _ (g key) c)

  shared-HasKeys :
      (fuel : ℕ) (first : Value) (others : List Value)
      → All P (first ∷ others)
      → Found HasKeys
          (shared_columns (classify_column fuel (indexes_of (first ∷ others))) first others)
  shared-HasKeys fuel first others (p, ps) = matched_columns-HasKeys _ first others _ p (λ k.
      classify_column-HasKeys fuel (indexes_of (first ∷ others)) k
        (all_good (first ∷ others) (p, ps)))
    where
      all_good : (vs : List Value) → All P vs → All IsGood (indexes_of vs)
      all_good [] h = tt
      all_good (v ∷ vs) (h, hs) = (λ k. inherits v k h, all_good vs hs)

  pub tabular_fields-HasKeys :
      (items : List Value) → All P items → Found HasKeys (tabular_fields items)
  unfolding tabular_fields_on
  tabular_fields-HasKeys [] ps = tt
  tabular_fields-HasKeys (first ∷ others) ps =
      Found-when _ (not (is_object first) || is_empty (fields_of first)) _
        (shared-HasKeys (deepest (first ∷ others)) first others ps)

  shared_entries-HasKeys :
      (fuel : ℕ) (items : List Value) → All P items → Found HasKeys (shared_entries fuel items)
  unfolding shared_entries
  shared_entries-HasKeys fuel [] ps = tt
  shared_entries-HasKeys fuel (first ∷ others) ps =
      Found-when _ (not (all_non_empty_objects (first ∷ others))) _
        (shared-HasKeys fuel first others ps)

  pub keyed_tabular_cols-HasKeys :
      (v : Value) → All P (entry_values v) → Found HasKeys (keyed_tabular_cols v)
  unfolding keyed_tabular_cols_on
  keyed_tabular_cols-HasKeys v ps =
      Found-when _ (ltb (length (fields_of v)) 2) _
        (shared_entries-HasKeys (deepest (entry_values v)) (entry_values v) ps)
