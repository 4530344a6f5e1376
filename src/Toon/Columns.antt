-- ===== src/Toon/Columns.antt =====
-- internal/toon/array.go and keyed.go: which arrays and objects are tables, and their columns and
-- cells. A header is nested, so its columns are a constructor chain.
pub mod Fuel
pub mod Found
pub mod Keys
pub mod Rows
pub mod KeySets
pub mod Covers
use mini.Prelude.{
  ℕ, zero, suc, ◌+◌, max, Bool, true, false, not, ◌&&◌, ◌||◌, List, [], ◌∷◌, ◌++◌, map, Option,
  none, some, Bytes, contains, ◌==◌, ltb, length, is_empty, all, if◌then◌else◌,
}
use mini.Prelude.Map.{Map, lookup, insert}
use mini.Toon.Value.{
  Value, Fields, Items, invalid, null, boolean, number, text, object, array, no_fields, field,
  no_items, item, field_list, fields_of,
}

-- Columns as nested headers list them: a key, the columns below it, and those to the right. A
-- tabularCol is a key with its children; no children make a leaf.
pub data Columns : Type 0 where
  no_columns : Columns
  column : Bytes → Columns → Columns → Columns

abbrev pub TabularCol : Type 0
TabularCol = Bytes × Columns

-- len(col.children) == 0
abbrev pub is_leaf : Columns → Bool
is_leaf no_columns = true
is_leaf (column _ _ _) = false

unfoldable pub is_primitive : Value → Bool
is_primitive invalid = false
is_primitive (object _) = false
is_primitive (array _) = false
is_primitive _ = true

abbrev pub all_primitive : List Value → Bool
all_primitive = all is_primitive

abbrev pub is_object : Value → Bool
is_object (object _) = true
is_object _ = false

abbrev pub field_keys : Value → List Bytes
field_keys v = map (λ f. f.0) (fields_of v)

abbrev pub entry_values : Value → List Value
entry_values v = map (λ f. f.1) (fields_of v)

-- The loop of fieldIndex: of two fields with a key the last one stays.
unfoldable pub index_from : Map Value → List (Bytes × Value) → Map Value
index_from idx [] = idx
index_from idx ((k, v) ∷ fs) = index_from (insert idx k v) fs

abbrev pub field_index : Value → Map Value
field_index v = index_from [] (fields_of v)

-- idx[key], where a missing key reads as the zero Value.
unfoldable pub value_at : Map Value → Bytes → Value
unfolding lookup
value_at idx key = elim (lookup idx key) [ none ↦ invalid | some v ↦ v ]

abbrev pub column_values : List (Map Value) → Bytes → List Value
column_values indexes key = map (λ idx. value_at idx key) indexes

abbrev pub all_non_empty_objects : List Value → Bool
all_non_empty_objects = all (λ v. is_object v && not (is_empty (fields_of v)))

-- The loop of noDupKeySet; the set is a list of its members.
unfoldable pub no_dup_keys : List Bytes → List Bytes → Option (List Bytes)
unfolding contains
no_dup_keys set [] = some set
no_dup_keys set (k ∷ ks) =
    let rest = no_dup_keys (k ∷ set) ks in if contains set k then none else rest

abbrev pub no_dup_key_set : List Bytes → Option (List Bytes)
no_dup_key_set = no_dup_keys []

-- The loop of matchesKeySet.
unfoldable pub keys_match : List Bytes → List Bytes → List Bytes → Bool
unfolding contains
keys_match set seen [] = true
keys_match set seen (k ∷ ks) =
    let rest = keys_match set (k ∷ seen) ks in
    if not (contains set k) || contains seen k then false else rest

abbrev pub matches_key_set : List Bytes → Value → Bool
matches_key_set set v =
    is_object v && length (fields_of v) == length set && keys_match set [] (field_keys v)

-- classifyColumns: all the columns, or none if one is not uniform.
abbrev pub with_column : TabularCol → Option Columns → Option Columns
with_column col none = none
with_column (key, children) (some cols) = some (column key children cols)

unfoldable pub classify_columns : (Bytes → Option TabularCol) → List Bytes → Option Columns
classify_columns classify [] = some no_columns
classify_columns classify (key ∷ keys) =
    let rest = classify_columns classify keys in
    elim (classify key) [ none ↦ none | some col ↦ with_column col rest ]

abbrev pub indexes_of : List Value → List (Map Value)
indexes_of = map field_index

abbrev pub matched_columns :
    (Bytes → Option TabularCol) → Value → List Value → Option (List Bytes) → Option Columns
matched_columns classify first others none = none
matched_columns classify first others (some set) =
    if not (all (matches_key_set set) others)
    then none
    else classify_columns classify (field_keys first)

-- What tabularFields, classifyNestedColumn and keyedTabularCols end with: the keys of the first
-- object, which the others must have too, each with its values classified.
abbrev pub shared_columns : (Bytes → Option TabularCol) → Value → List Value → Option Columns
shared_columns classify first others =
    matched_columns classify first others (no_dup_key_set (field_keys first))

abbrev pub with_children : Bytes → Option Columns → Option TabularCol
with_children key none = none
with_children key (some children) = some (key, children)

-- vals[0] is read of values that are not all primitive, so there is one.
abbrev pub classify_nested_column :
    (List (Map Value) → Bytes → Option TabularCol) → Bytes → List Value → Option TabularCol
classify_nested_column classify key [] = none
classify_nested_column classify key (v ∷ vs) =
    with_children key (shared_columns (classify (indexes_of (v ∷ vs))) v vs)

-- On fuel: the recursion goes to values that are nested less deeply.
unfoldable pub classify_column : ℕ → List (Map Value) → Bytes → Option TabularCol
classify_column zero indexes key = none
classify_column (suc fuel) indexes key =
    let vals = column_values indexes key in
    let nested = classify_nested_column (classify_column fuel) key vals in
    if all_primitive vals
    then some (key, no_columns)
    else if not (all_non_empty_objects vals)
    then none
    else nested

-- How deeply objects and arrays are nested in a value.
unfoldable mutual
  pub nesting : Value → ℕ
  nesting (object fs) = suc (fields_nesting fs)
  nesting (array xs) = suc (items_nesting xs)
  nesting _ = 0

  pub fields_nesting : Fields → ℕ
  fields_nesting no_fields = 0
  fields_nesting (field k v fs) = max (nesting v) (fields_nesting fs)

  pub items_nesting : Items → ℕ
  items_nesting no_items = 0
  items_nesting (item v xs) = max (nesting v) (items_nesting xs)

unfoldable pub deepest : List Value → ℕ
deepest [] = 0
deepest (v ∷ vs) = max (nesting v) (deepest vs)

-- items[0] is read of an array that is not empty.
unfoldable pub tabular_fields_on : ℕ → List Value → Option Columns
tabular_fields_on fuel [] = none
tabular_fields_on fuel (first ∷ others) =
    let cols = shared_columns (classify_column fuel (indexes_of (first ∷ others))) first others in
    if not (is_object first) || is_empty (fields_of first) then none else cols

abbrev pub tabular_fields : List Value → Option Columns
tabular_fields items = tabular_fields_on (deepest items) items

unfoldable pub shared_entries : ℕ → List Value → Option Columns
shared_entries fuel [] = none
shared_entries fuel (first ∷ others) =
    let cols = shared_columns (classify_column fuel (indexes_of (first ∷ others))) first others in
    if not (all_non_empty_objects (first ∷ others)) then none else cols

unfoldable pub keyed_tabular_cols_on : ℕ → Value → Option Columns
keyed_tabular_cols_on fuel v =
    let cols = shared_entries fuel (entry_values v) in
    if ltb (length (fields_of v)) 2 then none else cols

abbrev pub keyed_tabular_cols : Value → Option Columns
keyed_tabular_cols v = keyed_tabular_cols_on (deepest (entry_values v)) v

unfoldable pub leaf_values : Map Value → Columns → List Value
leaf_values idx no_columns = []
leaf_values idx (column key children rest) =
    let v = value_at idx key in
    let below = leaf_values (field_index v) children in
    (if is_leaf children then v ∷ [] else below) ++ leaf_values idx rest
