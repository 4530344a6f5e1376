-- ===== src/Toon/Columns/Rows.antt =====
-- internal/toon/array.go and keyed.go: the cells of a table fit its header.
use mini.Prelude.{
  ℕ, zero, suc, ◌+◌, ◌≡◌, refl, sym, ap₂, subst, ◌∙◌, true, false, not, ◌||◌, ltb, List, [], ◌∷◌,
  ◌++◌, map, Option, none, some, Bytes, length, length-append, is_empty, all, All, All-both,
  All-always, if-elim, if◌then◌else◌, arith,
}
use mini.Toon.Columns.Found.{Found, Found-some, Found-map, Found-when}
use mini.Prelude.Map.{Map}
use mini.Toon.Value.{Value, object, no_fields, field, fields_of}
use mini.Toon.Columns.{
  Columns, no_columns, column, TabularCol, is_leaf, all_primitive, field_keys, entry_values,
  field_index, indexes_of, value_at, column_values, all_non_empty_objects, matches_key_set,
  matched_columns, with_column, classify_columns, shared_columns, with_children,
  classify_nested_column, classify_column, tabular_fields, tabular_fields_on, shared_entries,
  keyed_tabular_cols_on, keyed_tabular_cols, leaf_values, is_object, deepest,
}

-- The leaves of a header.
unfoldable pub leaf_count : Columns → ℕ
leaf_count no_columns = 0
leaf_count (column key children rest) =
    let below = leaf_count children in (if is_leaf children then 1 else below) + leaf_count rest

-- There is a value for each leaf, and all are primitive.
abbrev pub IsRow : ℕ → List Value → Type 0
IsRow n vals = (all_primitive vals ≡ true) × (length vals ≡ n)

abbrev pub Fits : Map Value → Columns → Type 0
Fits idx cols = IsRow (leaf_count cols) (leaf_values idx cols)

abbrev cells : Map Value → Bytes → Columns → List Value
cells idx key children =
    let v = value_at idx key in
    let below = leaf_values (field_index v) children in if is_leaf children then v ∷ [] else below

abbrev cell_count : Columns → ℕ
cell_count children = let below = leaf_count children in if is_leaf children then 1 else below

abbrev IsCell : Bytes → Columns → Map Value → Type 0
IsCell key children idx = IsRow (cell_count children) (cells idx key children)

-- A column under its key, and its cells in every row.
abbrev IsColumn : List (Map Value) → Bytes → TabularCol → Type 0
IsColumn indexes key (name, children) = (name ≡ key) × All (IsCell key children) indexes

all_primitive-append :
    (xs ys : List Value)
    → all_primitive xs ≡ true
    → all_primitive ys ≡ true
    → all_primitive (xs ++ ys) ≡ true
all_primitive-append [] ys h k = k
all_primitive-append (x ∷ xs) ys h k = ground (arith, all_primitive-append xs ys)

IsRow-append : (m n : ℕ) (xs ys : List Value) → IsRow m xs → IsRow n ys → IsRow (m + n) (xs ++ ys)
IsRow-append m n xs ys (p, e) (q, f) =
    (all_primitive-append xs ys p q, length-append xs ys ∙ ap₂ (λ a b. a + b) e f)

Fits-column :
    (key : Bytes) (children rest : Columns) (idx : Map Value)
    → IsCell key children idx
    → Fits idx rest
    → Fits idx (column key children rest)
unfolding leaf_count leaf_values
Fits-column key children rest idx c r = IsRow-append _ _ _ _ c r

abbrev AreColumns : List (Map Value) → List Bytes → Columns → Type 0
AreColumns indexes keys cols = All (λ idx. Fits idx cols) indexes × (is_leaf cols ≡ is_empty keys)

module _ (indexes : List (Map Value)) where
  with_column-Found :
      (key : Bytes) (keys : List Bytes) (col : TabularCol) (rest : Option Columns)
      → IsColumn indexes key col
      → Found (AreColumns indexes keys) rest
      → Found (AreColumns indexes (key ∷ keys)) (with_column col rest)
  with_column-Found key keys col none c r = tt
  with_column-Found key keys (name, children) (some rest) (e, c) (r, l) =
      subst
        (λ (k : Bytes). All (λ idx. Fits idx (column k children rest)) indexes × (false ≡ false))
        (sym e) (All-both indexes (λ idx. Fits-column key children rest idx) c r, refl)

  step-Found :
      (key : Bytes) (keys : List Bytes) (o : Option TabularCol) (rest : Option Columns)
      → Found (IsColumn indexes key) o
      → Found (AreColumns indexes keys) rest
      → Found
          (AreColumns indexes (key ∷ keys))
          (elim o [ none ↦ none | some col ↦ with_column col rest ])
  step-Found key keys none rest c r = tt
  step-Found key keys (some col) rest c r = with_column-Found key keys col rest c r

  classify_columns-Found :
      (classify : Bytes → Option TabularCol)
      → ((key : Bytes) → Found (IsColumn indexes key) (classify key))
      → (keys : List Bytes) → Found (AreColumns indexes keys) (classify_columns classify keys)
  unfolding classify_columns leaf_count leaf_values
  classify_columns-Found classify c [] = (All-always indexes (λ idx. (refl, refl)), refl)
  classify_columns-Found classify c (key ∷ keys) =
      step-Found key keys (classify key) _ (c key) (classify_columns-Found classify c keys)

-- A way to classify a column that gives columns only.
abbrev Classifies : (List (Map Value) → Bytes → Option TabularCol) → Type 0
Classifies classify =
    (indexes : List (Map Value)) (key : Bytes) → Found (IsColumn indexes key) (classify indexes key)

matched_columns-Found :
    (indexes : List (Map Value)) (classify : Bytes → Option TabularCol) (first : Value)
    (others : List Value) (set : Option (List Bytes))
    → ((key : Bytes) → Found (IsColumn indexes key) (classify key))
    → Found (AreColumns indexes (field_keys first)) (matched_columns classify first others set)
matched_columns-Found indexes classify first others none c = tt
matched_columns-Found indexes classify first others (some set) c =
    Found-when _ (not (all (matches_key_set set) others)) _
      (classify_columns-Found indexes classify c (field_keys first))

-- The rows below a column are its cells.
IsCell-nested :
    (key : Bytes) (children : Columns) (indexes : List (Map Value))
    → is_leaf children ≡ false
    → All (λ idx. Fits idx children) (map field_index (column_values indexes key))
    → All (IsCell key children) indexes
IsCell-nested key children [] l r = tt
IsCell-nested key children (idx ∷ indexes) l (r, rs) =
    (rw l r, IsCell-nested key children indexes l rs)

IsCell-leaf :
    (key : Bytes) (indexes : List (Map Value))
    → all_primitive (column_values indexes key) ≡ true
    → All (IsCell key no_columns) indexes
IsCell-leaf key [] h = tt
IsCell-leaf key (idx ∷ indexes) h = ((ground arith, refl), IsCell-leaf key indexes (ground arith))

pub field_keys-first :
    (v : Value) (vs : List Value)
    → all_non_empty_objects (v ∷ vs) ≡ true
    → is_empty (field_keys v) ≡ false
field_keys-first (object (field k v fs)) vs h = refl
field_keys-first (object no_fields) vs h = absurd (ground arith)
field_keys-first _ vs h = absurd (ground arith)

with_children-Found :
    (key : Bytes) (indexes : List (Map Value)) (keys : List Bytes) (o : Option Columns)
    → is_empty keys ≡ false
    → Found (AreColumns (map field_index (column_values indexes key)) keys) o
    → Found (IsColumn indexes key) (with_children key o)
with_children-Found key indexes keys none e h = tt
with_children-Found key indexes keys (some children) e (r, l) =
    (refl, IsCell-nested key children indexes (l ∙ e) r)

classify_nested_column-Found :
    (classify : List (Map Value) → Bytes → Option TabularCol) (key : Bytes)
    (indexes : List (Map Value))
    → Classifies classify
    → all_non_empty_objects (column_values indexes key) ≡ true
    → Found (IsColumn indexes key) (classify_nested_column classify key (column_values indexes key))
classify_nested_column-Found classify key [] c h = tt
classify_nested_column-Found classify key (idx ∷ indexes) c h =
    let v = value_at idx key in
    let vs = column_values indexes key in
    with_children-Found key (idx ∷ indexes) (field_keys v) _ (field_keys-first v vs h)
      (matched_columns-Found (indexes_of (v ∷ vs)) _ v vs _ (c (indexes_of (v ∷ vs))))

classify_column-Classifies : (fuel : ℕ) → Classifies (classify_column fuel)
unfolding classify_column
classify_column-Classifies zero indexes key = tt
classify_column-Classifies (suc fuel) indexes key =
    let vals = column_values indexes key in
    let Q = Found (IsColumn indexes key) in
    if-elim (λ (o : Option TabularCol). Q o) (all_primitive vals) _ _
      (λ h. (refl, IsCell-leaf key indexes h))
      (λ _.
        if-elim (λ (o : Option TabularCol). Q o) (not (all_non_empty_objects vals)) _ _ (λ _. tt)
          (λ h.
            classify_nested_column-Found (classify_column fuel) key indexes
              (classify_column-Classifies fuel) (ground (arith, h))))

-- Every value has a row of the header's cells.
abbrev pub IsTable : List Value → Columns → Type 0
IsTable items cols = All (λ v. Fits (field_index v) cols) items

IsTable-map :
    (items : List Value) (cols : Columns)
    → All (λ idx. Fits idx cols) (map field_index items)
    → IsTable items cols
IsTable-map [] cols h = tt
IsTable-map (v ∷ items) cols (h, hs) = (h, IsTable-map items cols hs)

shared-IsTable :
    (fuel : ℕ) (first : Value) (others : List Value)
    → Found
        (IsTable (first ∷ others))
        (shared_columns (classify_column fuel (indexes_of (first ∷ others))) first others)
shared-IsTable fuel first others =
    let indexes = indexes_of (first ∷ others) in
    Found-map _ (λ cols h. IsTable-map (first ∷ others) cols h.0)
      (matched_columns-Found indexes _ first others _ (classify_column-Classifies fuel indexes))

tabular-Found :
    (fuel : ℕ) (items : List Value) → Found (IsTable items) (tabular_fields_on fuel items)
unfolding tabular_fields_on
tabular-Found fuel [] = tt
tabular-Found fuel (first ∷ others) =
    Found-when _ (not (is_object first) || is_empty (fields_of first)) _
      (shared-IsTable fuel first others)

-- If an array is a table, each of its items has a primitive value for each leaf of the header,
-- and no other cells: every row has as many cells as the header has leaves.
pub tabular_fields-IsTable :
    (items : List Value) (cols : Columns) → tabular_fields items ≡ some cols → IsTable items cols
tabular_fields-IsTable items cols h =
    Found-some (IsTable items) (tabular_fields items) cols (tabular-Found (deepest items) items) h

shared_entries-IsTable :
    (fuel : ℕ) (items : List Value) → Found (IsTable items) (shared_entries fuel items)
unfolding shared_entries
shared_entries-IsTable fuel [] = tt
shared_entries-IsTable fuel (first ∷ others) =
    Found-when _ (not (all_non_empty_objects (first ∷ others))) _ (shared-IsTable fuel first others)

keyed-Found :
    (fuel : ℕ) (v : Value) → Found (IsTable (entry_values v)) (keyed_tabular_cols_on fuel v)
unfolding keyed_tabular_cols_on
keyed-Found fuel v =
    Found-when _ (ltb (length (fields_of v)) 2) _ (shared_entries-IsTable fuel (entry_values v))

-- If an object is a keyed table, the value of each field has a primitive value for each leaf of the
-- header.
pub keyed_tabular_cols-IsTable :
    (v : Value) (cols : Columns) → keyed_tabular_cols v ≡ some cols → IsTable (entry_values v) cols
keyed_tabular_cols-IsTable v cols h =
    Found-some (IsTable (entry_values v)) (keyed_tabular_cols v) cols
      (keyed-Found (deepest (entry_values v)) v) h
