-- ===== src/Toon/Columns/Fuel.antt =====
-- internal/toon/array.go and keyed.go: the recursion of classifyColumn ends.
use mini.Prelude.{
  ℕ, zero, suc, ◌≤◌, ◌<◌, ◌≡◌, refl, ap, Bool, true, false, not, ◌||◌, ltb, length, is_empty, List,
  [], ◌∷◌, Option, Bytes, All, if◌then◌else◌, arith,
}
use mini.Prelude.Map.{Map, lookup, insert, lookup-insert}
use mini.Toon.Value.{Value, Fields, object, no_fields, field, field_list, fields_of}
use mini.Toon.Columns.{
  TabularCol, is_object, all_primitive, index_from, field_index, indexes_of, value_at,
  column_values, all_non_empty_objects, shared_columns, with_children, classify_column, nesting,
  fields_nesting, deepest, tabular_fields, tabular_fields_on, shared_entries, keyed_tabular_cols,
  keyed_tabular_cols_on, entry_values,
}

-- No value of the index nests n levels or more.
abbrev Shallow : ℕ → Map Value → Type 0
Shallow n idx = (key : Bytes) → nesting (value_at idx key) < n

insert-Shallow :
    (n : ℕ) (idx : Map Value) (k : Bytes) (v : Value)
    → nesting v < n
    → Shallow n idx
    → Shallow n (insert idx k v)
unfolding value_at
insert-Shallow n idx k v h s key = let found = s key in ground (arith, lookup-insert idx k key v)

index_from-Shallow :
    (n : ℕ) (fs : Fields) (idx : Map Value)
    → fields_nesting fs < n
    → Shallow n idx
    → Shallow n (index_from idx (field_list fs))
unfolding index_from fields_nesting
index_from-Shallow n no_fields idx h s = s
index_from-Shallow n (field k v fs) idx h s =
    index_from-Shallow n fs (insert idx k v) (omega arith)
      (insert-Shallow n idx k v (omega arith) s)

field_index-Shallow : (n : ℕ) (v : Value) → nesting v < suc n → 1 ≤ n → Shallow n (field_index v)
unfolding nesting value_at index_from lookup
field_index-Shallow n (object fs) h p =
    index_from-Shallow n fs [] (omega arith) (λ key. omega arith)
field_index-Shallow n _ h p = λ key. omega arith

object-deep : (n : ℕ) (v : Value) → is_object v ≡ true → nesting v < suc n → 1 ≤ n
unfolding nesting
object-deep n (object fs) e h = omega arith
object-deep n _ e h = absurd (ground arith)

if-same :
    {A : Type 0} (b : Bool) (x y z : A)
    → (b ≡ false → y ≡ z)
    → (if b then x else y) ≡ (if b then x else z)
if-same true x y z h = refl
if-same false x y z h = h refl

nested-Shallow :
    (n : ℕ) (indexes : List (Map Value)) (key : Bytes)
    → all_non_empty_objects (column_values indexes key) ≡ true
    → All (Shallow (suc n)) indexes
    → All (Shallow n) (indexes_of (column_values indexes key))
nested-Shallow n [] key h s = tt
nested-Shallow n (idx ∷ indexes) key h (s, ss) = (
  field_index-Shallow n (value_at idx key) (s key)
      (object-deep n (value_at idx key) (ground arith) (s key)),
  nested-Shallow n indexes key (ground arith) ss,
)

shared_columns-same :
    (c d : Bytes → Option TabularCol) (first : Value) (others : List Value)
    → ((key : Bytes) → c key ≡ d key)
    → shared_columns c first others ≡ shared_columns d first others
shared_columns-same c d first others h = ap (λ e. shared_columns e first others) (λ i key. h key i)

-- Fuel beyond the nesting of the values changes nothing.
classify_column_enough :
    (f g : ℕ) (idx : Map Value) (indexes : List (Map Value)) (key : Bytes)
    → All (Shallow f) (idx ∷ indexes)
    → All (Shallow g) (idx ∷ indexes)
    → classify_column f (idx ∷ indexes) key ≡ classify_column g (idx ∷ indexes) key
unfolding classify_column
classify_column_enough zero g idx indexes key (s, ss) t =
    let none_below = s key in absurd (omega arith)
classify_column_enough (suc f) zero idx indexes key s (t, ts) =
    let none_below = t key in absurd (omega arith)
classify_column_enough (suc f) (suc g) idx indexes key s t =
    let rows = idx ∷ indexes in
    let vals = column_values rows key in
    let v = value_at idx key in
    let vs = column_values indexes key in
    if-same (all_primitive vals) _ _ _ (λ _. if-same (not (all_non_empty_objects vals)) _ _ _ (λ e.
      ap (with_children key) (
        shared_columns-same _ _ v vs (λ k.
          classify_column_enough f g (field_index v) (indexes_of vs) k
            (nested-Shallow f rows key (ground (arith, e)) s)
            (nested-Shallow g rows key (ground (arith, e)) t)))))

deep-Shallow :
    (n : ℕ) (items : List Value) → 1 ≤ n → deepest items ≤ n → All (Shallow n) (indexes_of items)
unfolding deepest
deep-Shallow n [] p h = tt
deep-Shallow n (v ∷ items) p h =
    (field_index-Shallow n v (omega arith) p, deep-Shallow n items p (omega arith))

shared_columns_enough :
    (fuel : ℕ) (first : Value) (others : List Value)
    → is_object first ≡ true
    → deepest (first ∷ others) ≤ fuel
    → let rows = indexes_of (first ∷ others) in
      shared_columns (classify_column fuel rows) first others
      ≡ shared_columns (classify_column (deepest (first ∷ others)) rows) first others
unfolding deepest
shared_columns_enough fuel first others o h =
    let items = first ∷ others in
    let p : 1 ≤ deepest items = object-deep (deepest items) first o (omega arith) in
    shared_columns-same _ _ first others (λ key.
      classify_column_enough fuel (deepest items) (field_index first) (indexes_of others) key
        (deep-Shallow fuel items (omega arith) h)
        (deep-Shallow (deepest items) items p (omega arith)))

tabular_fields_on_enough :
    (fuel : ℕ) (items : List Value)
    → deepest items ≤ fuel
    → tabular_fields_on fuel items ≡ tabular_fields items
unfolding tabular_fields_on
tabular_fields_on_enough fuel [] h = refl
tabular_fields_on_enough fuel (first ∷ others) h =
    if-same (not (is_object first) || is_empty (fields_of first)) _ _ _
      (λ e. shared_columns_enough fuel first others (ground (arith, e)) h)

shared_entries_enough :
    (fuel : ℕ) (items : List Value)
    → deepest items ≤ fuel
    → shared_entries fuel items ≡ shared_entries (deepest items) items
unfolding shared_entries
shared_entries_enough fuel [] h = refl
shared_entries_enough fuel (first ∷ others) h =
    if-same (not (all_non_empty_objects (first ∷ others))) _ _ _
      (λ e. shared_columns_enough fuel first others (ground (arith, e)) h)

-- The fuel with which columns are classified is enough: with more, the columns of a table and of
-- a keyed table are the same.
pub columns_enough :
    (fuel : ℕ) (items : List Value) (v : Value)
    → deepest items ≤ fuel
    → deepest (entry_values v) ≤ fuel
    → (tabular_fields_on fuel items ≡ tabular_fields items)
      × (keyed_tabular_cols_on fuel v ≡ keyed_tabular_cols v)
unfolding keyed_tabular_cols_on
columns_enough fuel items v h k = (
  tabular_fields_on_enough fuel items h,
  if-same (ltb (length (fields_of v)) 2) _ _ _ (λ _. shared_entries_enough fuel (entry_values v) k),
)
