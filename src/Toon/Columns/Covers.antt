-- ===== src/Toon/Columns/Covers.antt =====
-- internal/toon/array.go and keyed.go: a header has the keys of every row, at any depth.
use mini.Prelude.{◌≡◌, true, false, List, [], ◌∷◌, Bytes, All}
use mini.Prelude.Map.{Map}
use mini.Toon.Value.{Value}
use mini.Toon.Columns.{
  Columns, no_columns, column, TabularCol, is_leaf, is_primitive, field_keys, field_index, value_at,
}
use mini.Toon.Columns.Found.{Found}
use mini.Toon.Columns.KeySets.{SameKeys}

abbrev pub column_keys : Columns → List Bytes
column_keys no_columns = []
column_keys (column key children rest) = key ∷ column_keys rest

-- Under a leaf stands a primitive value, under another column an object with its keys, and so on.
unfoldable pub AreCells : Map Value → Columns → Type 0
AreCells idx no_columns = Unit
AreCells idx (column key children rest) =
    (is_leaf children ≡ true → is_primitive (value_at idx key) ≡ true)
    × (is_leaf children ≡ false
        → SameKeys (column_keys children) (value_at idx key)
          × AreCells (field_index (value_at idx key)) children)
    × AreCells idx rest

abbrev IsCell : Columns → Value → Type 0
IsCell children v =
    (is_leaf children ≡ true → is_primitive v ≡ true)
    × (is_leaf children ≡ false
        → SameKeys (column_keys children) v × AreCells (field_index v) children)

abbrev IsColumn : List (Map Value) → Bytes → TabularCol → Type 0
IsColumn indexes key (name, children) =
    (name ≡ key) × All (λ idx. IsCell children (value_at idx key)) indexes

abbrev AreColumns : List (Map Value) → List Bytes → Columns → Type 0
AreColumns indexes keys cols = All (λ idx. AreCells idx cols) indexes × (column_keys cols ≡ keys)

-- The cells of each row, the keys of the first value, and those of all the values.
abbrev AreShared : List (Map Value) → Value → List Value → Columns → Type 0
AreShared indexes first others cols =
    AreColumns indexes (field_keys first) cols × All (SameKeys (field_keys first)) (first ∷ others)

-- Each value has the keys of the header, and so on in its columns.
abbrev pub AreCovered : List Value → Columns → Type 0
AreCovered items cols =
    All (λ v. SameKeys (column_keys cols) v × AreCells (field_index v) cols) items
