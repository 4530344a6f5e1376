-- ===== src/Toon/Value.antt =====
-- internal/toon/value.go: the values that are encoded. A Go slice of values or of fields is a
-- constructor chain here, since a type cannot hold a list of itself.
use mini.Prelude.{Bool, List, [], ◌∷◌, Bytes}

mutual
  -- `invalid` is the zero Value, which Encode rejects; a missing key of a map reads as it.
  pub data Value : Type 0 where
    invalid null : Value
    boolean : Bool → Value
    number : Bytes → Value
    text : Bytes → Value
    object : Fields → Value
    array : Items → Value

  pub data Fields : Type 0 where
    no_fields : Fields
    field : Bytes → Value → Fields → Fields

  pub data Items : Type 0 where
    no_items : Items
    item : Value → Items → Items

pub data ValueKind : Type 0 where
  kind_invalid kind_null kind_bool kind_number kind_string kind_object kind_array : ValueKind

unfoldable pub kind : Value → ValueKind
kind invalid = kind_invalid
kind null = kind_null
kind (boolean b) = kind_bool
kind (number n) = kind_number
kind (text s) = kind_string
kind (object fs) = kind_object
kind (array xs) = kind_array

abbrev pub field_list : Fields → List (Bytes × Value)
field_list no_fields = []
field_list (field k v fs) = (k, v) ∷ field_list fs

abbrev pub item_list : Items → List Value
item_list no_items = []
item_list (item v xs) = v ∷ item_list xs

-- Value.fields and Value.items: empty for a value of another kind.
abbrev pub fields_of : Value → List (Bytes × Value)
fields_of (object fs) = field_list fs
fields_of _ = []

abbrev pub items_of : Value → List Value
items_of (array xs) = item_list xs
items_of _ = []
