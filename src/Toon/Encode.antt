-- ===== src/Toon/Encode.antt =====
-- internal/toon/encode.go, array.go and keyed.go: the writers. A strings.Builder is the text that is
-- in it, which every writer takes and gives back.
mod Builder
pub mod Lines
pub mod Accepts
pub mod Blocks
pub mod Encodable
pub mod Arrays
pub mod Writers
pub mod Refines
pub mod Tables
pub mod Rows
pub mod Appends
unfoldable pub use Builder.*
use mini.Prelude.{
  ℕ, zero, suc, ◌+◌, Bool, true, false, not, ◌&&◌, List, [], ◌∷◌, ◌++◌, Option, none, some, Bytes,
  bytes_eq, codes, ◌==◌, ltb, length, is_empty, if◌then◌else◌,
}
use mini.Prelude.Decimal.{decimal}
use mini.Prelude.Map.{Map}
use mini.Utf8.{valid_string}
use mini.Toon.Value.{
  Value, Fields, Items, invalid, null, boolean, number, text, object, array, no_fields, field,
  no_items, item, field_list, item_list,
}
use mini.Toon.Quote.{encode_string, encode_key}
use mini.Toon.Numbers.{FloatOps, encode_num}
use mini.Toon.Columns.{
  Columns, no_columns, column, is_leaf, all_primitive, field_index, tabular_fields,
  keyed_tabular_cols, leaf_values,
}

pub record ArrayCtx : Type 0 where
  pub key : Bytes
  pub item_depth : ℕ
  pub allow_tabular : Bool
  pub field_empty : Bool

-- "[" + strconv.Itoa(count) + close
abbrev pub count_header : ℕ → Bytes → Bytes
count_header count close = b'[' ∷ decimal count ++ close

unfoldable pub write_empty_array : ArrayCtx → Writer
write_empty_array ctx =
    if ctx.field_empty
    then append_string (ctx.key ++ codes ": []\n")
    else append_string (codes "[0]:\n")

-- The comma before a column that is not the first.
abbrev pub separator : Bool → Writer
separator is_first = if is_first then done else append_string (codes ",")

abbrev pub braces : Columns → Writer → Writer
braces children w =
    if is_leaf children then done else append_string (codes "{") >> w >> append_string (codes "}")

-- writeColHeaders, from the first column or a later one, and writeColHeader.
unfoldable pub write_col_headers_from : Bool → Columns → Writer
write_col_headers_from is_first no_columns = done
write_col_headers_from is_first (column key children rest) =
    separator is_first
    >> validate_utf8 key
    >> append_string (encode_key key)
    >> braces children (write_col_headers_from true children)
    >> write_col_headers_from false rest

abbrev pub write_col_headers : Columns → Writer
write_col_headers = write_col_headers_from true

unfoldable pub write_tabular_header : Bytes → ℕ → Columns → Writer
write_tabular_header key count cols =
    append_string key
    >> append_string (count_header count (codes "]{"))
    >> write_col_headers cols
    >> append_string (codes "}:\n")

unfoldable pub write_keyed_header : Bytes → ℕ → Columns → Writer
write_keyed_header key count cols =
    append_string key
    >> append_string (count_header count (codes ":]{"))
    >> write_col_headers cols
    >> append_string (codes "}:\n")

-- writeFields and writeListItems: the checks before the loop.
unfoldable pub write_checked : (ℕ → Writer) → ℕ → Writer
write_checked each depth = check_depth depth >> check_length >> each depth

abbrev pub field_ctx : Bytes → ℕ → ArrayCtx
field_ctx k depth = record {
  key = encode_key k;
  item_depth = depth + 1;
  allow_tabular = true;
  field_empty = true;
}

abbrev pub list_item_ctx : ℕ → ArrayCtx
list_item_ctx depth = record {
  key = [];
  item_depth = depth + 1;
  allow_tabular = false;
  field_empty = false;
}

abbrev pub root_ctx : ArrayCtx
root_ctx = record { key = []; item_depth = 1; allow_tabular = true; field_empty = false }

abbrev pub trimmed : EncodeResult → EncodeResult
trimmed (ok s) = ok (trim_newline s)
trimmed (err e) = err e

-- The end of writeArray; the first argument writes the items.
abbrev pub write_list : (ℕ → Writer) → ℕ → ArrayCtx → Writer
write_list each count ctx =
    append_string ctx.key
    >> append_string (count_header count (codes "]:\n"))
    >> write_checked each ctx.item_depth

module _ {ℓ} {F : Type ℓ} (ops : FloatOps F) where
  unfoldable pub encode_primitive : Value → EncodeResult
  encode_primitive invalid = err uninitialized
  encode_primitive null = ok (codes "null")
  encode_primitive (boolean b) = ok (encode_bool b)
  encode_primitive (number n) = encode_number (encode_num ops n)
  encode_primitive (text s) = encode_text s
  encode_primitive (object _) = err not_primitive
  encode_primitive (array _) = err not_primitive

  -- The loop of joinPrimitives, from the first value or a later one.
  unfoldable pub join_from : Bool → List Value → Writer
  join_from is_first [] = done
  join_from is_first (v ∷ vs) =
      with_text (encode_primitive v)
        (λ s. separator is_first >> append_string s >> join_from false vs)

  abbrev pub join_primitives : List Value → EncodeResult
  join_primitives vs = join_from true vs []

  unfoldable pub write_inline_array : List Value → Bytes → Writer
  write_inline_array items key = with_text (join_primitives items) (λ row.
      append_string key
      >> append_string (count_header (length items) (codes "]: "))
      >> append_string row
      >> append_string (codes "\n"))

  unfoldable pub write_tabular_row : Bytes → List Value → Writer
  write_tabular_row prefix values =
      with_text (join_primitives values)
        (λ row. append_string prefix >> append_string row >> append_string (codes "\n"))

  -- The loop of writeTabularArray.
  unfoldable pub write_rows : Bytes → Columns → List Value → Writer
  write_rows prefix cols [] = done
  write_rows prefix cols (v ∷ items) =
      write_tabular_row prefix (leaf_values (field_index v) cols) >> write_rows prefix cols items

  unfoldable pub write_tabular_array : List Value → Columns → ArrayCtx → Writer
  write_tabular_array items cols ctx =
      check_depth ctx.item_depth
      >> write_tabular_header ctx.key (length items) cols
      >> write_rows (indent ctx.item_depth) cols items

  unfoldable pub write_keyed_entry : Bytes → Columns → Bytes → Value → Writer
  write_keyed_entry prefix cols key v =
      validate_utf8 key
      >> with_text (join_primitives (leaf_values (field_index v) cols)) (λ cells.
        append_string prefix
        >> append_string (encode_key key ++ codes ": ")
        >> append_string (cells ++ codes "\n"))

  -- The loop of writeKeyedTabular.
  unfoldable pub write_entries : Bytes → Columns → List (Bytes × Value) → Writer
  write_entries prefix cols [] = done
  write_entries prefix cols ((k, v) ∷ fs) =
      write_keyed_entry prefix cols k v >> write_entries prefix cols fs

  unfoldable pub write_keyed_tabular : Bytes → List (Bytes × Value) → Columns → ℕ → Writer
  write_keyed_tabular key fields cols entry_depth =
      check_depth entry_depth
      >> write_keyed_header key (length fields) cols
      >> write_entries (indent entry_depth) cols fields

  abbrev pub write_table_or_list : (ℕ → Writer) → List Value → ArrayCtx → Option Columns → Writer
  write_table_or_list each items ctx none = write_list each (length items) ctx
  write_table_or_list each items ctx (some cols) =
      if ctx.allow_tabular
      then write_tabular_array items cols ctx
      else write_list each (length items) ctx

  unfoldable pub write_array : (ℕ → Writer) → List Value → ArrayCtx → Writer
  write_array each items ctx =
      if is_empty items
      then write_empty_array ctx
      else if all_primitive items
      then write_inline_array items ctx.key
      else write_table_or_list each items ctx (tabular_fields items)

  -- The end of writeFieldValue.
  unfoldable pub write_primitive_value : Value → Writer
  write_primitive_value v =
      with_text (encode_primitive v)
        (λ s. append_string (codes " ") >> append_string s >> append_string (codes "\n"))

  unfoldable pub write_primitive_list_item : Value → ℕ → Writer
  write_primitive_list_item v depth =
      with_text (encode_primitive v)
        (λ s. append_string (indent depth ++ codes "- " ++ s ++ codes "\n"))

  -- The end of writeFieldBody; the last argument is the loop of writeFields on the value.
  abbrev pub write_object_field : Bytes → Fields → ℕ → Option Columns → (ℕ → Writer) → Writer
  write_object_field k fs depth (some cols) each =
      write_keyed_tabular (encode_key k) (field_list fs) cols (depth + 1)
  write_object_field k fs depth none each =
      append_string (encode_key k)
      >> append_string (codes ":")
      >> append_string (codes "\n")
      >> write_checked each (depth + 1)

  unfoldable mutual
    -- writeFieldBody with writeFieldValue.
    pub write_field_body : Bytes → Value → ℕ → Writer
    write_field_body k (array xs) depth =
        validate_utf8 k >> write_array (write_each_item xs) (item_list xs) (field_ctx k depth)
    write_field_body k (object fs) depth =
        validate_utf8 k
        >> write_object_field k fs depth (keyed_tabular_cols (object fs)) (write_each_field fs)
    write_field_body k v depth =
        validate_utf8 k
        >> append_string (encode_key k)
        >> append_string (codes ":")
        >> write_primitive_value v

    -- The loop of writeFields, with writeField.
    pub write_each_field : Fields → ℕ → Writer
    write_each_field no_fields depth = done
    write_each_field (field k v fs) depth =
        append_string (indent depth) >> write_field_body k v depth >> write_each_field fs depth

    pub write_object_list_item : Fields → ℕ → Writer
    write_object_list_item no_fields depth = append_string (indent depth ++ codes "-\n")
    write_object_list_item (field k v fs) depth =
        append_string (indent depth ++ codes "- ")
        >> write_field_body k v (depth + 1)
        >> write_checked (write_each_field fs) (depth + 1)

    pub write_list_item : Value → ℕ → Writer
    write_list_item (object fs) depth = write_object_list_item fs depth
    write_list_item (array xs) depth =
        append_string (indent depth ++ codes "- ")
        >> write_array (write_each_item xs) (item_list xs) (list_item_ctx depth)
    write_list_item v depth = write_primitive_list_item v depth

    -- The loop of writeListItems.
    pub write_each_item : Items → ℕ → Writer
    write_each_item no_items depth = done
    write_each_item (item v xs) depth = write_list_item v depth >> write_each_item xs depth

  unfoldable pub encode_root_array : Items → EncodeResult
  encode_root_array xs =
      if is_empty (item_list xs)
      then ok (codes "[]")
      else trimmed (write_array (write_each_item xs) (item_list xs) root_ctx [])

  abbrev pub write_root : Fields → Option Columns → Writer
  write_root fs none = write_checked (write_each_field fs) 0
  write_root fs (some cols) = write_keyed_tabular [] (field_list fs) cols 1

  unfoldable pub encode_root_object : Fields → EncodeResult
  encode_root_object fs = trimmed (write_root fs (keyed_tabular_cols (object fs)) [])

  abbrev pub encode_valid : Value → EncodeResult
  encode_valid (object fs) = encode_root_object fs
  encode_valid (array xs) = encode_root_array xs
  encode_valid v = encode_primitive v

  unfoldable pub encode : Value → EncodeResult
  encode v = if validate_depth v 0 then encode_valid v else err too_deep
