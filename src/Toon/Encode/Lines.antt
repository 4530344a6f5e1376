-- ===== src/Toon/Encode/Lines.antt =====
-- internal/toon: the document as a list of indented lines, with no buffer and no limit on its
-- length, to which the writers of encode.go, array.go and keyed.go are compared.
use mini.Prelude.{
  ℕ, ◌+◌, Bool, List, [], ◌∷◌, ◌++◌, Option, none, some, Bytes, codes, leb, length, is_empty,
  if◌then◌else◌,
}
use mini.Utf8.{valid_string}
use mini.Toon.Value.{
  Value, Fields, Items, null, boolean, number, text, object, array, no_fields, field, no_items,
  item, field_list, item_list,
}
use mini.Toon.Quote.{encode_string, encode_key}
use mini.Toon.Numbers.{FloatOps, encode_num}
use mini.Toon.Columns.{
  Columns, no_columns, column, is_leaf, all_primitive, field_index, tabular_fields,
  keyed_tabular_cols, leaf_values,
}
use mini.Toon.Encode.{
  max_encode_depth, encode_bool, indent, trim_newline, validate_depth, ArrayCtx, count_header,
  field_ctx, list_item_ctx, root_ctx,
}

-- An answer under a condition, the image of an answer, and two answers combined.
abbrev pub when : {A : Type 0} → Bool → Option A → Option A
when b o = if b then o else none

abbrev pub image : {A B : Type 0} → (A → B) → Option A → Option B
image f none = none
image f (some a) = some (f a)

abbrev pub combined : {A B C : Type 0} → (A → B → C) → Option A → Option B → Option C
combined f none q = none
combined f (some a) q = image (f a) q

abbrev pub within_depth : {A : Type 0} → ℕ → Option A → Option A
within_depth depth o = when (leb depth max_encode_depth) o

-- A line and its depth; and the text that follows what stands on a line, with more lines below.
abbrev pub Line : Type 0
Line = ℕ × Bytes

abbrev pub Block : Type 0
Block = Bytes × List Line

unfoldable pub print : List Line → Bytes
print [] = []
print ((depth, s) ∷ ls) = indent depth ++ s ++ b'\n' ∷ print ls

abbrev pub print_block : Block → Bytes
print_block (s, ls) = s ++ b'\n' ∷ print ls

abbrev pub block_at : ℕ → Bytes → Block → List Line
block_at depth prefix (s, ls) = (depth, prefix ++ s) ∷ ls

-- Texts with commas between them.
unfoldable pub with_commas : List Bytes → Bytes
with_commas [] = []
with_commas (s ∷ ss) = b',' ∷ s ++ with_commas ss

abbrev pub comma_separated : List Bytes → Bytes
comma_separated [] = []
comma_separated (s ∷ ss) = s ++ with_commas ss

abbrev pub label : Bytes → Columns → List Bytes → Bytes
label key children below =
    if is_leaf children
    then encode_key key
    else encode_key key ++ b'{' ∷ comma_separated below ++ codes "}"

unfoldable pub labels : Columns → Option (List Bytes)
labels no_columns = some []
labels (column key children rest) =
    when (valid_string key)
      (combined (λ below ss. label key children below ∷ ss) (labels children) (labels rest))

abbrev pub table_block : Bytes → ℕ → Bytes → ℕ → Columns → Option (List Line) → Option Block
table_block key count close depth cols lines = within_depth depth (
    combined (λ ss ls. (key ++ count_header count close ++ comma_separated ss ++ codes "}:", ls))
      (labels cols) lines)

abbrev pub list_block : (ℕ → Option (List Line)) → ℕ → ArrayCtx → Option Block
list_block each count ctx =
    image (λ ls. (ctx.key ++ count_header count (codes "]:"), ls))
      (within_depth ctx.item_depth (each ctx.item_depth))

module _ {ℓ} {F : Type ℓ} (ops : FloatOps F) where
  unfoldable pub primitive_text : Value → Option Bytes
  primitive_text null = some (codes "null")
  primitive_text (boolean b) = some (encode_bool b)
  primitive_text (number n) = encode_num ops n
  primitive_text (text s) = when (valid_string s) (some (encode_string s))
  primitive_text _ = none

  unfoldable pub texts : List Value → Option (List Bytes)
  texts [] = some []
  texts (v ∷ vs) = combined (λ s ss. s ∷ ss) (primitive_text v) (texts vs)

  unfoldable pub row_lines : ℕ → Columns → List Value → Option (List Line)
  row_lines depth cols [] = some []
  row_lines depth cols (v ∷ items) =
      combined (λ ss ls. (depth, comma_separated ss) ∷ ls)
        (texts (leaf_values (field_index v) cols)) (row_lines depth cols items)

  abbrev pub entry_text : Columns → Bytes → Value → Option Bytes
  entry_text cols key v = when (valid_string key) (
      image (λ ss. encode_key key ++ codes ": " ++ comma_separated ss)
        (texts (leaf_values (field_index v) cols)))

  unfoldable pub entry_lines : ℕ → Columns → List (Bytes × Value) → Option (List Line)
  entry_lines depth cols [] = some []
  entry_lines depth cols ((k, v) ∷ fs) =
      combined (λ s ls. (depth, s) ∷ ls) (entry_text cols k v) (entry_lines depth cols fs)

  abbrev pub table_or_list_block :
      (ℕ → Option (List Line)) → List Value → ArrayCtx → Option Columns → Option Block
  table_or_list_block each items ctx none = list_block each (length items) ctx
  table_or_list_block each items ctx (some cols) =
      if ctx.allow_tabular
      then table_block ctx.key (length items) (codes "]{") ctx.item_depth cols
          (row_lines ctx.item_depth cols items)
      else list_block each (length items) ctx

  unfoldable pub array_block : (ℕ → Option (List Line)) → List Value → ArrayCtx → Option Block
  array_block each items ctx =
      if is_empty items
      then some (if ctx.field_empty then ctx.key ++ codes ": []" else codes "[0]:", [])
      else if all_primitive items
      then image
          (λ ss. (ctx.key ++ count_header (length items) (codes "]: ") ++ comma_separated ss, []))
          (texts items)
      else table_or_list_block each items ctx (tabular_fields items)

  abbrev pub object_block :
      Bytes → Fields → ℕ → Option Columns → (ℕ → Option (List Line)) → Option Block
  object_block k fs depth (some cols) each =
      table_block (encode_key k) (length (field_list fs)) (codes ":]{") (depth + 1) cols
        (entry_lines (depth + 1) cols (field_list fs))
  object_block k fs depth none each =
      image (λ ls. (encode_key k ++ codes ":", ls)) (within_depth (depth + 1) (each (depth + 1)))

  abbrev pub item_line : ℕ → Value → Option (List Line)
  item_line depth v = image (λ s. (depth, codes "- " ++ s) ∷ []) (primitive_text v)

  unfoldable mutual
    -- A field, behind what stands on its line.
    pub field_block : Bytes → Value → ℕ → Option Block
    field_block k (array xs) depth =
        when (valid_string k) (array_block (items_lines xs) (item_list xs) (field_ctx k depth))
    field_block k (object fs) depth =
        when (valid_string k)
          (object_block k fs depth (keyed_tabular_cols (object fs)) (fields_lines fs))
    field_block k v depth =
        when (valid_string k)
          (image (λ s. (encode_key k ++ codes ": " ++ s, [])) (primitive_text v))

    pub fields_lines : Fields → ℕ → Option (List Line)
    fields_lines no_fields depth = some []
    fields_lines (field k v fs) depth =
        combined (λ b ls. block_at depth [] b ++ ls) (field_block k v depth) (fields_lines fs depth)

    -- The first field stands on the line of the hyphen.
    pub object_item_lines : Fields → ℕ → Option (List Line)
    object_item_lines no_fields depth = some ((depth, codes "-") ∷ [])
    object_item_lines (field k v fs) depth =
        combined (λ b ls. block_at depth (codes "- ") b ++ ls) (field_block k v (depth + 1))
          (within_depth (depth + 1) (fields_lines fs (depth + 1)))

    pub item_lines : Value → ℕ → Option (List Line)
    item_lines (object fs) depth = object_item_lines fs depth
    item_lines (array xs) depth =
        image (block_at depth (codes "- "))
          (array_block (items_lines xs) (item_list xs) (list_item_ctx depth))
    item_lines v depth = item_line depth v

    pub items_lines : Items → ℕ → Option (List Line)
    items_lines no_items depth = some []
    items_lines (item v xs) depth =
        combined (λ ls ms. ls ++ ms) (item_lines v depth) (items_lines xs depth)

  -- The lines of an object or of an array that is not empty, each with its newline.
  abbrev pub root_object : Fields → Option Columns → Option Bytes
  root_object fs none = image print (within_depth 0 (fields_lines fs 0))
  root_object fs (some cols) = image print_block (
      table_block [] (length (field_list fs)) (codes ":]{") 1 cols
        (entry_lines 1 cols (field_list fs)))

  abbrev pub root_array : Items → Option Bytes
  root_array xs = image print_block (array_block (items_lines xs) (item_list xs) root_ctx)

  abbrev pub root_text : Value → Option Bytes
  root_text (object fs) = image trim_newline (root_object fs (keyed_tabular_cols (object fs)))
  root_text (array xs) =
      if is_empty (item_list xs) then some (codes "[]") else image trim_newline (root_array xs)
  root_text v = primitive_text v

  unfoldable pub document : Value → Option Bytes
  document v = when (validate_depth v 0) (root_text v)
