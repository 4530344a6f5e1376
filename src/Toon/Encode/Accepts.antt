-- ===== src/Toon/Encode/Accepts.antt =====
-- internal/toon: Encode accepts every value whose parts can be written and that is not too deep.
use mini.Prelude.{
  ℕ, suc, ◌+◌, ◌≤◌, ◌<◌, ◌≡◌, refl, ap, Bool, true, false, ◌&&◌, [], ◌++◌, Option, none, some,
  Bytes, codes, length, is_empty, ltb, if-elim, if◌then◌else◌, arith,
}
use mini.Utf8.{valid_string}
use mini.Toon.Value.{
  Value, Fields, Items, invalid, null, boolean, number, text, object, array, no_fields, field,
  no_items, item, field_list, item_list,
}
use mini.Toon.Quote.{encode_key}
use mini.Toon.Numbers.{FloatOps}
use mini.Toon.Columns.{
  Columns, is_primitive, keyed_tabular_cols, nesting, fields_nesting, items_nesting,
}
use mini.Toon.Encode.{
  max_encode_bytes, max_encode_depth, validate_depth, validate_fields_depth, validate_items_depth,
  field_ctx, list_item_ctx, root_ctx, EncodeResult, ok, err, encode,
}
use mini.Toon.Encode.Lines.{
  when, image, within_depth, Block, primitive_text, entry_lines, table_block, array_block,
  item_line, field_block, fields_lines, object_item_lines, item_lines, items_lines, root_object,
  root_array, root_text, document,
}
use mini.Toon.Encode.Encodable.{
  IsSome, is_encodable, fields_encodable, items_encodable, combined-IsSome, image-IsSome,
  when-IsSome, primitive_text-IsSome,
}
use mini.Toon.Encode.Refines.{Implements, encode-Implements}
use mini.Toon.Encode.Blocks.{within-IsSome, array_block-IsSome, object_block-IsSome, keyed-IsSome}

depth_passed :
    (depth : ℕ) (b : Bool)
    → depth ≤ 1024
    → b ≡ true
    → (if ltb max_encode_depth depth then false else b) ≡ true
depth_passed depth b h e = ground arith

both_true : (a b : Bool) → (a && b) ≡ true → (a ≡ true) × (b ≡ true)
both_true true b h = (refl, h)
both_true false b h = absurd (ground arith)

-- validateDepth passes what nests up to the maximal depth and one level more.
mutual
  unfolding validate_depth nesting

  validate_depth-nesting :
      (v : Value) (depth : ℕ) → depth + nesting v ≤ 1025 → validate_depth v depth ≡ true
  validate_depth-nesting (object fs) depth h =
      depth_passed depth _ (omega arith) (fields-nesting fs (depth + 1) (omega arith))
  validate_depth-nesting (array xs) depth h =
      depth_passed depth _ (omega arith) (items-nesting xs (depth + 1) (omega arith))
  validate_depth-nesting invalid depth h = refl
  validate_depth-nesting null depth h = refl
  validate_depth-nesting (boolean b) depth h = refl
  validate_depth-nesting (number n) depth h = refl
  validate_depth-nesting (text s) depth h = refl

  fields-nesting :
      (fs : Fields) (depth : ℕ)
      → depth + fields_nesting fs ≤ 1025
      → validate_fields_depth fs depth ≡ true
  fields-nesting no_fields depth h = refl
  fields-nesting (field k v fs) depth h =
      let p = validate_depth-nesting v depth (omega arith) in
      let q = fields-nesting fs depth (omega arith) in rw p q

  items-nesting :
      (xs : Items) (depth : ℕ)
      → depth + items_nesting xs ≤ 1025
      → validate_items_depth xs depth ≡ true
  items-nesting no_items depth h = refl
  items-nesting (item v xs) depth h =
      let p = validate_depth-nesting v depth (omega arith) in
      let q = items-nesting xs depth (omega arith) in rw p q

module _ {ℓ} {F : Type ℓ} (ops : FloatOps F) where
  field_primitive-IsSome :
      (k : Bytes) (v : Value)
      → valid_string k ≡ true
      → IsSome (primitive_text ops v)
      → IsSome {A = Block} (
          when
            (valid_string k)
            (image (λ s. (encode_key k ++ codes ": " ++ s, [])) (primitive_text ops v)))
  field_primitive-IsSome k v h p =
      when-IsSome (valid_string k) _ h (image-IsSome _ (primitive_text ops v) p)

  item_line-IsSome :
      (depth : ℕ) (v : Value) → IsSome (primitive_text ops v) → IsSome (item_line ops depth v)
  item_line-IsSome depth v p = image-IsSome _ (primitive_text ops v) p

  mutual
    unfolding field_block nesting is_encodable is_primitive

    field_block-IsSome :
        (k : Bytes) (v : Value) (depth : ℕ)
        → valid_string k ≡ true
        → is_encodable ops v ≡ true
        → depth + nesting v ≤ 1024
        → IsSome (field_block ops k v depth)
    field_block-IsSome k (array xs) depth h e l = when-IsSome (valid_string k) _ h (
        array_block-IsSome ops (items_lines ops xs) xs (field_ctx k depth) (omega arith) e
          (items_lines-IsSome xs (depth + 1) e (omega arith)))
    field_block-IsSome k (object fs) depth h e l = when-IsSome (valid_string k) _ h (
        object_block-IsSome ops k fs depth (keyed_tabular_cols (object fs)) (fields_lines ops fs)
          refl (omega arith) e (fields_lines-IsSome fs (depth + 1) e (omega arith)))
    field_block-IsSome k invalid depth h e l = absurd (ground arith)
    field_block-IsSome k null depth h e l =
        field_primitive-IsSome k null h (primitive_text-IsSome ops null refl refl)
    field_block-IsSome k (boolean b) depth h e l =
        field_primitive-IsSome k (boolean b) h (primitive_text-IsSome ops (boolean b) refl refl)
    field_block-IsSome k (number n) depth h e l =
        field_primitive-IsSome k (number n) h (primitive_text-IsSome ops (number n) refl e)
    field_block-IsSome k (text s) depth h e l =
        field_primitive-IsSome k (text s) h (primitive_text-IsSome ops (text s) refl e)

    fields_lines-IsSome :
        (fs : Fields) (depth : ℕ)
        → fields_encodable ops fs ≡ true
        → depth + fields_nesting fs ≤ 1024
        → IsSome (fields_lines ops fs depth)
    fields_lines-IsSome no_fields depth e l = refl
    fields_lines-IsSome (field k v fs) depth e l =
        combined-IsSome _ (field_block ops k v depth) (fields_lines ops fs depth)
          (field_block-IsSome k v depth (both_true _ _ e).0 (both_true _ _ (both_true _ _ e).1).0
            (omega arith))
          (fields_lines-IsSome fs depth (both_true _ _ (both_true _ _ e).1).1 (omega arith))

    object_item-IsSome :
        (fs : Fields) (depth : ℕ)
        → fields_encodable ops fs ≡ true
        → depth + suc (fields_nesting fs) ≤ 1024
        → IsSome (object_item_lines ops fs depth)
    object_item-IsSome no_fields depth e l = refl
    object_item-IsSome (field k v fs) depth e l =
        combined-IsSome _ (field_block ops k v (depth + 1))
          (within_depth (depth + 1) (fields_lines ops fs (depth + 1)))
          (field_block-IsSome k v (depth + 1) (both_true _ _ e).0
            (both_true _ _ (both_true _ _ e).1).0 (omega arith))
          (within-IsSome ops (depth + 1) _ (omega arith) (
            fields_lines-IsSome fs (depth + 1) (both_true _ _ (both_true _ _ e).1).1 (omega arith)))

    item_lines-IsSome :
        (v : Value) (depth : ℕ)
        → is_encodable ops v ≡ true
        → depth + nesting v ≤ 1024
        → IsSome (item_lines ops v depth)
    item_lines-IsSome (object fs) depth e l = object_item-IsSome fs depth e l
    item_lines-IsSome (array xs) depth e l =
        image-IsSome _ (array_block ops (items_lines ops xs) (item_list xs) (list_item_ctx depth)) (
          array_block-IsSome ops (items_lines ops xs) xs (list_item_ctx depth) (omega arith) e
            (items_lines-IsSome xs (depth + 1) e (omega arith)))
    item_lines-IsSome invalid depth e l = absurd (ground arith)
    item_lines-IsSome null depth e l =
        item_line-IsSome depth null (primitive_text-IsSome ops null refl refl)
    item_lines-IsSome (boolean b) depth e l =
        item_line-IsSome depth (boolean b) (primitive_text-IsSome ops (boolean b) refl refl)
    item_lines-IsSome (number n) depth e l =
        item_line-IsSome depth (number n) (primitive_text-IsSome ops (number n) refl e)
    item_lines-IsSome (text s) depth e l =
        item_line-IsSome depth (text s) (primitive_text-IsSome ops (text s) refl e)

    items_lines-IsSome :
        (xs : Items) (depth : ℕ)
        → items_encodable ops xs ≡ true
        → depth + items_nesting xs ≤ 1024
        → IsSome (items_lines ops xs depth)
    items_lines-IsSome no_items depth e l = refl
    items_lines-IsSome (item v xs) depth e l =
        combined-IsSome _ (item_lines ops v depth) (items_lines ops xs depth)
          (item_lines-IsSome v depth (both_true _ _ e).0 (omega arith))
          (items_lines-IsSome xs depth (both_true _ _ e).1 (omega arith))

  root_object-IsSome :
      (fs : Fields) (cols : Option Columns)
      → keyed_tabular_cols (object fs) ≡ cols
      → fields_encodable ops fs ≡ true
      → fields_nesting fs ≤ 1024
      → IsSome (root_object ops fs cols)
  root_object-IsSome fs none e f l =
      image-IsSome _ (within_depth 0 (fields_lines ops fs 0))
        (within-IsSome ops 0 _ (omega arith) (fields_lines-IsSome fs 0 f (omega arith)))
  root_object-IsSome fs (some cols) e f l =
      image-IsSome _
        (table_block [] (length (field_list fs)) (codes ":]{") 1 cols
          (entry_lines ops 1 cols (field_list fs)))
        (keyed-IsSome ops [] fs cols 1 e (omega arith) f)

  root_text-IsSome :
      (v : Value) → is_encodable ops v ≡ true → nesting v ≤ 1024 → IsSome (root_text ops v)
  unfolding nesting is_encodable is_primitive
  root_text-IsSome (object fs) e l =
      image-IsSome _ (root_object ops fs (keyed_tabular_cols (object fs)))
        (root_object-IsSome fs (keyed_tabular_cols (object fs)) refl e (omega arith))
  root_text-IsSome (array xs) e l =
      if-elim (λ (o : Option Bytes). IsSome o) (is_empty (item_list xs)) _ _ (λ _. refl)
        (λ _. image-IsSome _ (root_array ops xs) (
          image-IsSome _ (array_block ops (items_lines ops xs) (item_list xs) root_ctx) (
            array_block-IsSome ops (items_lines ops xs) xs root_ctx (omega arith) e
              (items_lines-IsSome xs 1 e (omega arith)))))
  root_text-IsSome invalid e l = absurd (ground arith)
  root_text-IsSome null e l = primitive_text-IsSome ops null refl refl
  root_text-IsSome (boolean b) e l = primitive_text-IsSome ops (boolean b) refl refl
  root_text-IsSome (number n) e l = primitive_text-IsSome ops (number n) refl e
  root_text-IsSome (text s) e l = primitive_text-IsSome ops (text s) refl e

  document-IsSome :
      (v : Value) → is_encodable ops v ≡ true → nesting v ≤ 1024 → IsSome (document ops v)
  unfolding document
  document-IsSome v e l =
      when-IsSome (validate_depth v 0) _ (validate_depth-nesting v 0 (omega arith))
        (root_text-IsSome v e l)

implemented :
    (t : Option Bytes) (r : EncodeResult)
    → IsSome t
    → Implements t r
    → (s : Bytes) × (t ≡ some s) × (length s < max_encode_bytes → r ≡ ok s)
implemented none r h i = absurd (ground arith)
implemented (some s) (ok u) h (e, l) = (s, refl, λ _. ap ok e)
implemented (some s) (err x) h (e, l) = (s, refl, λ k. absurd (omega arith))

-- If every string and key of a value is valid UTF-8, every number is one, no zero Value is in
-- it, and it nests at most 1,024 levels, then it has a document, and Encode gives it if it is
-- shorter than 4 MiB.
pub encode-accepts :
    {F : Type 0} (ops : FloatOps F) (v : Value)
    → is_encodable ops v ≡ true
    → nesting v ≤ 1024
    → (s : Bytes) × (document ops v ≡ some s) × (length s < max_encode_bytes → encode ops v ≡ ok s)
encode-accepts ops v e l =
    implemented (document ops v) (encode ops v) (document-IsSome ops v e l)
      (encode-Implements ops v)
