-- ===== src/Toon/Encode/Blocks.antt =====
-- internal/toon/array.go and keyed.go: an array or an object whose parts have lines has a block.
use mini.Prelude.{
  ℕ, ◌+◌, ◌≤◌, ◌≡◌, refl, true, List, Option, none, some, Bytes, codes, length, is_empty, leb,
  if-elim, arith,
}
use mini.Utf8.{valid_string}
use mini.Toon.Value.{Value, Fields, Items, object, field_list, item_list}
use mini.Toon.Quote.{encode_key}
use mini.Toon.Numbers.{FloatOps}
use mini.Toon.Columns.{
  Columns, no_columns, column, all_primitive, tabular_fields, keyed_tabular_cols,
}
use mini.Toon.Columns.Found.{Found-some}
use mini.Toon.Columns.Rows.{tabular_fields-IsTable, keyed_tabular_cols-IsTable}
use mini.Toon.Columns.Keys.{HasKeys, tabular_fields-HasKeys, keyed_tabular_cols-HasKeys}
use mini.Toon.Encode.{max_encode_depth, ArrayCtx}
use mini.Toon.Encode.Lines.{
  within_depth, Line, Block, labels, texts, entry_lines, table_block, list_block,
  table_or_list_block, array_block, object_block,
}
use mini.Toon.Encode.Encodable.{
  IsSome, fields_encodable, items_encodable, is_fine, field_index-IsFine, AreFine, combined-IsSome,
  image-IsSome, when-IsSome, texts-IsSome, row_lines-IsSome, entry_lines-IsSome, items-AreFine,
  fields-AreFine, keys-valid,
}

module _ {ℓ} {F : Type ℓ} (ops : FloatOps F) where
  abbrev IsKeyed : Columns → Type 0
  IsKeyed =
      HasKeys (λ v. is_fine ops v ≡ true) (λ k. valid_string k ≡ true)
        (λ v key f. field_index-IsFine ops v f key) (keys-valid ops)

  labels-IsSome : (cols : Columns) → IsKeyed cols → IsSome (labels cols)
  unfolding labels HasKeys
  labels-IsSome no_columns k = refl
  labels-IsSome (column key children rest) (k, c, r) = when-IsSome (valid_string key) _ k (
      combined-IsSome _ (labels children) (labels rest) (labels-IsSome children c)
        (labels-IsSome rest r))

  pub within-IsSome :
      {A : Type 0} (depth : ℕ) (o : Option A)
      → depth ≤ 1024
      → IsSome o
      → IsSome (within_depth depth o)
  within-IsSome depth o h s = when-IsSome (leb depth max_encode_depth) o (ground arith) s

  table_block-IsSome :
      (key : Bytes) (count : ℕ) (mark : Bytes) (depth : ℕ) (cols : Columns)
      (lines : Option (List Line))
      → depth ≤ 1024
      → IsKeyed cols
      → IsSome lines
      → IsSome (table_block key count mark depth cols lines)
  table_block-IsSome key count mark depth cols lines h k s =
      within-IsSome depth _ h (combined-IsSome _ (labels cols) lines (labels-IsSome cols k) s)

  list_block-IsSome :
      (each : ℕ → Option (List Line)) (count : ℕ) (ctx : ArrayCtx)
      → ctx.item_depth ≤ 1024
      → IsSome (each ctx.item_depth)
      → IsSome (list_block each count ctx)
  list_block-IsSome each count ctx h s =
      image-IsSome _ (within_depth ctx.item_depth (each ctx.item_depth))
        (within-IsSome ctx.item_depth _ h s)

  table_or_list-IsSome :
      (each : ℕ → Option (List Line)) (items : List Value) (ctx : ArrayCtx) (cols : Option Columns)
      → tabular_fields items ≡ cols
      → ctx.item_depth ≤ 1024
      → AreFine ops items
      → IsSome (each ctx.item_depth)
      → IsSome (table_or_list_block ops each items ctx cols)
  table_or_list-IsSome each items ctx none e h f s = list_block-IsSome each (length items) ctx h s
  table_or_list-IsSome each items ctx (some cols) e h f s =
      if-elim (λ (o : Option Block). IsSome o) ctx.allow_tabular _ _
        (λ _.
          table_block-IsSome ctx.key (length items) (codes "]{") ctx.item_depth cols _ h
            (Found-some IsKeyed (tabular_fields items) cols
              (tabular_fields-HasKeys _ _ (λ v key g. field_index-IsFine ops v g key)
                (keys-valid ops) items f)
              e)
            (row_lines-IsSome ops ctx.item_depth cols items (tabular_fields-IsTable items cols e)
              f))
        (λ _. list_block-IsSome each (length items) ctx h s)

  pub array_block-IsSome :
      (each : ℕ → Option (List Line)) (xs : Items) (ctx : ArrayCtx)
      → ctx.item_depth ≤ 1024
      → items_encodable ops xs ≡ true
      → IsSome (each ctx.item_depth)
      → IsSome (array_block ops each (item_list xs) ctx)
  unfolding array_block
  array_block-IsSome each xs ctx h e s =
      let f = items-AreFine ops xs e in
      if-elim (λ (o : Option Block). IsSome o) (is_empty (item_list xs)) _ _ (λ _. refl)
        (λ _.
          if-elim (λ (o : Option Block). IsSome o) (all_primitive (item_list xs)) _ _
            (λ p. image-IsSome _ (texts ops (item_list xs)) (texts-IsSome ops (item_list xs) p f))
            (λ _.
              table_or_list-IsSome each (item_list xs) ctx (tabular_fields (item_list xs)) refl h f
                s))

  pub keyed-IsSome :
      (key : Bytes) (fs : Fields) (cols : Columns) (depth : ℕ)
      → keyed_tabular_cols (object fs) ≡ some cols
      → depth ≤ 1024
      → fields_encodable ops fs ≡ true
      → IsSome (
          table_block key
            (length (field_list fs))
            (codes ":]{")
            depth
            cols
            (entry_lines ops depth cols (field_list fs)))
  keyed-IsSome key fs cols depth e h f =
      table_block-IsSome key (length (field_list fs)) (codes ":]{") depth cols _ h
        (Found-some IsKeyed (keyed_tabular_cols (object fs)) cols
          (keyed_tabular_cols-HasKeys _ _ (λ v key g. field_index-IsFine ops v g key)
            (keys-valid ops) (object fs) (fields-AreFine ops fs f))
          e)
        (entry_lines-IsSome ops depth cols fs (keyed_tabular_cols-IsTable (object fs) cols e) f)

  pub object_block-IsSome :
      (k : Bytes) (fs : Fields) (depth : ℕ) (cols : Option Columns) (each : ℕ → Option (List Line))
      → keyed_tabular_cols (object fs) ≡ cols
      → depth + 1 ≤ 1024
      → fields_encodable ops fs ≡ true
      → IsSome (each (depth + 1))
      → IsSome (object_block ops k fs depth cols each)
  object_block-IsSome k fs depth none each e h f s =
      image-IsSome _ (within_depth (depth + 1) (each (depth + 1))) (within-IsSome (depth + 1) _ h s)
  object_block-IsSome k fs depth (some cols) each e h f s =
      keyed-IsSome (encode_key k) fs cols (depth + 1) e h f
