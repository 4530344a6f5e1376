-- ===== src/Toon/Encode/Arrays.antt =====
-- internal/toon/array.go: the writers of arrays write the lines of the document.
use mini.Prelude.{
  ℕ, ◌≡◌, refl, sym, subst, Bool, true, false, List, [], ◌++◌, append_assoc, Option, none, some,
  Bytes, codes, leb, length, length-append, is_empty, if◌then◌else◌, arith,
}
use mini.Toon.Value.{Value}
use mini.Toon.Numbers.{FloatOps}
use mini.Toon.Columns.{Columns, all_primitive, tabular_fields}
use mini.Toon.Encode.{
  max_encode_depth, ArrayCtx, Writer, append_string, count_header, write_empty_array,
  write_tabular_array, write_inline_array, write_list, write_table_or_list, write_array,
}
use mini.Toon.Encode.Lines.{
  image, texts, comma_separated, table_block, row_lines, list_block, table_or_list_block,
  array_block, print, print_block, Line, Block, within_depth,
}
use mini.Toon.Encode.Appends.{
  Appends, >>-Appends, >>-after, append_string-Appends, with_text-image, Appends-image,
  Appends-when, write_checked-Appends,
}
use mini.Toon.Encode.Rows.{join_primitives-Agrees}
use mini.Toon.Encode.Tables.{write_tabular_array-Appends}

write_empty_array-Appends :
    (ctx : ArrayCtx)
    → Appends
        (some (print_block (if ctx.field_empty then ctx.key ++ codes ": []" else codes "[0]:", [])))
        (write_empty_array ctx)
unfolding write_empty_array print
write_empty_array-Appends ctx = split ctx.field_empty
  where
    split :
        (b : Bool)
        → Appends (some (print_block (if b then ctx.key ++ codes ": []" else codes "[0]:", []))) (
            if b then append_string (ctx.key ++ codes ": []\n") else append_string (codes "[0]:\n"))
    split true =
        subst (λ (s : Bytes). Appends (some s) (append_string (ctx.key ++ codes ": []\n")))
          (sym (append_assoc ctx.key (codes ": []") (codes "\n")))
          (append_string-Appends (ctx.key ++ codes ": []\n"))
    split false = append_string-Appends (codes "[0]:\n")

write_list-Appends :
    (each : ℕ → Writer) (lines : ℕ → Option (List Line)) (count : ℕ) (ctx : ArrayCtx)
    → ((depth : ℕ) → Appends (image print (lines depth)) (each depth))
    → Appends (image print_block (list_block lines count ctx)) (write_list each count ctx)
write_list-Appends each lines count ctx p =
    let o = within_depth ctx.item_depth (lines ctx.item_depth) in
    Appends-image o (λ ls. ctx.key ++ (count_header count (codes "]:\n") ++ print ls)) _ print_block
      (λ ls. simp append_assoc) _
      (>>-after o _ ctx.key _ (
        >>-after o print (count_header count (codes "]:\n")) _ (
          Appends-when (leb ctx.item_depth max_encode_depth) _ print _
            (write_checked-Appends each ctx.item_depth (p ctx.item_depth)))))

module _ {ℓ} {F : Type ℓ} (ops : FloatOps F) where
  write_inline_array-Appends :
      (items : List Value) (key : Bytes)
      → Appends
          (image print_block (
            image
              (λ ss. (key ++ count_header (length items) (codes "]: ") ++ comma_separated ss, []))
              (texts ops items)))
          (write_inline_array ops items key)
  unfolding write_inline_array print
  write_inline_array-Appends items key =
      let header = count_header (length items) (codes "]: ") in
      Appends-image (texts ops items) (λ ss. key ++ (header ++ (comma_separated ss ++ codes "\n")))
        _ print_block (λ ss. simp append_assoc) _
        (with_text-image (texts ops items) comma_separated _ _
          (λ row. key ++ (header ++ (row ++ codes "\n"))) (join_primitives-Agrees ops items)
          (λ row. >>-Appends _ _ (append_string-Appends key) (
            >>-Appends _ _ (append_string-Appends header)
              (>>-Appends _ _ (append_string-Appends row) (append_string-Appends (codes "\n")))))
          (λ row. omega (
            arith,
            length-append key (header ++ (row ++ codes "\n")),
            length-append header (row ++ codes "\n"),
            length-append row (codes "\n"),
          )))

  write_table_or_list-Appends :
      (each : ℕ → Writer) (lines : ℕ → Option (List Line)) (items : List Value) (ctx : ArrayCtx)
      (cols : Option Columns)
      → ((depth : ℕ) → Appends (image print (lines depth)) (each depth))
      → Appends
          (image print_block (table_or_list_block ops lines items ctx cols))
          (write_table_or_list ops each items ctx cols)
  write_table_or_list-Appends each lines items ctx none p =
      write_list-Appends each lines (length items) ctx p
  write_table_or_list-Appends each lines items ctx (some cols) p = split ctx.allow_tabular
    where
      split :
          (b : Bool)
          → Appends
              (image print_block (
                if b
                then table_block ctx.key
                    (length items)
                    (codes "]{")
                    ctx.item_depth
                    cols
                    (row_lines ops ctx.item_depth cols items)
                else list_block lines (length items) ctx))
              (if b
                then write_tabular_array ops items cols ctx
                else write_list each (length items) ctx)
      split true = write_tabular_array-Appends ops items cols ctx
      split false = write_list-Appends each lines (length items) ctx p

  -- Two conditionals with one test.
  split_on :
      (b : Bool) (o p : Option Block) (v w : Writer)
      → (b ≡ true → Appends (image print_block o) v)
      → (b ≡ false → Appends (image print_block p) w)
      → Appends (image print_block (if b then o else p)) (if b then v else w)
  split_on true o p v w f g = f refl
  split_on false o p v w f g = g refl

  pub write_array-Appends :
      (each : ℕ → Writer) (lines : ℕ → Option (List Line)) (items : List Value) (ctx : ArrayCtx)
      → ((depth : ℕ) → Appends (image print (lines depth)) (each depth))
      → Appends
          (image print_block (array_block ops lines items ctx))
          (write_array ops each items ctx)
  unfolding write_array array_block
  write_array-Appends each lines items ctx p =
      split_on (is_empty items) _ _ _ _ (λ _. write_empty_array-Appends ctx)
        (λ _.
          split_on (all_primitive items) _ _ _ _ (λ _. write_inline_array-Appends items ctx.key)
            (λ _. write_table_or_list-Appends each lines items ctx (tabular_fields items) p))
