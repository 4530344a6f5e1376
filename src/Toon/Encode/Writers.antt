-- ===== src/Toon/Encode/Writers.antt =====
-- internal/toon/encode.go, array.go and keyed.go: the writers of fields and of list items write the
-- lines of the document.
use mini.Prelude.{
  ℕ, ◌+◌, ◌≡◌, refl, sym, ap, subst, true, List, [], ◌∷◌, ◌++◌, append_assoc, append-nil, ◌∙◌,
  Option, none, some, Bytes, codes, leb, length-append, arith,
}
use mini.Utf8.{valid_string}
use mini.Toon.Value.{
  Value, Fields, Items, invalid, null, boolean, number, text, object, array, no_fields, field,
  no_items, item, field_list, item_list,
}
use mini.Toon.Quote.{encode_key}
use mini.Toon.Numbers.{FloatOps}
use mini.Toon.Columns.{Columns, keyed_tabular_cols}
use mini.Toon.Encode.{
  max_encode_depth, EncodeResult, ok, Writer, append_string, validate_utf8, write_primitive_value,
  write_primitive_list_item, indent, write_object_field, write_field_body, write_each_field,
  write_object_list_item, write_list_item, write_each_item, field_ctx, list_item_ctx, ◌>>◌,
  encode_primitive,
}
use mini.Toon.Encode.Lines.{
  when, image, combined, primitive_text, object_block, field_block, fields_lines, object_item_lines,
  item_line, item_lines, items_lines, block_at, print, print_block, Line, Block, within_depth,
}
use mini.Toon.Encode.Appends.{
  Agrees, Appends, >>-Appends, >>-after, >>-both, done-Appends, append_string-Appends,
  with_text-image, validate_utf8-Appends, Appends-image, Appends-when, Appends-both,
  write_checked-Appends,
}
use mini.Toon.Encode.Rows.{encode_primitive-Agrees}
use mini.Toon.Encode.Arrays.{write_array-Appends}
use mini.Toon.Encode.Tables.{write_keyed_tabular-Appends}

print-append : (ls ms : List Line) → print (ls ++ ms) ≡ print ls ++ print ms
unfolding print
print-append [] ms = refl
print-append ((depth, s) ∷ ls) ms =
    ap (λ r. indent depth ++ s ++ b'\n' ∷ r) (print-append ls ms) ∙ simp append_assoc

same : (o : Option Bytes) (r : EncodeResult) → Agrees [] o r → Agrees [] (image (λ s. s) o) r
same none r h = h
same (some s) r h = h

nothing-Appends : Appends (some (print [])) (λ sb. ok sb)
unfolding print
nothing-Appends = done-Appends

hyphen-Appends :
    (depth : ℕ)
    → Appends (some (print ((depth, codes "-") ∷ []))) (append_string (indent depth ++ codes "-\n"))
unfolding print
hyphen-Appends depth =
    subst (λ (s : Bytes). Appends (some s) (append_string (indent depth ++ codes "-\n")))
      (sym (append_assoc (indent depth) (codes "-") (codes "\n")))
      (append_string-Appends (indent depth ++ codes "-\n"))

array_item-Appends :
    (depth : ℕ) (p : Option Block) (w : Writer)
    → Appends (image print_block p) w
    → Appends
        (image print (image (block_at depth (codes "- ")) p))
        (append_string (indent depth ++ codes "- ") >> w)
unfolding print
array_item-Appends depth p w a =
    Appends-image p (λ b. (indent depth ++ codes "- ") ++ print_block b) _ print
      (λ b. simp append_assoc) _ (>>-after p print_block (indent depth ++ codes "- ") w a)

module _ {ℓ} {F : Type ℓ} (ops : FloatOps F) where
  field_primitive-Appends :
      (k : Bytes) (v : Value)
      → Appends
          (image print_block (
            when
              (valid_string k)
              (image (λ s. (encode_key k ++ codes ": " ++ s, [])) (primitive_text ops v))))
          (validate_utf8 k
            >> append_string (encode_key k)
            >> append_string (codes ":")
            >> write_primitive_value ops v)
  unfolding write_primitive_value print
  field_primitive-Appends k v =
      let o = primitive_text ops v in
      Appends-when (valid_string k) _ print_block _ (
        validate_utf8-Appends k _ (
          Appends-image o (λ s. encode_key k ++ (codes ":" ++ (codes " " ++ (s ++ codes "\n")))) _
            print_block (λ s. simp append_assoc) _
            (>>-after o _ (encode_key k) _ (>>-after o _ (codes ":") _ (value-Appends o)))))
    where
      value-Appends :
          (o : Option Bytes)
          → Appends
              (image (λ s. codes " " ++ (s ++ codes "\n")) (primitive_text ops v))
              (write_primitive_value ops v)
      value-Appends o =
          with_text-image (primitive_text ops v) (λ s. s) _ _ (λ s. codes " " ++ (s ++ codes "\n"))
            (same (primitive_text ops v) (encode_primitive ops v) (encode_primitive-Agrees ops v))
            (λ s.
              >>-Appends _ _ (append_string-Appends (codes " "))
                (>>-Appends _ _ (append_string-Appends s) (append_string-Appends (codes "\n"))))
            (λ s. omega (arith, length-append s (codes "\n")))

  list_primitive-Appends :
      (v : Value) (depth : ℕ)
      → Appends (image print (item_line ops depth v)) (write_primitive_list_item ops v depth)
  unfolding write_primitive_list_item print
  list_primitive-Appends v depth =
      let o = primitive_text ops v in
      Appends-image o (λ s. indent depth ++ codes "- " ++ s ++ codes "\n") _ print
        (λ s. simp append_assoc) _
        (with_text-image o (λ s. s) _ _ (λ s. indent depth ++ codes "- " ++ s ++ codes "\n")
          (same o (encode_primitive ops v) (encode_primitive-Agrees ops v))
          (λ s. append_string-Appends (indent depth ++ codes "- " ++ s ++ codes "\n"))
          (λ s. omega (
            arith,
            length-append (indent depth ++ codes "- " ++ s) (codes "\n"),
            length-append (indent depth ++ codes "- ") s,
          )))

  object_field-Appends :
      (k : Bytes) (fs : Fields) (depth : ℕ) (cols : Option Columns) (each : ℕ → Writer)
      (lines : ℕ → Option (List Line))
      → ((d : ℕ) → Appends (image print (lines d)) (each d))
      → Appends
          (image print_block (object_block ops k fs depth cols lines))
          (write_object_field ops k fs depth cols each)
  object_field-Appends k fs depth (some cols) each lines p =
      write_keyed_tabular-Appends ops (encode_key k) (field_list fs) cols (depth + 1)
  object_field-Appends k fs depth none each lines p =
      let o = within_depth (depth + 1) (lines (depth + 1)) in
      Appends-image o (λ ls. encode_key k ++ (codes ":" ++ (codes "\n" ++ print ls))) _ print_block
        (λ ls. simp append_assoc) _
        (>>-after o _ (encode_key k) _ (
          >>-after o _ (codes ":") _ (
            >>-after o print (codes "\n") _ (
              Appends-when (leb (depth + 1) max_encode_depth) _ print _
                (write_checked-Appends each (depth + 1) (p (depth + 1)))))))

  block-Appends :
      (depth : ℕ) (prefix start : Bytes) (p : Option Block) (q : Option (List Line)) (v w : Writer)
      → start ≡ indent depth ++ prefix
      → Appends (image print_block p) v
      → Appends (image print q) w
      → Appends
          (image print (combined (λ b ls. block_at depth prefix b ++ ls) p q))
          (append_string start >> v >> w)
  unfolding print
  block-Appends depth prefix start p q v w e a b =
      Appends-both true p q (λ x. start ++ (print_block x.0 ++ print x.1)) _ print
        (λ x ls.
          ap (λ r. indent depth ++ (prefix ++ x.0) ++ b'\n' ∷ r) (print-append x.1 ls)
          ∙ (rw e (simp append_assoc)))
        _
        (>>-after _ (λ x. print_block x.0 ++ print x.1) start _
          (>>-both p q print_block print _ (λ x. print_block x.0 ++ print x.1) (λ x y. refl) v w a
            b))

  mutual
    unfolding write_field_body field_block

    field-Appends :
        (k : Bytes) (v : Value) (depth : ℕ)
        → Appends (image print_block (field_block ops k v depth)) (write_field_body ops k v depth)
    field-Appends k (array xs) depth = Appends-when (valid_string k) _ print_block _ (
        validate_utf8-Appends k _ (
          write_array-Appends ops _ (items_lines ops xs) (item_list xs) (field_ctx k depth)
            (λ d. items-Appends xs d)))
    field-Appends k (object fs) depth = Appends-when (valid_string k) _ print_block _ (
        validate_utf8-Appends k _ (
          object_field-Appends k fs depth (keyed_tabular_cols (object fs)) _ (fields_lines ops fs)
            (λ d. fields-Appends fs d)))
    field-Appends k invalid depth = field_primitive-Appends k invalid
    field-Appends k null depth = field_primitive-Appends k null
    field-Appends k (boolean b) depth = field_primitive-Appends k (boolean b)
    field-Appends k (number n) depth = field_primitive-Appends k (number n)
    field-Appends k (text s) depth = field_primitive-Appends k (text s)

    pub fields-Appends :
        (fs : Fields) (depth : ℕ)
        → Appends (image print (fields_lines ops fs depth)) (write_each_field ops fs depth)
    fields-Appends no_fields depth = nothing-Appends
    fields-Appends (field k v fs) depth =
        block-Appends depth [] (indent depth) (field_block ops k v depth) _ _ _
          (sym (append-nil (indent depth))) (field-Appends k v depth) (fields-Appends fs depth)

    object_item-Appends :
        (fs : Fields) (depth : ℕ)
        → Appends
            (image print (object_item_lines ops fs depth))
            (write_object_list_item ops fs depth)
    object_item-Appends no_fields depth = hyphen-Appends depth
    object_item-Appends (field k v fs) depth =
        block-Appends depth (codes "- ") _ (field_block ops k v (depth + 1)) _ _ _ refl
          (field-Appends k v (depth + 1))
          (Appends-when (leb (depth + 1) max_encode_depth) _ print _ (
            write_checked-Appends (write_each_field ops fs) (depth + 1)
              (fields-Appends fs (depth + 1))))

    item-Appends :
        (v : Value) (depth : ℕ)
        → Appends (image print (item_lines ops v depth)) (write_list_item ops v depth)
    item-Appends (object fs) depth = object_item-Appends fs depth
    item-Appends (array xs) depth = array_item-Appends depth _ _ (
        write_array-Appends ops _ (items_lines ops xs) (item_list xs) (list_item_ctx depth)
          (λ d. items-Appends xs d))
    item-Appends invalid depth = list_primitive-Appends invalid depth
    item-Appends null depth = list_primitive-Appends null depth
    item-Appends (boolean b) depth = list_primitive-Appends (boolean b) depth
    item-Appends (number n) depth = list_primitive-Appends (number n) depth
    item-Appends (text s) depth = list_primitive-Appends (text s) depth

    pub items-Appends :
        (xs : Items) (depth : ℕ)
        → Appends (image print (items_lines ops xs depth)) (write_each_item ops xs depth)
    items-Appends no_items depth = nothing-Appends
    items-Appends (item v xs) depth =
        >>-both (item_lines ops v depth) (items_lines ops xs depth) print print _ print
          (λ ls ms. print-append ls ms) _ _ (item-Appends v depth) (items-Appends xs depth)
