-- ===== src/Toon/Encode/Tables.antt =====
-- internal/toon/array.go and keyed.go: the writers of tables write the lines of the document.
use mini.Prelude.{
  ℕ, ◌≡◌, refl, sym, ap, Bool, true, false, List, [], ◌∷◌, ◌++◌, append_assoc, append-nil, ◌∙◌,
  if◌then◌else◌, Option, Bytes, codes, leb, length, length-append, arith,
}
use mini.Utf8.{valid_string}
use mini.Toon.Value.{Value}
use mini.Toon.Quote.{encode_key}
use mini.Toon.Numbers.{FloatOps}
use mini.Toon.Columns.{Columns, no_columns, column, field_index, leaf_values}
use mini.Toon.Encode.{
  max_encode_depth, ArrayCtx, Writer, append_string, separator, braces, write_col_headers_from,
  write_col_headers, count_header, check_depth, write_tabular_header, write_keyed_header, indent,
  write_tabular_array, write_keyed_entry, write_entries, write_keyed_tabular, ◌>>◌,
}
use mini.Toon.Encode.Lines.{
  image, label, labels, texts, comma_separated, with_commas, row_lines, entry_text, entry_lines,
  table_block, print, print_block, Line,
}
use mini.Toon.Encode.Appends.{
  Appends, >>-Appends, >>-after, >>-before, >>-both, done-Appends, append_string-Appends,
  with_text-image, validate_utf8-Appends, check_depth-Appends, Appends-image, Appends-when,
  Appends-both,
}
use mini.Toon.Encode.Rows.{join_primitives-Agrees, line-append, write_rows-Appends, joined_from}

-- What stands behind the key of a column.
abbrev below_text : Columns → List Bytes → Bytes
below_text no_columns below = []
below_text (column _ _ _) below = codes "{" ++ (comma_separated below ++ codes "}")

label-below :
    (key : Bytes) (children : Columns) (below : List Bytes)
    → label key children below ≡ encode_key key ++ below_text children below
label-below key no_columns below = sym (append-nil (encode_key key))
label-below key (column _ _ _) below = simp append_assoc

abbrev comma : Bool → Bytes
comma is_first = if is_first then [] else codes ","

separator-Appends :
    {A : Type 0} (is_first : Bool) (o : Option A) (g : A → Bytes) (w : Writer)
    → Appends (image g o) w
    → Appends (image (λ a. comma is_first ++ g a) o) (separator is_first >> w)
separator-Appends true o g w p = p
separator-Appends false o g w p = >>-after o g (codes ",") w p

-- The text from the key of a column on.
abbrev from_key : Bytes → Columns → List Bytes × List Bytes → Bytes
from_key key children (below, ss) = encode_key key ++ (below_text children below ++ with_commas ss)

from_key-joined :
    (is_first : Bool) (key : Bytes) (children : Columns) (below ss : List Bytes)
    → joined_from is_first (label key children below ∷ ss)
      ≡ comma is_first ++ from_key key children (below, ss)
unfolding with_commas
from_key-joined true key children below ss =
    ap (λ r. r ++ with_commas ss) (label-below key children below) ∙ simp append_assoc
from_key-joined false key children below ss =
    ap (λ r. b',' ∷ r ++ with_commas ss) (label-below key children below) ∙ simp append_assoc

braces-Appends :
    (children : Columns)
    → Appends (image comma_separated (labels children)) (write_col_headers children)
    → Appends
        (image (below_text children) (labels children))
        (braces children (write_col_headers children))
unfolding labels
braces-Appends no_columns p = done-Appends
braces-Appends (column key children rest) p =
    >>-after _ _ (codes "{") _ (>>-before _ comma_separated (codes "}") _ p)

write_col_headers_from-Appends :
    (is_first : Bool) (cols : Columns)
    → Appends (image (joined_from is_first) (labels cols)) (write_col_headers_from is_first cols)
unfolding write_col_headers_from labels with_commas
write_col_headers_from-Appends true no_columns = done-Appends
write_col_headers_from-Appends false no_columns = done-Appends
write_col_headers_from-Appends is_first (column key children rest) =
    let p = labels children in
    let q = labels rest in
    Appends-both (valid_string key) p q (λ x. comma is_first ++ from_key key children x) _
      (joined_from is_first) (from_key-joined is_first key children) _
      (separator-Appends is_first _ (from_key key children) _ (
        Appends-when (valid_string key) _ _ _ (
          validate_utf8-Appends key _ (
            >>-after _ _ (encode_key key) _ (
              >>-both p q (below_text children) with_commas _ _ (λ x y. refl) _ _
                (braces-Appends children (write_col_headers_from-Appends true children))
                (write_col_headers_from-Appends false rest))))))

write_header-Appends :
    (key mark : Bytes) (count : ℕ) (cols : Columns)
    → Appends
        (image
          (λ ss. key ++ (count_header count mark ++ (comma_separated ss ++ codes "}:\n")))
          (labels cols))
        (append_string key
          >> append_string (count_header count mark)
          >> write_col_headers cols
          >> append_string (codes "}:\n"))
write_header-Appends key mark count cols = >>-after _ _ key _ (
    >>-after _ _ (count_header count mark) _
      (>>-before _ comma_separated (codes "}:\n") _ (write_col_headers_from-Appends true cols)))

-- A header with the lines below it.
pub table-Appends :
    (key mark : Bytes) (count depth : ℕ) (cols : Columns) (lines : Option (List Line))
    (header rows : Writer)
    → Appends
        (image
          (λ ss. key ++ (count_header count mark ++ (comma_separated ss ++ codes "}:\n")))
          (labels cols))
        header
    → Appends (image print lines) rows
    → Appends
        (image print_block (table_block key count mark depth cols lines))
        (check_depth depth >> header >> rows)
table-Appends key mark count depth cols lines header rows p q =
    Appends-when (leb depth max_encode_depth) _ print_block _ (
      check_depth-Appends depth (header >> rows) (
        >>-both (labels cols) lines _ print _ print_block (λ ss ls. simp append_assoc) header rows p
          q))

module _ {ℓ} {F : Type ℓ} (ops : FloatOps F) where
  pub write_tabular_array-Appends :
      (items : List Value) (cols : Columns) (ctx : ArrayCtx)
      → Appends
          (image print_block (
            table_block ctx.key
              (length items)
              (codes "]{")
              ctx.item_depth
              cols
              (row_lines ops ctx.item_depth cols items)))
          (write_tabular_array ops items cols ctx)
  unfolding write_tabular_array write_tabular_header
  write_tabular_array-Appends items cols ctx =
      table-Appends ctx.key (codes "]{") (length items) ctx.item_depth cols _ _ _
        (write_header-Appends ctx.key (codes "]{") (length items) cols)
        (write_rows-Appends ops ctx.item_depth cols items)

  write_keyed_entry-Appends :
      (prefix : Bytes) (cols : Columns) (key : Bytes) (v : Value)
      → Appends
          (image (λ s. prefix ++ (s ++ codes "\n")) (entry_text ops cols key v))
          (write_keyed_entry ops prefix cols key v)
  unfolding write_keyed_entry
  write_keyed_entry-Appends prefix cols key v =
      let cells = texts ops (leaf_values (field_index v) cols) in
      let label = encode_key key ++ codes ": " in
      Appends-when (valid_string key) _ _ _ (
        validate_utf8-Appends key _ (
          Appends-image cells (λ ss. prefix ++ (label ++ (comma_separated ss ++ codes "\n"))) _
            (λ s. prefix ++ (s ++ codes "\n")) (λ ss. simp append_assoc) _
            (with_text-image cells comma_separated _ _
              (λ row. prefix ++ (label ++ (row ++ codes "\n")))
              (join_primitives-Agrees ops (leaf_values (field_index v) cols))
              (λ row. >>-Appends _ _ (append_string-Appends prefix) (
                >>-Appends _ _ (append_string-Appends label)
                  (append_string-Appends (row ++ codes "\n"))))
              (λ row. omega (
                arith,
                length-append prefix (label ++ (row ++ codes "\n")),
                length-append label (row ++ codes "\n"),
                length-append row (codes "\n"),
              )))))

  write_entries-Appends :
      (depth : ℕ) (cols : Columns) (fs : List (Bytes × Value))
      → Appends
          (image print (entry_lines ops depth cols fs))
          (write_entries ops (indent depth) cols fs)
  unfolding write_entries entry_lines print
  write_entries-Appends depth cols [] = done-Appends
  write_entries-Appends depth cols ((k, v) ∷ fs) =
      >>-both (entry_text ops cols k v) (entry_lines ops depth cols fs) _ print _ print
        (λ s ls. line-append (indent depth) s (print ls)) _ _
        (write_keyed_entry-Appends (indent depth) cols k v) (write_entries-Appends depth cols fs)

  pub write_keyed_tabular-Appends :
      (key : Bytes) (fs : List (Bytes × Value)) (cols : Columns) (depth : ℕ)
      → Appends
          (image print_block
            (table_block key (length fs) (codes ":]{") depth cols (entry_lines ops depth cols fs)))
          (write_keyed_tabular ops key fs cols depth)
  unfolding write_keyed_tabular write_keyed_header
  write_keyed_tabular-Appends key fs cols depth =
      table-Appends key (codes ":]{") (length fs) depth cols _ _ _
        (write_header-Appends key (codes ":]{") (length fs) cols)
        (write_entries-Appends depth cols fs)
