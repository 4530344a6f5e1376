-- ===== src/Toon/Encode/Rows.antt =====
-- internal/toon/encode.go, array.go and keyed.go: the writers of rows and headers write the lines of
-- the document.
use mini.Prelude.{
  ℕ, ◌≡◌, refl, subst, Bool, true, false, List, [], ◌∷◌, ◌++◌, append_assoc, Option, none, some,
  Bytes, codes, length, length-append, ltb, if-elim, if◌then◌else◌, arith,
}
use mini.Utf8.{valid_string}
use mini.Toon.Value.{Value, invalid, null, boolean, number, text, object, array}
use mini.Toon.Quote.{encode_string}
use mini.Toon.Numbers.{FloatOps, encode_num}
use mini.Toon.Columns.{Columns, field_index, leaf_values}
use mini.Toon.Encode.{
  max_encode_bytes, Writer, ok, err, invalid_utf8, bounded, encode_number, encode_bool, encode_text,
  encode_primitive, append_string, separator, join_from, join_primitives, indent, ◌>>◌,
  write_tabular_row, write_rows,
}
use mini.Toon.Encode.Lines.{
  when, image, combined, primitive_text, texts, comma_separated, with_commas, row_lines, print,
}
use mini.Toon.Encode.Appends.{
  Agrees, Appends, >>-Appends, >>-after, >>-both, done-Appends, append_string-Appends, made,
  AtLeast, with_text-Appends, with_text-image,
}

-- A line in front of others.
pub line-append : (a b c : Bytes) → a ++ b ++ b'\n' ∷ c ≡ (a ++ (b ++ codes "\n")) ++ c
line-append a b c = simp append_assoc

bounded-Agrees : (s : Bytes) → Agrees [] (some s) (bounded s)
bounded-Agrees s =
    if-elim (Agrees [] (some s)) (ltb max_encode_bytes (length s)) _ _
      (λ e. (refl, ground (arith, e))) (λ e. (refl, ground (arith, e)))

encode_number-Agrees : (o : Option Bytes) → Agrees [] o (encode_number o)
encode_number-Agrees none = tt
encode_number-Agrees (some s) = bounded-Agrees s

encode_text-Agrees :
    (s : Bytes) → Agrees [] (when (valid_string s) (some (encode_string s))) (encode_text s)
unfolding encode_text
encode_text-Agrees s = split (valid_string s)
  where
    split :
        (b : Bool)
        → Agrees []
            (when b (some (encode_string s)))
            (if b then bounded (encode_string s) else err invalid_utf8)
    split true = bounded-Agrees (encode_string s)
    split false = tt

encode_bool-Agrees : (b : Bool) → Agrees [] (some (encode_bool b)) (ok (encode_bool b))
encode_bool-Agrees true = (refl, omega arith)
encode_bool-Agrees false = (refl, omega arith)

abbrev pub joined_from : Bool → List Bytes → Bytes
joined_from true ss = comma_separated ss
joined_from false ss = with_commas ss

abbrev joined_after : Bool → Bytes → List Bytes → Bytes
joined_after is_first s ss = joined_from is_first (s ∷ ss)

module _ {ℓ} {F : Type ℓ} (ops : FloatOps F) where
  pub encode_primitive-Agrees :
      (v : Value) → Agrees [] (primitive_text ops v) (encode_primitive ops v)
  unfolding encode_primitive primitive_text
  encode_primitive-Agrees invalid = tt
  encode_primitive-Agrees null = (refl, omega arith)
  encode_primitive-Agrees (boolean b) = encode_bool-Agrees b
  encode_primitive-Agrees (number n) = encode_number-Agrees (encode_num ops n)
  encode_primitive-Agrees (text s) = encode_text-Agrees s
  encode_primitive-Agrees (object fs) = tt
  encode_primitive-Agrees (array xs) = tt

  longer :
      (is_first : Bool) (s : Bytes) (o : Option (List Bytes))
      → AtLeast (length s) (image (joined_after is_first s) o)
  unfolding with_commas
  longer is_first s none = tt
  longer true s (some ss) = omega (arith, length-append s (with_commas ss))
  longer false s (some ss) = omega (arith, length-append s (with_commas ss))

  separator-Appends :
      (is_first : Bool) (s : Bytes) (o : Option (List Bytes)) (w : Writer)
      → Appends (image with_commas o) w
      → Appends (image (joined_after is_first s) o) (separator is_first >> append_string s >> w)
  unfolding with_commas
  separator-Appends true s o w p = >>-after o with_commas s w p
  separator-Appends false s o w p =
      >>-after o (λ ss. s ++ with_commas ss) (codes ",") _ (>>-after o with_commas s w p)

  join_from-Appends :
      (is_first : Bool) (vs : List Value)
      → Appends (image (joined_from is_first) (texts ops vs)) (join_from ops is_first vs)
  unfolding join_from texts with_commas
  join_from-Appends true [] = done-Appends
  join_from-Appends false [] = done-Appends
  join_from-Appends is_first (v ∷ vs) =
      let q = texts ops vs in
      subst (λ (t : Option Bytes). Appends t (join_from ops is_first (v ∷ vs)))
        (same (primitive_text ops v) q)
        (with_text-Appends (primitive_text ops v) (encode_primitive ops v) _
          (λ s. image (joined_after is_first s) q) (encode_primitive-Agrees v)
          (λ s. separator-Appends is_first s q _ (join_from-Appends false vs))
          (λ s. longer is_first s q))
    where
      same :
          (p : Option Bytes) (q : Option (List Bytes))
          → made (λ s. image (joined_after is_first s) q) p
            ≡ image (joined_from is_first) (combined (λ s ss. s ∷ ss) p q)
      same none q = refl
      same (some s) none = refl
      same (some s) (some ss) = refl

  pub join_primitives-Agrees :
      (vs : List Value) → Agrees [] (image comma_separated (texts ops vs)) (join_primitives ops vs)
  join_primitives-Agrees vs = (join_from-Appends true vs).agrees [] (omega arith)

  -- A line of cells with a prefix.
  pub write_tabular_row-Appends :
      (prefix : Bytes) (vs : List Value)
      → Appends
          (image (λ ss. prefix ++ (comma_separated ss ++ codes "\n")) (texts ops vs))
          (write_tabular_row ops prefix vs)
  unfolding write_tabular_row
  write_tabular_row-Appends prefix vs =
      with_text-image (texts ops vs) comma_separated _ _ (λ row. prefix ++ (row ++ codes "\n"))
        (join_primitives-Agrees vs)
        (λ row.
          >>-Appends _ _ (append_string-Appends prefix)
            (>>-Appends _ _ (append_string-Appends row) (append_string-Appends (codes "\n"))))
        (λ row.
          omega (arith, length-append prefix (row ++ codes "\n"), length-append row (codes "\n")))

  pub write_rows-Appends :
      (depth : ℕ) (cols : Columns) (items : List Value)
      → Appends
          (image print (row_lines ops depth cols items))
          (write_rows ops (indent depth) cols items)
  unfolding write_rows row_lines print
  write_rows-Appends depth cols [] = done-Appends
  write_rows-Appends depth cols (v ∷ items) =
      let cells = leaf_values (field_index v) cols in
      >>-both (texts ops cells) (row_lines ops depth cols items) _ print _ print
        (λ ss ls. line-append (indent depth) (comma_separated ss) (print ls)) _ _
        (write_tabular_row-Appends (indent depth) cells) (write_rows-Appends depth cols items)
