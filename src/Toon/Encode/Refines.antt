-- ===== src/Toon/Encode/Refines.antt =====
-- internal/toon/encode.go: Encode writes the lines of the document.
use mini.Prelude.{
  ◌+◌, ◌≤◌, ◌≡◌, refl, Bool, true, false, [], ◌∷◌, Option, none, some, Bytes, codes, leb, length,
  is_empty, if-elim, if◌then◌else◌, ◌==◌, arith,
}
use mini.Toon.Value.{
  Value, Fields, Items, invalid, null, boolean, number, text, object, array, item_list, field_list,
}
use mini.Toon.Numbers.{FloatOps}
use mini.Toon.Columns.{Columns, keyed_tabular_cols}
use mini.Toon.Encode.{
  max_encode_bytes, max_encode_depth, too_large, too_deep, EncodeResult, ok, err, root_ctx,
  trim_newline, trimmed, encode_root_array, encode_root_object, encode_valid, encode,
  validate_depth, write_root, write_array, write_each_field, write_each_item,
}
use mini.Toon.Encode.Lines.{
  when, image, items_lines, print, root_object, root_array, root_text, document,
}
use mini.Toon.Encode.Appends.{Agrees, Appends, Appends-when, write_checked-Appends}
use mini.Toon.Encode.Rows.{encode_primitive-Agrees}
use mini.Toon.Encode.Arrays.{write_array-Appends}
use mini.Toon.Encode.Tables.{write_keyed_tabular-Appends}
use mini.Toon.Encode.Writers.{fields-Appends, items-Appends}

-- The answer is the document, within the limit; an error if there is none, and the one of the limit
-- if the document fills the limit or is longer.
abbrev pub Implements : Option Bytes → EncodeResult → Type 0
Implements none (ok s) = ⊥
Implements (some t) (ok s) = (s ≡ t) × (length s ≤ max_encode_bytes)
Implements none (err e) = Unit
Implements (some t) (err e) = (e ≡ too_large) × (max_encode_bytes ≤ length t)

length-trim_newline :
    (s : Bytes) → (length (trim_newline s) ≤ length s) × (length s ≤ length (trim_newline s) + 1)
unfolding trim_newline
length-trim_newline [] = (omega arith, omega arith)
length-trim_newline (c ∷ []) =
    if-elim (λ (s : Bytes). (length s ≤ 1) × (1 ≤ length s + 1)) (c == b'\n') _ _
      (λ _. (omega arith, omega arith)) (λ _. (omega arith, omega arith))
length-trim_newline (c ∷ d ∷ s) =
    let (l, r) = length-trim_newline (d ∷ s) in (omega arith, omega arith)

trimmed-Implements :
    (t : Option Bytes) (r : EncodeResult)
    → Agrees [] t r
    → Implements (image trim_newline t) (trimmed r)
trimmed-Implements none (ok s) h = absurd h
trimmed-Implements none (err e) h = tt
trimmed-Implements (some t) (ok s) (e, l) =
    let (m, n) = length-trim_newline s in (rw e refl, omega arith)
trimmed-Implements (some t) (err e) (f, l) = let (m, n) = length-trim_newline t in (f, omega arith)

untrimmed-Implements : (t : Option Bytes) (r : EncodeResult) → Agrees [] t r → Implements t r
untrimmed-Implements none (ok s) h = h
untrimmed-Implements none (err e) h = h
untrimmed-Implements (some t) (ok s) h = h
untrimmed-Implements (some t) (err e) (f, l) = (f, omega arith)

when-Implements :
    (b : Bool) (t : Option Bytes) (r : EncodeResult)
    → Implements t r
    → Implements (when b t) (if b then r else err too_deep)
when-Implements true t r h = h
when-Implements false t r h = tt

module _ {ℓ} {F : Type ℓ} (ops : FloatOps F) where
  write_root-Appends :
      (fs : Fields) (cols : Option Columns)
      → Appends (root_object ops fs cols) (write_root ops fs cols)
  write_root-Appends fs none =
      Appends-when (leb 0 max_encode_depth) _ print _
        (write_checked-Appends (write_each_field ops fs) 0 (fields-Appends ops fs 0))
  write_root-Appends fs (some cols) = write_keyed_tabular-Appends ops [] (field_list fs) cols 1

  root_array-Implements :
      (xs : Items) → Implements (root_text ops (array xs)) (encode_root_array ops xs)
  unfolding encode_root_array
  root_array-Implements xs = split (is_empty (item_list xs))
    where
      filled :
          Implements
            (image trim_newline (root_array ops xs))
            (trimmed (write_array ops (write_each_item ops xs) (item_list xs) root_ctx []))
      filled = trimmed-Implements (root_array ops xs) _ (
          (write_array-Appends ops (write_each_item ops xs) (items_lines ops xs) (item_list xs)
              root_ctx (λ d. items-Appends ops xs d)).agrees
            [] (omega arith))

      split :
          (b : Bool)
          → Implements (if b then some (codes "[]") else image trim_newline (root_array ops xs)) (
              if b
              then ok (codes "[]")
              else trimmed (write_array ops (write_each_item ops xs) (item_list xs) root_ctx []))
      split true = (refl, omega arith)
      split false = filled

  root-Implements : (v : Value) → Implements (root_text ops v) (encode_valid ops v)
  unfolding encode_root_object
  root-Implements (object fs) =
      trimmed-Implements (root_object ops fs (keyed_tabular_cols (object fs))) _
        ((write_root-Appends fs (keyed_tabular_cols (object fs))).agrees [] (omega arith))
  root-Implements (array xs) = root_array-Implements xs
  root-Implements invalid = untrimmed-Implements _ _ (encode_primitive-Agrees ops invalid)
  root-Implements null = untrimmed-Implements _ _ (encode_primitive-Agrees ops null)
  root-Implements (boolean b) = untrimmed-Implements _ _ (encode_primitive-Agrees ops (boolean b))
  root-Implements (number n) = untrimmed-Implements _ _ (encode_primitive-Agrees ops (number n))
  root-Implements (text s) = untrimmed-Implements _ _ (encode_primitive-Agrees ops (text s))

-- Encode refines the document as a list of indented lines, which has no buffer and no limit on
-- its length: if it gives a text, this is the document and has at most 4 MiB; if it fails, there
-- is no document, or the error is that of the limit and the document has at least 4 MiB.
pub encode-Implements :
    {F : Type 0} (ops : FloatOps F) (v : Value) → Implements (document ops v) (encode ops v)
unfolding encode document
encode-Implements ops v = when-Implements (validate_depth v 0) _ _ (root-Implements ops v)
