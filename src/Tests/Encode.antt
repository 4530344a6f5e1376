-- ===== src/Tests/Encode.antt =====
-- internal/toon: Encode at concrete values.
use mini.Prelude.{
  ◌≡◌, ◌<◌, length, refl, ℕ, Bytes, codes, [], true, false, some, contains, bytes_eq, has_prefix,
  arith,
}
use mini.Prelude.Map.{insert, lookup}
use mini.Prelude.Decimal.{decimal, digits}
use mini.Utf8.{valid_after, decode_rune, encode_rune, runes_after}
use mini.Toon.Value.{
  Value, Items, null, boolean, number, text, object, array, no_fields, field, no_items, item,
}
use mini.Toon.Quote.{
  encode_key, is_unquoted_key, contains_control_char, encode_string, escape_runes,
  has_leading_or_trailing_ascii_space, is_ascii_space, is_digit, is_numeric_like, is_structural,
  needs_quoting, quote_string, span_digits, write_escaped,
}
use mini.Toon.Numbers.{
  FloatOps, malformed, canonical_integer, canonicalize_number, is_digits, trim_zeros,
}
use mini.Toon.Columns.{
  Columns, no_columns, column, keyed_tabular_cols_on, shared_entries, classify_column,
  classify_columns, deepest, index_from, is_primitive, keys_match, leaf_values, nesting,
  no_dup_keys, tabular_fields_on, value_at,
}
use mini.Toon.Encode.{
  max_encode_bytes, ok, encode, validate_depth, encode_root_object, write_checked, check_depth,
  check_length, write_each_field, append_string, indent, validate_utf8, write_primitive_value,
  encode_primitive, encode_root_array, encode_text, join_from, trim_newline, write_array,
  write_col_headers_from, write_each_item, write_empty_array, write_inline_array,
  write_primitive_list_item, write_rows, write_tabular_array, write_tabular_header,
  write_tabular_row,
}
use mini.Toon.Encode.Lines.{document}
use mini.Toon.Encode.Encodable.{is_encodable}
use mini.Toon.Encode.Accepts.{encode-accepts}
use mini.Toon.Encode.Refines.{Implements, encode-Implements}

-- No number of the samples has a fraction, so no float is read.
abbrev no_floats : FloatOps ℕ
no_floats = record {
  parse_float = λ _. malformed;
  is_zero = λ _. false;
  is_plain = λ _. false;
  format_plain = λ _. [];
  format_exponent = λ _. [];
}

abbrev one : Value
one = number (codes "1")

-- The second row has its keys in another order.
abbrev rows : Items
rows = item (object (field (codes "x") one (field (codes "y") (text (codes "b")) no_fields))) (
    item (object (field (codes "y") (text (codes "c: d")) (field (codes "x") null no_fields)))
      no_items)

abbrev mixed : Items
mixed = item one (
    item
      (object (
        field (codes "k") (array (item one (item null no_items)))
          (field (codes "z") (boolean true) no_fields)))
      (item (array no_items) no_items))

abbrev sample : Value
sample = object (
    field (codes "id") one (
      field (codes "t") (array rows) (
        field (codes "m") (array mixed)
          (field (codes "o") (object (field (codes "p q") null no_fields)) no_fields))))

abbrev encoded : Bytes
encoded =
    codes
      "id: 1\nt[2]{x,y}:\n  1,b\n  null,\"c: d\"\nm[3]:\n  - 1\n  - k[2]: 1,null\n    z: true\n  - [0]:\no:\n  \"p q\": null"

encode_run : encode no_floats sample ≡ ok encoded
unfolding encode validate_depth encode_root_object write_checked check_depth check_length
    write_each_field append_string indent validate_utf8 write_primitive_value encode_primitive
    encode_root_array encode_text join_from trim_newline write_array write_col_headers_from
    write_each_item write_empty_array write_inline_array write_primitive_list_item write_rows
    write_tabular_array write_tabular_header write_tabular_row keyed_tabular_cols_on shared_entries
    classify_column classify_columns deepest index_from is_primitive keys_match leaf_values nesting
    no_dup_keys tabular_fields_on value_at encode_key is_unquoted_key contains_control_char
    encode_string escape_runes has_leading_or_trailing_ascii_space is_ascii_space is_digit
    is_numeric_like is_structural needs_quoting quote_string span_digits write_escaped
    canonical_integer canonicalize_number is_digits trim_zeros valid_after decode_rune encode_rune
    runes_after bytes_eq contains has_prefix decimal digits insert lookup
encode_run = refl

abbrev header : Columns
header = column (codes "x") no_columns (column (codes "y") no_columns no_columns)

encode-Implements_example : Implements (document no_floats sample) (encode no_floats sample)
encode-Implements_example = encode-Implements no_floats sample

encode-accepts_example :
    (s : Bytes) × (document no_floats sample ≡ some s)
    × (length s < max_encode_bytes → encode no_floats sample ≡ ok s)
unfolding is_encodable nesting valid_after decode_rune canonicalize_number canonical_integer
    is_digits bytes_eq
encode-accepts_example = encode-accepts no_floats sample refl (omega arith)
