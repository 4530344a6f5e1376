-- ===== src/Tests/FromJson.antt =====
-- internal/toon/fromjson.go at concrete tokens.
use mini.Prelude.{◌≡◌, refl, ℕ, codes, List, [], ◌∷◌, true, false, bytes_eq, has_prefix}
use mini.Prelude.Map.{lookup, insert}
use mini.Toon.Value.{Value, null, boolean, text, object, array, no_fields, field, no_items, item}
use mini.Toon.Numbers.{
  FloatOps, malformed, canonicalize_number, canonical_integer, is_digits, trim_zeros,
}
use mini.Toon.FromJson.{
  Token, open_object, close_object, open_array, close_array, null_token, bool_token, number_token,
  string_token, ok, err, trailing_data, unexpected_delimiter, next_token, more, to_fields, to_items,
  value_from_token, decode_value, from_json,
}
use mini.Toon.FromJson.Shape.{IsRead, from_json-IsRead}
use mini.Toon.FromJson.RoundTrip.{value_tokens, IsJson, from_json-value_tokens}

abbrev no_floats : FloatOps ℕ
no_floats = record {
  parse_float = λ _. malformed;
  is_zero = λ _. false;
  is_plain = λ _. false;
  format_plain = λ _. [];
  format_exponent = λ _. [];
}

-- {"a": 01, "b": [true, null], "a": "x"}
abbrev repeated : List Token
repeated =
    open_object
    ∷ string_token (codes "a")
    ∷ number_token (codes "01")
    ∷ string_token (codes "b")
    ∷ open_array
    ∷ bool_token true
    ∷ null_token
    ∷ close_array
    ∷ string_token (codes "a")
    ∷ string_token (codes "x")
    ∷ close_object
    ∷ []

abbrev list : Value
list = array (item (boolean true) (item null no_items))

abbrev value : Value
value = object (field (codes "a") (text (codes "x")) (field (codes "b") list no_fields))

from_json_runs :
    (from_json no_floats repeated ≡ ok value [])
    × (from_json no_floats (null_token ∷ null_token ∷ []) ≡ err trailing_data)
    × (from_json no_floats (close_array ∷ []) ≡ err unexpected_delimiter)
unfolding from_json decode_value value_from_token next_token more to_fields to_items insert
    canonicalize_number canonical_integer is_digits trim_zeros bytes_eq has_prefix
from_json_runs = (refl, refl, refl)

from_json-IsRead_example : IsRead no_floats (from_json no_floats repeated)
from_json-IsRead_example = from_json-IsRead no_floats repeated

from_json-value_tokens_example : from_json no_floats (value_tokens value []) ≡ ok value []
unfolding IsJson lookup bytes_eq
from_json-value_tokens_example =
    from_json-value_tokens no_floats value ((refl, (refl, tt)), (tt, ((tt, (tt, tt)), tt)))
