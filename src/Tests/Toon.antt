-- ===== src/Tests/Toon.antt =====
-- internal/toon at concrete values.
use mini.Prelude.{◌≡◌, ◌⊎◌, Bytes, any, refl, codes, false, true, bytes_eq, has_prefix}
use mini.Utf8.{valid_after, decode_rune}
use mini.Toon.Quote.{encode_string, encode_key}
use mini.Toon.Quote.Plain.{IsToken, IsPlain, is_quoted, is_delimiter, encode_string-IsToken}
use mini.Toon.Numbers.{
  is_valid_json_number_lexeme, consume_json_integer, consume_digit_run, skip_run,
  normalize_out_of_range_lexeme, cut_e,
}

abbrev spoken : Bytes
spoken = codes "a \"b\"\n"

encode_string-IsToken_example :
    IsToken spoken (encode_string spoken)
    × ((is_quoted (encode_string spoken) ≡ true) ⊎ IsPlain (encode_string spoken))
    × IsToken spoken (encode_key spoken)
    × ((is_quoted (encode_key spoken) ≡ true) ⊎ (any is_delimiter (encode_key spoken) ≡ false))
unfolding valid_after decode_rune
encode_string-IsToken_example = encode_string-IsToken spoken refl

is_valid_json_number_lexeme_run :
    (is_valid_json_number_lexeme (codes "-0.50E+7") ≡ true)
    × (is_valid_json_number_lexeme (codes "1.e309") ≡ false)
    × (is_valid_json_number_lexeme (codes "01") ≡ false)
    × (normalize_out_of_range_lexeme (codes "1.5E999") ≡ codes "1.5e+999")
unfolding is_valid_json_number_lexeme consume_json_integer consume_digit_run skip_run bytes_eq
    normalize_out_of_range_lexeme cut_e has_prefix
is_valid_json_number_lexeme_run = (refl, refl, refl, refl)
