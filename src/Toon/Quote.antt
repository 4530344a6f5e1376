-- ===== src/Toon/Quote.antt =====
-- internal/toon/quote.go: which strings and keys are quoted, and how.
pub mod RoundTrip
pub mod Tokens
pub mod Numerals
pub mod Plain
use mini.Prelude.{
  ℕ, ◌+◌, ◌/◌, ◌%◌, Bool, true, false, not, ◌&&◌, ◌||◌, List, [], ◌∷◌, ◌++◌, Option, none, some,
  Bytes, codes, bytes_eq, has_prefix, ◌==◌, leb, ltb, all, any, if◌then◌else◌,
}
use mini.Utf8.{within, rune_error, runes, valid_string, encode_rune}
use mini.Json.{hex_digit}

unfoldable pub is_digit : ℕ → Bool
is_digit = within b'0' b'9'

-- \d*, and whether there was a digit.
unfoldable pub span_digits : Bytes → Bool × Bytes
span_digits [] = (false, [])
span_digits (c ∷ cs) =
    let rest = span_digits cs in if is_digit c then (true, rest.1) else (false, c ∷ cs)

abbrev optional_sign : Bytes → Bytes
optional_sign [] = []
optional_sign (c ∷ cs) = if c == b'+' || c == b'-' then cs else c ∷ cs

-- \d+ to the end, after a sign that may be missing.
abbrev digits_to_end : Bytes → Bool
digits_to_end s =
    let (some_digit, rest) = span_digits (optional_sign s) in some_digit && bytes_eq rest []

abbrev exponent_to_end : Bytes → Bool
exponent_to_end [] = true
exponent_to_end (c ∷ cs) = (c == b'e' || c == b'E') && digits_to_end cs

abbrev fraction_to_end : Bytes → Bool
fraction_to_end [] = true
fraction_to_end (c ∷ cs) =
    if c == b'.'
    then (let (some_digit, rest) = span_digits cs in some_digit && exponent_to_end rest)
    else exponent_to_end (c ∷ cs)

-- numericLikeRE: (?i)^[+-]?\d+(\.\d+)?(e[+-]?\d+)?$
unfoldable pub is_numeric_like : Bytes → Bool
is_numeric_like s =
    let (some_digit, rest) = span_digits (optional_sign s) in some_digit && fraction_to_end rest

abbrev pub is_letter : ℕ → Bool
is_letter c = within b'a' b'z' c || within b'A' b'Z' c

abbrev pub is_key_byte : ℕ → Bool
is_key_byte d = is_letter d || within b'0' b'9' d || d == b'_' || d == b'.'

-- unquotedKeyRE: ^[A-Za-z_][A-Za-z0-9_.]*$
unfoldable pub is_unquoted_key : Bytes → Bool
is_unquoted_key [] = false
is_unquoted_key (c ∷ cs) = (is_letter c || c == b'_') && all is_key_byte cs

-- structuralChars: the eight that always force quotes.
unfoldable pub is_structural : ℕ → Bool
is_structural c =
    c == b':'
    || c == b'"'
    || c == b'\\'
    || c == b'['
    || c == b']'
    || c == b'{'
    || c == b'}'
    || c == b','

unfoldable pub is_ascii_space : ℕ → Bool
is_ascii_space r = r == b' ' || r == b'\t' || r == b'\n' || r == b'\r' || r == 12 || r == 11

abbrev first_rune : List ℕ → ℕ
first_rune [] = rune_error
first_rune (r ∷ rs) = r

-- The last byte stands for utf8.DecodeLastRuneInString: only an ASCII rune matters to the test, and
-- that is the last byte itself.
abbrev last_byte : Bytes → ℕ
last_byte [] = rune_error
last_byte (c ∷ []) = c
last_byte (c ∷ d ∷ cs) = last_byte (d ∷ cs)

unfoldable pub has_leading_or_trailing_ascii_space : Bytes → Bool
has_leading_or_trailing_ascii_space s =
    is_ascii_space (first_rune (runes s)) || is_ascii_space (last_byte s)

unfoldable pub contains_control_char : Bytes → Bool
contains_control_char s = any (λ r. leb r 0x1F) (runes s)

unfoldable pub needs_quoting : Bytes → Bool
needs_quoting s =
    bytes_eq s []
    || has_leading_or_trailing_ascii_space s
    || (bytes_eq s (codes "true") || bytes_eq s (codes "false") || bytes_eq s (codes "null"))
    || is_numeric_like s
    || any is_structural s
    || contains_control_char s
    || has_prefix s (b'#' ∷ [])
    || has_prefix s (b'-' ∷ [])

unfoldable pub write_escaped : ℕ → Bytes
write_escaped r =
    if r == b'\\'
    then codes "\\\\"
    else if r == b'"'
    then codes "\\\""
    else if r == b'\n'
    then codes "\\n"
    else if r == b'\r'
    then codes "\\r"
    else if r == b'\t'
    then codes "\\t"
    else if leb r 0x1F
    then b'\\' ∷ b'u' ∷ b'0' ∷ b'0' ∷ hex_digit (r / 16) ∷ hex_digit (r % 16) ∷ []
    else encode_rune r

unfoldable pub escape_runes : List ℕ → Bytes
escape_runes [] = []
escape_runes (r ∷ rs) = write_escaped r ++ escape_runes rs

unfoldable pub quote_string : Bytes → Bytes
quote_string s = b'"' ∷ (escape_runes (runes s) ++ (b'"' ∷ []))

unfoldable pub encode_string : Bytes → Bytes
encode_string s = if needs_quoting s then quote_string s else s

unfoldable pub encode_key : Bytes → Bytes
encode_key key = if is_unquoted_key key then key else quote_string key
