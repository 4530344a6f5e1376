-- ===== src/Toon/Numbers.antt =====
-- internal/toon/numbers.go: canonical numbers. float64 and its strconv functions are a parameter.
pub mod Integers
use mini.Prelude.{
  ℕ, ◌+◌, Bool, true, false, not, ◌&&◌, ◌||◌, List, [], ◌∷◌, ◌++◌, Option, none, some, Bytes, codes,
  bytes_eq, has_prefix, ◌==◌, all, any, if◌then◌else◌,
}
use mini.Utf8.{within}

-- What strconv.ParseFloat answers: a number, an infinity with ErrRange, or another error.
pub data ParsedFloat {ℓ} (F : Type ℓ) : Type ℓ where
  parsed : F → ParsedFloat F
  infinite malformed : ParsedFloat F

pub record FloatOps {ℓ} (F : Type ℓ) : Type ℓ where
  pub parse_float : Bytes → ParsedFloat F
  pub is_zero : F → Bool
  -- abs >= 1e-6 && abs < 1e21
  pub is_plain : F → Bool
  -- strconv.FormatFloat with 'f' and with 'e', of the shortest precision.
  pub format_plain : F → Bytes
  pub format_exponent : F → Bytes

unfoldable pub is_digits : Bytes → Bool
is_digits s = all (within b'0' b'9') s

abbrev trim_minus : Bytes → Bytes
trim_minus [] = []
trim_minus (c ∷ cs) = if c == b'-' then cs else c ∷ cs

-- strings.TrimLeft(digits, "0")
unfoldable pub trim_zeros : Bytes → Bytes
trim_zeros [] = []
trim_zeros (c ∷ cs) = let rest = trim_zeros cs in if c == b'0' then rest else c ∷ cs

abbrev signed : Bool → Bytes → Bytes
signed neg [] = codes "0"
signed neg (d ∷ digits) = if neg then b'-' ∷ d ∷ digits else d ∷ digits

-- `none` is the error "malformed number".
unfoldable pub canonical_integer : Bytes → Option Bytes
canonical_integer lexeme =
    let digits = trim_minus lexeme in
    if bytes_eq digits [] || not (is_digits digits)
    then none
    else some (signed (has_prefix lexeme (codes "-")) (trim_zeros digits))

-- The digits in front, dropped.
unfoldable pub skip_run : Bytes → Bytes
skip_run [] = []
skip_run (c ∷ cs) = let rest = skip_run cs in if within b'0' b'9' c then rest else c ∷ cs

-- consumeDigitRun and consumeJSONInteger give what is left; `none` is -1.
unfoldable pub consume_digit_run : Bytes → Option Bytes
consume_digit_run [] = none
consume_digit_run (c ∷ cs) = if within b'0' b'9' c then some (skip_run cs) else none

abbrev unsigned_integer : Bytes → Option Bytes
unsigned_integer [] = none
unsigned_integer (c ∷ cs) =
    if c == b'0' then some cs else if within b'1' b'9' c then some (skip_run cs) else none

unfoldable pub consume_json_integer : Bytes → Option Bytes
consume_json_integer s = unsigned_integer (trim_minus s)

abbrev consume_fraction : Bytes → Option Bytes
consume_fraction [] = some []
consume_fraction (c ∷ cs) = if c == b'.' then consume_digit_run cs else some (c ∷ cs)

abbrev trim_sign : Bytes → Bytes
trim_sign [] = []
trim_sign (c ∷ cs) = if c == b'+' || c == b'-' then cs else c ∷ cs

abbrev consume_exponent : Bytes → Option Bytes
consume_exponent [] = some []
consume_exponent (c ∷ cs) =
    if c == b'e' || c == b'E' then consume_digit_run (trim_sign cs) else some (c ∷ cs)

abbrev and_then : Option Bytes → (Bytes → Option Bytes) → Option Bytes
and_then none f = none
and_then (some rest) f = f rest

abbrev is_finished : Option Bytes → Bool
is_finished none = false
is_finished (some rest) = bytes_eq rest []

unfoldable pub is_valid_json_number_lexeme : Bytes → Bool
is_valid_json_number_lexeme s =
    is_finished (and_then (and_then (consume_json_integer s) consume_fraction) consume_exponent)

unfoldable pub has_mantissa_non_zero_digit : Bytes → Bool
has_mantissa_non_zero_digit [] = false
has_mantissa_non_zero_digit (c ∷ cs) =
    let rest = has_mantissa_non_zero_digit cs in
    if c == b'e' || c == b'E' then false else if within b'1' b'9' c then true else rest

-- strings.ToLower on the ASCII text of a number.
abbrev to_lower : Bytes → Bytes
to_lower [] = []
to_lower (c ∷ cs) = (if within b'A' b'Z' c then c + 32 else c) ∷ to_lower cs

-- strings.Cut at the first e; `none` if there is none.
unfoldable pub cut_e : Bytes → Option (Bytes × Bytes)
cut_e [] = none
cut_e (c ∷ cs) =
    let rest = cut_e cs in
    if c == b'e'
    then some ([], cs)
    else elim rest [ none ↦ none | some (before, after) ↦ some (c ∷ before, after) ]

abbrev with_sign : Bytes → Bytes
with_sign exp =
    if not (has_prefix exp (codes "+")) && not (has_prefix exp (codes "-")) then b'+' ∷ exp else exp

abbrev join_exponent : Bytes → Option (Bytes × Bytes) → Bytes
join_exponent lo none = lo
join_exponent lo (some (mantissa, exp)) = mantissa ++ b'e' ∷ with_sign exp

unfoldable pub normalize_out_of_range_lexeme : Bytes → Bytes
normalize_out_of_range_lexeme lexeme = let lo = to_lower lexeme in join_exponent lo (cut_e lo)

unfoldable pub pass_through_out_of_range : Bytes → Option Bytes
pass_through_out_of_range lexeme =
    if not (is_valid_json_number_lexeme lexeme)
    then none
    else some (normalize_out_of_range_lexeme lexeme)

abbrev or_zero : Bytes → Bytes
or_zero [] = codes "0"
or_zero (d ∷ ds) = d ∷ ds

abbrev signed_exponent : Bytes → Bytes
signed_exponent exp =
    if has_prefix exp (codes "-")
    then b'-' ∷ or_zero (trim_zeros (trim_sign exp))
    else if has_prefix exp (codes "+")
    then b'+' ∷ or_zero (trim_zeros (trim_sign exp))
    else b'+' ∷ or_zero (trim_zeros exp)

-- strconv.FormatFloat gives an exponent always.
abbrev mantissa_and_exponent : Bytes → Option (Bytes × Bytes) → Bytes
mantissa_and_exponent s none = s ++ b'e' ∷ signed_exponent []
mantissa_and_exponent s (some (mantissa, exp)) = mantissa ++ b'e' ∷ signed_exponent exp

module _ {ℓ} {F : Type ℓ} (ops : FloatOps F) where
  unfoldable pub canonical_exponent : F → Bytes
  canonical_exponent f = let s = ops.format_exponent f in mantissa_and_exponent s (cut_e s)

  abbrev canonical_parsed : Bytes → F → Option Bytes
  canonical_parsed lexeme f =
      if ops.is_zero f
      then (if has_mantissa_non_zero_digit lexeme
          then pass_through_out_of_range lexeme
          else some (codes "0"))
      else if ops.is_plain f
      then some (ops.format_plain f)
      else some (canonical_exponent f)

  abbrev canonical_float_of : Bytes → ParsedFloat F → Option Bytes
  canonical_float_of lexeme (parsed f) = canonical_parsed lexeme f
  canonical_float_of lexeme infinite = pass_through_out_of_range lexeme
  canonical_float_of lexeme malformed = none

  unfoldable pub canonical_float : Bytes → Option Bytes
  canonical_float lexeme =
      if not (is_valid_json_number_lexeme lexeme)
      then none
      else canonical_float_of lexeme (ops.parse_float lexeme)

  unfoldable pub canonicalize_number : Bytes → Option Bytes
  canonicalize_number lexeme =
      if not (any (λ c. c == b'.' || (c == b'e' || c == b'E')) lexeme)
      then canonical_integer lexeme
      else canonical_float lexeme

  abbrev pub encode_num : Bytes → Option Bytes
  encode_num n = canonicalize_number n
