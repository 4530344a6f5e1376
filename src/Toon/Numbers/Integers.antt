-- ===== src/Toon/Numbers/Integers.antt =====
-- internal/toon/numbers.go: integers of any size keep their value and get one form.
use mini.Prelude.{
  ℕ, zero, suc, Bool, false, ◌&&◌, ◌||◌, [], ◌∷◌, Option, none, some, Bytes, codes, bytes_eq, ◌==◌,
  all, if◌then◌else◌,
}
use mini.Prelude.Int.{ℤ, pos, negsuc}
use mini.Prelude.Decimal.{read_digits}
use mini.Utf8.{within}

abbrev negate : Option ℕ → Option ℤ
negate none = none
negate (some zero) = some (pos zero)
negate (some (suc n)) = some (negsuc n)

abbrev as_pos : Option ℕ → Option ℤ
as_pos none = none
as_pos (some n) = some (pos n)

-- The number that a decimal text with or without a minus sign stands for.
unfoldable pub integer_value : Bytes → Option ℤ
integer_value [] = none
integer_value (c ∷ cs) =
    if c == b'-' then negate (read_digits 0 cs) else as_pos (read_digits 0 (c ∷ cs))

-- "0", or digits without a zero in front, behind a minus sign if need be.
abbrev is_positive_form : Bytes → Bool
is_positive_form [] = false
is_positive_form (c ∷ cs) = within b'1' b'9' c && all (within b'0' b'9') cs

unfoldable pub is_canonical : Bytes → Bool
is_canonical [] = false
is_canonical (c ∷ cs) =
    bytes_eq (c ∷ cs) (codes "0")
    || (if c == b'-' then is_positive_form cs else is_positive_form (c ∷ cs))

signed_value : Bool → Bytes → Option ℤ
signed_value neg ds = if neg then negate (read_digits 0 ds) else as_pos (read_digits 0 ds)
