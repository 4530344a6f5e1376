-- ===== src/Toon/Encode/Builder.antt =====
-- internal/toon/encode.go: the builder with its limit, the checks, and single values.
use mini.Prelude.{
  ℕ, zero, suc, ◌+◌, Bool, true, false, ◌&&◌, [], ◌∷◌, ◌++◌, Option, none, some, Bytes, codes, ◌==◌,
  ltb, length, if◌then◌else◌,
}
use mini.Utf8.{valid_string}
use mini.Toon.Value.{Value, Fields, Items, object, array, no_fields, field, no_items, item}
use mini.Toon.Quote.{encode_string}

abbrev pub max_encode_depth : ℕ
max_encode_depth = 1024

abbrev pub max_encode_bytes : ℕ
max_encode_bytes = 4194304

pub data EncodeError : Type 0 where
  too_deep too_large invalid_utf8 malformed_number not_primitive uninitialized : EncodeError

pub data EncodeResult : Type 0 where
  ok : Bytes → EncodeResult
  err : EncodeError → EncodeResult

abbrev pub Writer : Type 0
Writer = Bytes → EncodeResult

abbrev pub and_write : Writer → EncodeResult → EncodeResult
and_write next (ok sb) = next sb
and_write next (err e) = err e

-- One writer and then another, unless the first one fails.
infixr 5 ◌>>◌
abbrev pub ◌>>◌ : Writer → Writer → Writer
(w >> next) sb = and_write next (w sb)

-- A writer for a text that may fail to be made.
abbrev pub with_text : EncodeResult → (Bytes → Writer) → Writer
with_text (ok s) w sb = w s sb
with_text (err e) w sb = err e

-- len(s) > maxEncodeBytes-sb.Len(), on integers.
unfoldable pub append_string : Bytes → Writer
append_string s sb =
    if ltb max_encode_bytes (length sb + length s) then err too_large else ok (sb ++ s)

unfoldable pub check_depth : ℕ → Writer
check_depth depth sb = if ltb max_encode_depth depth then err too_deep else ok sb

-- sb.Len() > maxEncodeBytes
unfoldable pub check_length : Writer
check_length sb = if ltb max_encode_bytes (length sb) then err too_large else ok sb

unfoldable pub validate_utf8 : Bytes → Writer
validate_utf8 s sb = if valid_string s then ok sb else err invalid_utf8

abbrev pub done : Writer
done sb = ok sb

-- strings.Repeat(indentUnit, depth)
unfoldable pub indent : ℕ → Bytes
indent zero = []
indent (suc depth) = b' ' ∷ b' ' ∷ indent depth

-- strings.TrimSuffix(s, "\n")
unfoldable pub trim_newline : Bytes → Bytes
trim_newline [] = []
trim_newline (c ∷ []) = if c == b'\n' then [] else c ∷ []
trim_newline (c ∷ d ∷ cs) = c ∷ trim_newline (d ∷ cs)

-- `true` is a nil error.
unfoldable mutual
  pub validate_depth : Value → ℕ → Bool
  validate_depth (object fs) depth =
      let below = validate_fields_depth fs (depth + 1) in
      if ltb max_encode_depth depth then false else below
  validate_depth (array xs) depth =
      let below = validate_items_depth xs (depth + 1) in
      if ltb max_encode_depth depth then false else below
  validate_depth _ depth = true

  pub validate_fields_depth : Fields → ℕ → Bool
  validate_fields_depth no_fields depth = true
  validate_fields_depth (field k v fs) depth =
      validate_depth v depth && validate_fields_depth fs depth

  pub validate_items_depth : Items → ℕ → Bool
  validate_items_depth no_items depth = true
  validate_items_depth (item v xs) depth = validate_depth v depth && validate_items_depth xs depth

abbrev pub bounded : Bytes → EncodeResult
bounded s = if ltb max_encode_bytes (length s) then err too_large else ok s

abbrev pub encode_number : Option Bytes → EncodeResult
encode_number none = err malformed_number
encode_number (some s) = bounded s

unfoldable pub encode_text : Bytes → EncodeResult
encode_text s = if valid_string s then bounded (encode_string s) else err invalid_utf8

abbrev pub encode_bool : Bool → Bytes
encode_bool b = if b then codes "true" else codes "false"
