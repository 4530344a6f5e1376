-- ===== src/Toon/FromJson.antt =====
-- internal/toon/fromjson.go: values from the tokens of encoding/json. The decoder is the list of the
-- tokens that it has still to give; its end is io.EOF, and `broken` an error of the syntax.
pub mod Fuel
pub mod RoundTrip
pub mod Shape
use mini.Prelude.{
  ℕ, zero, suc, ◌+◌, ◌*◌, Bool, true, false, List, [], ◌∷◌, ◌++◌, Option, none, some, Bytes, length,
  if◌then◌else◌,
}
use mini.Prelude.Map.{Map, insert}
use mini.Toon.Value.{
  Value, Fields, Items, null, boolean, number, text, object, array, no_fields, field, no_items,
  item,
}
use mini.Toon.Numbers.{FloatOps, canonicalize_number}

pub data Token : Type 0 where
  open_object close_object open_array close_array null_token broken : Token
  bool_token : Bool → Token
  number_token string_token : Bytes → Token

pub data DecodeError : Type 0 where
  end_of_input syntax unexpected_delimiter key_not_string malformed_number trailing_data
        out_of_fuel :
      DecodeError

-- A value, with the tokens behind it.
pub data Decoded {ℓ} (A : Type ℓ) : Type ℓ where
  ok : A → List Token → Decoded A
  err : DecodeError → Decoded A

infixl 5 ◌>>=◌
abbrev pub ◌>>=◌ {ℓ κ} :
    {A : Type ℓ} {B : Type κ} → Decoded A → (A → List Token → Decoded B) → Decoded B
ok a rest >>= f = f a rest
err e >>= f = err e

-- dec.Token
unfoldable pub next_token : List Token → Decoded Token
next_token [] = err end_of_input
next_token (broken ∷ rest) = err syntax
next_token (t ∷ rest) = ok t rest

-- dec.More
unfoldable pub more : List Token → Bool
more [] = false
more (close_object ∷ _) = false
more (close_array ∷ _) = false
more _ = true

-- The fields and the items that were appended, in their order.
unfoldable pub to_fields : List (Bytes × Value) → Fields
to_fields [] = no_fields
to_fields ((k, v) ∷ fs) = field k v (to_fields fs)

unfoldable pub to_items : List Value → Items
to_items [] = no_items
to_items (v ∷ vs) = item v (to_items vs)

abbrev pub key_of : Token → List Token → Decoded Bytes
key_of (string_token k) rest = ok k rest
key_of _ rest = err key_not_string

abbrev pub value_from_number : Option Bytes → List Token → Decoded Value
value_from_number none rest = err malformed_number
value_from_number (some n) rest = ok (number n) rest

abbrev pub after_value : Value → List Token → Decoded Value
after_value v [] = ok v []
after_value v (broken ∷ rest) = err syntax
after_value v (_ ∷ rest) = err trailing_data

module _ {ℓ} {F : Type ℓ} (ops : FloatOps F) where
  -- valueFromToken and valueFromDelim; the first arguments read an object and an array.
  unfoldable pub value_from_token :
      (List Token → Decoded Value)
      → (List Token → Decoded Value)
      → Token
      → List Token
      → Decoded Value
  value_from_token decode_object decode_array open_object rest = decode_object rest
  value_from_token decode_object decode_array open_array rest = decode_array rest
  value_from_token decode_object decode_array close_object rest = err unexpected_delimiter
  value_from_token decode_object decode_array close_array rest = err unexpected_delimiter
  value_from_token decode_object decode_array null_token rest = ok null rest
  value_from_token decode_object decode_array broken rest = err syntax
  value_from_token decode_object decode_array (bool_token b) rest = ok (boolean b) rest
  value_from_token decode_object decode_array (number_token n) rest =
      value_from_number (canonicalize_number ops n) rest
  value_from_token decode_object decode_array (string_token s) rest = ok (text s) rest

  -- On fuel. decode_fields and decode_items are the loops of decodeObject and decodeArray: of two
  -- fields with a key the first one's place stays, with the last value.
  unfoldable mutual
    pub decode_value : ℕ → List Token → Decoded Value
    decode_value zero ts = err out_of_fuel
    decode_value (suc fuel) ts =
        next_token ts >>= value_from_token (decode_fields fuel []) (decode_items fuel [])

    pub decode_fields : ℕ → Map Value → List Token → Decoded Value
    decode_fields zero fields ts = err out_of_fuel
    decode_fields (suc fuel) fields ts =
        if more ts
        then (next_token ts >>= key_of >>= λ key rest.
            decode_value fuel rest >>= λ v rest. decode_fields fuel (insert fields key v) rest)
        else (next_token ts >>= λ _ rest. ok (object (to_fields fields)) rest)

    pub decode_items : ℕ → List Value → List Token → Decoded Value
    decode_items zero items ts = err out_of_fuel
    decode_items (suc fuel) items ts =
        if more ts
        then (decode_value fuel ts >>= λ v rest. decode_items fuel (items ++ v ∷ []) rest)
        else (next_token ts >>= λ _ rest. ok (array (to_items items)) rest)

  unfoldable pub from_json : List Token → Decoded Value
  from_json ts = decode_value (2 * length ts + 1) ts >>= after_value
