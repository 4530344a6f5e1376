-- ===== src/Toon/FromJson/RoundTrip.antt =====
-- internal/toon/fromjson.go: the tokens of a value are read as the value.
use mini.Prelude.{
  ℕ, zero, suc, ◌+◌, ◌*◌, ◌≤◌, ◌≡◌, refl, sym, ap, subst, ◌∙◌, true, false, List, [], ◌∷◌, ◌++◌,
  append_assoc, append-nil, none, some, Bytes, bytes_eq, bytes_eq_iff, length, arith,
}
use mini.Prelude.Map.{Map, lookup, insert, IsUnique}
use mini.Toon.Value.{
  Value, Fields, Items, invalid, null, boolean, number, text, object, array, no_fields, field,
  no_items, item, field_list, item_list,
}
use mini.Toon.Numbers.{FloatOps, canonicalize_number}
use mini.Toon.FromJson.{
  Token, open_object, close_object, open_array, close_array, null_token, bool_token, number_token,
  string_token, ok, ◌>>=◌, next_token, more, to_fields, to_items, value_from_number,
  value_from_token, decode_value, decode_fields, decode_items, after_value, from_json,
}

-- The tokens of a value, in front of others, and how many there are.
unfoldable mutual
  pub value_tokens : Value → List Token → List Token
  value_tokens invalid ts = ts
  value_tokens null ts = null_token ∷ ts
  value_tokens (boolean b) ts = bool_token b ∷ ts
  value_tokens (number n) ts = number_token n ∷ ts
  value_tokens (text s) ts = string_token s ∷ ts
  value_tokens (object fs) ts = open_object ∷ fields_tokens fs (close_object ∷ ts)
  value_tokens (array xs) ts = open_array ∷ items_tokens xs (close_array ∷ ts)

  pub fields_tokens : Fields → List Token → List Token
  fields_tokens no_fields ts = ts
  fields_tokens (field k v fs) ts = string_token k ∷ value_tokens v (fields_tokens fs ts)

  pub items_tokens : Items → List Token → List Token
  items_tokens no_items ts = ts
  items_tokens (item v xs) ts = value_tokens v (items_tokens xs ts)

unfoldable mutual
  size : Value → ℕ
  size invalid = 0
  size (object fs) = fields_size fs + 2
  size (array xs) = items_size xs + 2
  size _ = 1

  fields_size : Fields → ℕ
  fields_size no_fields = 0
  fields_size (field k v fs) = size v + fields_size fs + 1

  items_size : Items → ℕ
  items_size no_items = 0
  items_size (item v xs) = size v + items_size xs

mutual
  unfolding value_tokens size

  length-value_tokens :
      (v : Value) (ts : List Token) → length (value_tokens v ts) ≡ size v + length ts
  length-value_tokens invalid ts = omega arith
  length-value_tokens null ts = omega arith
  length-value_tokens (boolean b) ts = omega arith
  length-value_tokens (number n) ts = omega arith
  length-value_tokens (text s) ts = omega arith
  length-value_tokens (object fs) ts = omega (arith, length-fields_tokens fs (close_object ∷ ts))
  length-value_tokens (array xs) ts = omega (arith, length-items_tokens xs (close_array ∷ ts))

  length-fields_tokens :
      (fs : Fields) (ts : List Token) → length (fields_tokens fs ts) ≡ fields_size fs + length ts
  length-fields_tokens no_fields ts = omega arith
  length-fields_tokens (field k v fs) ts =
      omega (arith, length-value_tokens v (fields_tokens fs ts), length-fields_tokens fs ts)

  length-items_tokens :
      (xs : Items) (ts : List Token) → length (items_tokens xs ts) ≡ items_size xs + length ts
  length-items_tokens no_items ts = omega arith
  length-items_tokens (item v xs) ts =
      omega (arith, length-value_tokens v (items_tokens xs ts), length-items_tokens xs ts)

to_fields-field_list : (fs : Fields) → to_fields (field_list fs) ≡ fs
unfolding to_fields
to_fields-field_list no_fields = refl
to_fields-field_list (field k v fs) = ap (field k v) (to_fields-field_list fs)

to_items-item_list : (xs : Items) → to_items (item_list xs) ≡ xs
unfolding to_items
to_items-item_list no_items = refl
to_items-item_list (item v xs) = ap (item v) (to_items-item_list xs)

lookup-middle :
    (m : Map Value) (k : Bytes) (v : Value) (rest : Map Value) (j : Bytes)
    → lookup (m ++ (k, v) ∷ rest) j ≡ none
    → bytes_eq j k ≡ false
unfolding lookup
lookup-middle [] k v rest j h = ground (arith, bytes_eq_iff j k, bytes_eq_iff k j)
lookup-middle ((i, w) ∷ m) k v rest j h = lookup-middle m k v rest j (ground arith)

-- A key that stands once is put at the end.
insert-last :
    (m : Map Value) (k : Bytes) (v : Value) (rest : Map Value)
    → IsUnique (m ++ (k, v) ∷ rest)
    → insert m k v ≡ m ++ (k, v) ∷ []
unfolding insert
insert-last [] k v rest u = refl
insert-last ((j, w) ∷ m) k v rest (h, u) =
    rw (lookup-middle m k v rest j h) (ap (λ r. (j, w) ∷ r) (insert-last m k v rest u))

module _ {ℓ} {F : Type ℓ} (ops : FloatOps F) where
  -- What FromJSON gives: numbers are canonical, keys stand once, and no zero Value is in it.
  unfoldable mutual
    pub IsJson : Value → Type 0
    IsJson invalid = ⊥
    IsJson null = Unit
    IsJson (boolean b) = Unit
    IsJson (number n) = canonicalize_number ops n ≡ some n
    IsJson (text s) = Unit
    IsJson (object fs) = IsUnique (field_list fs) × AreJson fs
    IsJson (array xs) = HasJson xs

    pub AreJson : Fields → Type 0
    AreJson no_fields = Unit
    AreJson (field k v fs) = IsJson v × AreJson fs

    pub HasJson : Items → Type 0
    HasJson no_items = Unit
    HasJson (item v xs) = IsJson v × HasJson xs

  more-value_tokens : (v : Value) (ts : List Token) → IsJson v → more (value_tokens v ts) ≡ true
  unfolding more value_tokens IsJson
  more-value_tokens invalid ts j = absurd j
  more-value_tokens null ts j = refl
  more-value_tokens (boolean b) ts j = refl
  more-value_tokens (number n) ts j = refl
  more-value_tokens (text s) ts j = refl
  more-value_tokens (object fs) ts j = refl
  more-value_tokens (array xs) ts j = refl

  size-positive : (v : Value) → IsJson v → 1 ≤ size v
  unfolding size IsJson
  size-positive invalid j = absurd j
  size-positive null j = omega arith
  size-positive (boolean b) j = omega arith
  size-positive (number n) j = omega arith
  size-positive (text s) j = omega arith
  size-positive (object fs) j = omega arith
  size-positive (array xs) j = omega arith

  mutual
    unfolding decode_value value_from_token next_token more value_tokens size IsJson

    decode_value-value_tokens :
        (fuel : ℕ) (v : Value) (ts : List Token)
        → IsJson v
        → 2 * size v ≤ fuel
        → decode_value ops fuel (value_tokens v ts) ≡ ok v ts
    decode_value-value_tokens fuel invalid ts j h = absurd j
    decode_value-value_tokens zero null ts j h = absurd (omega arith)
    decode_value-value_tokens zero (boolean b) ts j h = absurd (omega arith)
    decode_value-value_tokens zero (number n) ts j h = absurd (omega arith)
    decode_value-value_tokens zero (text s) ts j h = absurd (omega arith)
    decode_value-value_tokens zero (object fs) ts j h = absurd (omega arith)
    decode_value-value_tokens zero (array xs) ts j h = absurd (omega arith)
    decode_value-value_tokens (suc fuel) null ts j h = refl
    decode_value-value_tokens (suc fuel) (boolean b) ts j h = refl
    decode_value-value_tokens (suc fuel) (number n) ts j h = ap (λ o. value_from_number o ts) j
    decode_value-value_tokens (suc fuel) (text s) ts j h = refl
    decode_value-value_tokens (suc fuel) (object fs) ts (u, j) h =
        decode_fields-fields_tokens fuel [] fs ts u j (omega arith)
        ∙ ap (λ fields. ok (object fields) ts) (to_fields-field_list fs)
    decode_value-value_tokens (suc fuel) (array xs) ts j h =
        decode_items-items_tokens fuel [] xs ts j (omega arith)
        ∙ ap (λ items. ok (array items) ts) (to_items-item_list xs)

    decode_fields-fields_tokens :
        (fuel : ℕ) (m : Map Value) (fs : Fields) (ts : List Token)
        → IsUnique (m ++ field_list fs)
        → AreJson fs
        → 2 * fields_size fs + 1 ≤ fuel
        → decode_fields ops fuel m (fields_tokens fs (close_object ∷ ts))
          ≡ ok (object (to_fields (m ++ field_list fs))) ts
    decode_fields-fields_tokens zero m fs ts u j h = absurd (omega arith)
    decode_fields-fields_tokens (suc fuel) m no_fields ts u j h =
        ap (λ r. ok (object (to_fields r)) ts) (sym (append-nil m))
    decode_fields-fields_tokens (suc fuel) m (field k v fs) ts u (j, js) h =
        let later = fields_tokens fs (close_object ∷ ts) in
        let again = append_assoc m ((k, v) ∷ []) (field_list fs) in
        ap (λ d. d >>= λ w rest. decode_fields ops fuel (insert m k w) rest)
          (decode_value-value_tokens fuel v later j (omega arith))
        ∙ ap (λ r. decode_fields ops fuel r later) (insert-last m k v (field_list fs) u)
        ∙ decode_fields-fields_tokens fuel (m ++ (k, v) ∷ []) fs ts
            (subst (λ r. IsUnique r) (sym again) u) js (omega arith)
        ∙ ap (λ r. ok (object (to_fields r)) ts) again

    decode_items-items_tokens :
        (fuel : ℕ) (l : List Value) (xs : Items) (ts : List Token)
        → HasJson xs
        → 2 * items_size xs + 1 ≤ fuel
        → decode_items ops fuel l (items_tokens xs (close_array ∷ ts))
          ≡ ok (array (to_items (l ++ item_list xs))) ts
    decode_items-items_tokens zero l xs ts j h = absurd (omega arith)
    decode_items-items_tokens (suc fuel) l no_items ts j h =
        ap (λ r. ok (array (to_items r)) ts) (sym (append-nil l))
    decode_items-items_tokens (suc fuel) l (item v xs) ts (j, js) h =
        let later = items_tokens xs (close_array ∷ ts) in
        let again = append_assoc l (v ∷ []) (item_list xs) in
        let one = size-positive v j in
        rw (more-value_tokens v later j) (
          ap (λ d. d >>= λ w rest. decode_items ops fuel (l ++ w ∷ []) rest)
            (decode_value-value_tokens fuel v later j (omega arith))
          ∙ decode_items-items_tokens fuel (l ++ v ∷ []) xs ts js (omega arith)
          ∙ ap (λ r. ok (array (to_items r)) ts) again)

  -- FromJSON reads a value back from its tokens, if its numbers are canonical, no key of an
  -- object stands twice and no zero Value is in it.
  pub from_json-value_tokens : (v : Value) → IsJson v → from_json ops (value_tokens v []) ≡ ok v []
  unfolding from_json
  from_json-value_tokens v j =
      let fuel = 2 * length (value_tokens v []) + 1 in
      ap (λ d. d >>= after_value)
        (decode_value-value_tokens fuel v [] j (omega (arith, length-value_tokens v [])))
