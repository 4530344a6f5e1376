-- ===== src/Toon/FromJson/Fuel.antt =====
-- internal/toon/fromjson.go: the recursion of decodeValue ends.
use mini.Prelude.{
  ℕ, zero, suc, ◌+◌, ◌*◌, ◌≤◌, ◌<◌, ◌≡◌, refl, Bool, true, false, List, [], ◌∷◌, ◌++◌, Option, none,
  some, Bytes, length, if-elim, arith,
}
use mini.Prelude.Map.{Map, insert}
use mini.Toon.Value.{Value}
use mini.Toon.Numbers.{FloatOps, canonicalize_number}
use mini.Toon.FromJson.{
  Token, open_object, close_object, open_array, close_array, null_token, broken, bool_token,
  number_token, string_token, DecodeError, out_of_fuel, Decoded, ok, err, ◌>>=◌, next_token, more,
  key_of, value_from_number, value_from_token, decode_value, decode_fields, decode_items,
  after_value, from_json,
}

abbrev pub is_fuel : DecodeError → Bool
is_fuel out_of_fuel = true
is_fuel _ = false

-- Fuel is left, and fewer than n tokens.
abbrev pub IsWithin : {A : Type 0} → ℕ → Decoded A → Type 0
IsWithin n (ok a rest) = length rest < n
IsWithin n (err e) = is_fuel e ≡ false

>>=-IsWithin :
    {A B : Type 0} (m n : ℕ) (d : Decoded A) (f : A → List Token → Decoded B)
    → IsWithin m d
    → ((a : A) (rest : List Token) → length rest < m → IsWithin n (f a rest))
    → IsWithin n (d >>= f)
>>=-IsWithin m n (ok a rest) f h g = g a rest h
>>=-IsWithin m n (err e) f h g = h

next_token-IsWithin : (ts : List Token) → IsWithin (length ts) (next_token ts)
unfolding next_token
next_token-IsWithin [] = refl
next_token-IsWithin (open_object ∷ ts) = omega arith
next_token-IsWithin (close_object ∷ ts) = omega arith
next_token-IsWithin (open_array ∷ ts) = omega arith
next_token-IsWithin (close_array ∷ ts) = omega arith
next_token-IsWithin (null_token ∷ ts) = omega arith
next_token-IsWithin (broken ∷ ts) = refl
next_token-IsWithin (bool_token b ∷ ts) = omega arith
next_token-IsWithin (number_token n ∷ ts) = omega arith
next_token-IsWithin (string_token s ∷ ts) = omega arith

key_of-IsWithin :
    (n : ℕ) (t : Token) (rest : List Token) → length rest < n → IsWithin n (key_of t rest)
key_of-IsWithin n (string_token s) rest h = h
key_of-IsWithin n open_object rest h = refl
key_of-IsWithin n close_object rest h = refl
key_of-IsWithin n open_array rest h = refl
key_of-IsWithin n close_array rest h = refl
key_of-IsWithin n null_token rest h = refl
key_of-IsWithin n broken rest h = refl
key_of-IsWithin n (bool_token b) rest h = refl
key_of-IsWithin n (number_token m) rest h = refl

module _ {ℓ} {F : Type ℓ} (ops : FloatOps F) where
  number-IsWithin :
      (n : ℕ) (o : Option Bytes) (rest : List Token)
      → length rest < n
      → IsWithin n (value_from_number o rest)
  number-IsWithin n none rest h = refl
  number-IsWithin n (some s) rest h = h

  token-IsWithin :
      (n : ℕ) (f g : List Token → Decoded Value) (t : Token) (rest : List Token)
      → length rest < n
      → IsWithin n (f rest)
      → IsWithin n (g rest)
      → IsWithin n (value_from_token ops f g t rest)
  unfolding value_from_token
  token-IsWithin n f g open_object rest h p q = p
  token-IsWithin n f g close_object rest h p q = refl
  token-IsWithin n f g open_array rest h p q = q
  token-IsWithin n f g close_array rest h p q = refl
  token-IsWithin n f g null_token rest h p q = h
  token-IsWithin n f g broken rest h p q = refl
  token-IsWithin n f g (bool_token b) rest h p q = h
  token-IsWithin n f g (number_token m) rest h p q =
      number-IsWithin n (canonicalize_number ops m) rest h
  token-IsWithin n f g (string_token s) rest h p q = h

  mutual
    unfolding decode_value

    decode_value-IsWithin :
        (fuel : ℕ) (ts : List Token) (n : ℕ)
        → length ts ≤ n
        → 2 * length ts + 1 ≤ fuel
        → IsWithin n (decode_value ops fuel ts)
    decode_value-IsWithin zero ts n b h = absurd (omega arith)
    decode_value-IsWithin (suc fuel) ts n b h =
        >>=-IsWithin (length ts) n (next_token ts) _ (next_token-IsWithin ts) (λ t rest l.
          token-IsWithin n _ _ t rest (omega arith)
            (decode_fields-IsWithin fuel [] rest n (omega arith) (omega arith))
            (decode_items-IsWithin fuel [] rest n (omega arith) (omega arith)))

    decode_fields-IsWithin :
        (fuel : ℕ) (fields : Map Value) (ts : List Token) (n : ℕ)
        → length ts ≤ n
        → 2 * length ts + 2 ≤ fuel
        → IsWithin n (decode_fields ops fuel fields ts)
    decode_fields-IsWithin zero fields ts n b h = absurd (omega arith)
    decode_fields-IsWithin (suc fuel) fields ts n b h =
        if-elim (λ (d : Decoded Value). IsWithin n d) (more ts) _ _
          (λ _.
            >>=-IsWithin (length ts) n (next_token ts >>= key_of) _
              (>>=-IsWithin (length ts) (length ts) (next_token ts) _ (next_token-IsWithin ts)
                (λ t rest l. key_of-IsWithin (length ts) t rest l))
              (λ key rest l.
                >>=-IsWithin (length rest) n (decode_value ops fuel rest) _
                  (decode_value-IsWithin fuel rest (length rest) (omega arith) (omega arith))
                  (λ v later k.
                    decode_fields-IsWithin fuel (insert fields key v) later n (omega arith)
                      (omega arith))))
          (λ _.
            >>=-IsWithin (length ts) n (next_token ts) _ (next_token-IsWithin ts)
              (λ t rest l. omega arith))

    decode_items-IsWithin :
        (fuel : ℕ) (items : List Value) (ts : List Token) (n : ℕ)
        → length ts ≤ n
        → 2 * length ts + 2 ≤ fuel
        → IsWithin n (decode_items ops fuel items ts)
    decode_items-IsWithin zero items ts n b h = absurd (omega arith)
    decode_items-IsWithin (suc fuel) items ts n b h =
        if-elim (λ (d : Decoded Value). IsWithin n d) (more ts) _ _
          (λ _.
            >>=-IsWithin (length ts) n (decode_value ops fuel ts) _
              (decode_value-IsWithin fuel ts (length ts) (omega arith) (omega arith))
              (λ v rest l.
                decode_items-IsWithin fuel (items ++ v ∷ []) rest n (omega arith) (omega arith)))
          (λ _.
            >>=-IsWithin (length ts) n (next_token ts) _ (next_token-IsWithin ts)
              (λ t rest l. omega arith))

  after_value-IsWithin : (v : Value) (rest : List Token) → IsWithin 1 (after_value v rest)
  after_value-IsWithin v [] = omega arith
  after_value-IsWithin v (open_object ∷ ts) = refl
  after_value-IsWithin v (close_object ∷ ts) = refl
  after_value-IsWithin v (open_array ∷ ts) = refl
  after_value-IsWithin v (close_array ∷ ts) = refl
  after_value-IsWithin v (null_token ∷ ts) = refl
  after_value-IsWithin v (broken ∷ ts) = refl
  after_value-IsWithin v (bool_token b ∷ ts) = refl
  after_value-IsWithin v (number_token n ∷ ts) = refl
  after_value-IsWithin v (string_token s ∷ ts) = refl

  -- The fuel is enough.
  pub from_json-IsWithin : (ts : List Token) → IsWithin 1 (from_json ops ts)
  unfolding from_json
  from_json-IsWithin ts =
      >>=-IsWithin (length ts + 1) 1 (decode_value ops (2 * length ts + 1) ts) _
        (decode_value-IsWithin (2 * length ts + 1) ts (length ts + 1) (omega arith) (omega arith))
        (λ v rest l. after_value-IsWithin v rest)
