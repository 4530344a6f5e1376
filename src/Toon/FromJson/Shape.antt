-- ===== src/Toon/FromJson/Shape.antt =====
-- internal/toon/fromjson.go: the values that come out of it.
use mini.Prelude.{
  ℕ, zero, suc, ◌+◌, ◌*◌, ◌≡◌, refl, sym, ap, subst, false, List, [], ◌∷◌, ◌++◌, Option, none, some,
  Bytes, bytes_eq, length, if-elim, arith,
}
use mini.Prelude.Map.{Map, insert, IsUnique, insert-IsUnique}
use mini.Toon.Value.{
  Value, Fields, Items, invalid, null, boolean, number, text, object, array, no_fields, field,
  no_items, item, field_list,
}
use mini.Toon.Numbers.{FloatOps, canonicalize_number}
use mini.Toon.FromJson.{
  Token, open_object, close_object, open_array, close_array, null_token, broken, bool_token,
  number_token, string_token, Decoded, ok, err, ◌>>=◌, next_token, more, to_fields, to_items,
  key_of, value_from_number, value_from_token, decode_value, decode_fields, decode_items,
  after_value, from_json,
}
use mini.Toon.FromJson.Fuel.{is_fuel, IsWithin, from_json-IsWithin}

field_list-to_fields : (m : Map Value) → field_list (to_fields m) ≡ m
unfolding to_fields
field_list-to_fields [] = refl
field_list-to_fields ((k, v) ∷ m) = ap (λ r. (k, v) ∷ r) (field_list-to_fields m)

module _ {ℓ} {F : Type ℓ} (ops : FloatOps F) where
  -- No zero Value is in it, no key of an object stands twice, and each number is what
  -- canonicalizeNumber makes of some lexeme.
  unfoldable mutual
    pub IsClean : Value → Type 0
    IsClean invalid = ⊥
    IsClean null = Unit
    IsClean (boolean b) = Unit
    IsClean (number n) = (lexeme : Bytes) × (canonicalize_number ops lexeme ≡ some n)
    IsClean (text s) = Unit
    IsClean (object fs) = IsUnique (field_list fs) × AreClean fs
    IsClean (array xs) = HasClean xs

    AreClean : Fields → Type 0
    AreClean no_fields = Unit
    AreClean (field k v fs) = IsClean v × AreClean fs

    HasClean : Items → Type 0
    HasClean no_items = Unit
    HasClean (item v xs) = IsClean v × HasClean xs

  insert-AreClean :
      (m : Map Value) (k : Bytes) (v : Value)
      → AreClean (to_fields m)
      → IsClean v
      → AreClean (to_fields (insert m k v))
  unfolding to_fields insert IsClean
  insert-AreClean [] k v h c = (c, tt)
  insert-AreClean ((j, w) ∷ m) k v (d, h) c =
      if-elim (λ (r : Map Value). AreClean (to_fields r)) (bytes_eq j k) _ _ (λ _. (c, h))
        (λ _. (d, insert-AreClean m k v h c))

  append-HasClean :
      (l : List Value) (v : Value)
      → HasClean (to_items l)
      → IsClean v
      → HasClean (to_items (l ++ v ∷ []))
  unfolding to_items IsClean
  append-HasClean [] v h c = (c, tt)
  append-HasClean (w ∷ l) v (d, h) c = (d, append-HasClean l v h c)

  abbrev GivesClean : Decoded Value → Type 0
  GivesClean (ok v rest) = IsClean v
  GivesClean (err e) = Unit

  >>=-GivesClean :
      {A : Type 0} (d : Decoded A) (f : A → List Token → Decoded Value)
      → ((a : A) (rest : List Token) → GivesClean (f a rest))
      → GivesClean (d >>= f)
  >>=-GivesClean (ok a rest) f g = g a rest
  >>=-GivesClean (err e) f g = tt

  value-GivesClean :
      (d : Decoded Value) (f : Value → List Token → Decoded Value)
      → GivesClean d
      → ((v : Value) (rest : List Token) → IsClean v → GivesClean (f v rest))
      → GivesClean (d >>= f)
  value-GivesClean (ok v rest) f h g = g v rest h
  value-GivesClean (err e) f h g = tt

  number-GivesClean :
      (lexeme : Bytes) (o : Option Bytes) (rest : List Token)
      → canonicalize_number ops lexeme ≡ o
      → GivesClean (value_from_number o rest)
  unfolding IsClean
  number-GivesClean lexeme none rest e = tt
  number-GivesClean lexeme (some n) rest e = (lexeme, e)

  token-GivesClean :
      (f g : List Token → Decoded Value) (t : Token) (rest : List Token)
      → GivesClean (f rest)
      → GivesClean (g rest)
      → GivesClean (value_from_token ops f g t rest)
  unfolding value_from_token IsClean
  token-GivesClean f g open_object rest p q = p
  token-GivesClean f g close_object rest p q = tt
  token-GivesClean f g open_array rest p q = q
  token-GivesClean f g close_array rest p q = tt
  token-GivesClean f g null_token rest p q = tt
  token-GivesClean f g broken rest p q = tt
  token-GivesClean f g (bool_token b) rest p q = tt
  token-GivesClean f g (number_token n) rest p q =
      number-GivesClean n (canonicalize_number ops n) rest refl
  token-GivesClean f g (string_token s) rest p q = tt

  mutual
    unfolding decode_value to_fields to_items IsClean

    decode_value-GivesClean : (fuel : ℕ) (ts : List Token) → GivesClean (decode_value ops fuel ts)
    decode_value-GivesClean zero ts = tt
    decode_value-GivesClean (suc fuel) ts = >>=-GivesClean (next_token ts) _ (λ t rest.
        token-GivesClean _ _ t rest (decode_fields-GivesClean fuel [] rest tt tt)
          (decode_items-GivesClean fuel [] rest tt))

    decode_fields-GivesClean :
        (fuel : ℕ) (m : Map Value) (ts : List Token)
        → IsUnique m
        → AreClean (to_fields m)
        → GivesClean (decode_fields ops fuel m ts)
    decode_fields-GivesClean zero m ts u h = tt
    decode_fields-GivesClean (suc fuel) m ts u h =
        if-elim (λ (d : Decoded Value). GivesClean d) (more ts) _ _
          (λ _. >>=-GivesClean (next_token ts >>= key_of) _ (λ key rest.
            value-GivesClean (decode_value ops fuel rest) _ (decode_value-GivesClean fuel rest)
              (λ v later c.
                decode_fields-GivesClean fuel (insert m key v) later (insert-IsUnique m key v u)
                  (insert-AreClean m key v h c))))
          (λ _.
            >>=-GivesClean (next_token ts) _
              (λ _ _. (subst (λ r. IsUnique r) (sym (field_list-to_fields m)) u, h)))

    decode_items-GivesClean :
        (fuel : ℕ) (l : List Value) (ts : List Token)
        → HasClean (to_items l)
        → GivesClean (decode_items ops fuel l ts)
    decode_items-GivesClean zero l ts h = tt
    decode_items-GivesClean (suc fuel) l ts h =
        if-elim (λ (d : Decoded Value). GivesClean d) (more ts) _ _
          (λ _.
            value-GivesClean (decode_value ops fuel ts) _ (decode_value-GivesClean fuel ts)
              (λ v rest c.
                decode_items-GivesClean fuel (l ++ v ∷ []) rest (append-HasClean l v h c)))
          (λ _. >>=-GivesClean (next_token ts) _ (λ _ _. h))

  after_value-GivesClean :
      (v : Value) (rest : List Token) → IsClean v → GivesClean (after_value v rest)
  after_value-GivesClean v [] c = c
  after_value-GivesClean v (open_object ∷ ts) c = tt
  after_value-GivesClean v (close_object ∷ ts) c = tt
  after_value-GivesClean v (open_array ∷ ts) c = tt
  after_value-GivesClean v (close_array ∷ ts) c = tt
  after_value-GivesClean v (null_token ∷ ts) c = tt
  after_value-GivesClean v (broken ∷ ts) c = tt
  after_value-GivesClean v (bool_token b ∷ ts) c = tt
  after_value-GivesClean v (number_token n ∷ ts) c = tt
  after_value-GivesClean v (string_token s ∷ ts) c = tt

  from_json-GivesClean : (ts : List Token) → GivesClean (from_json ops ts)
  unfolding from_json
  from_json-GivesClean ts =
      value-GivesClean (decode_value ops (2 * length ts + 1) ts) after_value
        (decode_value-GivesClean (2 * length ts + 1) ts) after_value-GivesClean

  -- A clean value with no token behind it, or an error of the program.
  abbrev pub IsRead : Decoded Value → Type 0
  IsRead (ok v rest) = IsClean v × (rest ≡ [])
  IsRead (err e) = is_fuel e ≡ false

  within_and_clean : (d : Decoded Value) → IsWithin 1 d → GivesClean d → IsRead d
  within_and_clean (ok v []) w c = (c, refl)
  within_and_clean (ok v (t ∷ ts)) w c = absurd (omega arith)
  within_and_clean (err e) w c = w

  -- Whatever the tokens, FromJSON ends with an error of the program, never for want of fuel, or
  -- with a value behind which no token is left, in which there is no zero Value, no key of an
  -- object stands twice, and each number is what canonicalizeNumber makes of some lexeme.
  pub from_json-IsRead : (ts : List Token) → IsRead (from_json ops ts)
  from_json-IsRead ts =
      within_and_clean (from_json ops ts) (from_json-IsWithin ops ts) (from_json-GivesClean ts)
