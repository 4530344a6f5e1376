-- ===== src/Toon/Encode/Encodable.antt =====
-- internal/toon: values that have a document, and what of their parts is written in a table.
use mini.Prelude.{
  ℕ, ◌≡◌, refl, sym, subst, Bool, true, false, ◌&&◌, List, [], ◌∷◌, ◌++◌, map, Option, none, some,
  Bytes, bytes_eq, All, if-elim, arith,
}
use mini.Prelude.Map.{Map, lookup, insert, lookup-insert}
use mini.Utf8.{valid_string}
use mini.Toon.Value.{
  Value, Fields, Items, invalid, null, boolean, number, text, object, array, no_fields, field,
  no_items, item, field_list, item_list,
}
use mini.Toon.Numbers.{FloatOps, encode_num}
use mini.Toon.Columns.{
  Columns, no_columns, column, is_primitive, all_primitive, field_index, index_from, field_keys,
  value_at, leaf_values,
}
use mini.Toon.Encode.Lines.{
  when, image, combined, primitive_text, texts, row_lines, entry_text, entry_lines,
}
use mini.Toon.Columns.Rows.{IsTable}

abbrev pub is_some : {A : Type 0} → Option A → Bool
is_some none = false
is_some (some a) = true

abbrev pub IsSome : {A : Type 0} → Option A → Type 0
IsSome o = is_some o ≡ true

pub combined-IsSome :
    {A B C : Type 0} (f : A → B → C) (p : Option A) (q : Option B)
    → IsSome p
    → IsSome q
    → IsSome (combined f p q)
combined-IsSome f none q h k = absurd (ground arith)
combined-IsSome f (some a) none h k = absurd (ground arith)
combined-IsSome f (some a) (some b) h k = refl

pub image-IsSome : {A B : Type 0} (f : A → B) (o : Option A) → IsSome o → IsSome (image f o)
image-IsSome f none h = absurd (ground arith)
image-IsSome f (some a) h = refl

pub when-IsSome : {A : Type 0} (b : Bool) (o : Option A) → b ≡ true → IsSome o → IsSome (when b o)
when-IsSome true o h k = k
when-IsSome false o h k = absurd (ground arith)

module _ {ℓ} {F : Type ℓ} (ops : FloatOps F) where
  -- Every key and string is valid UTF-8, every number is one, and no zero Value is in it.
  unfoldable mutual
    pub is_encodable : Value → Bool
    is_encodable invalid = false
    is_encodable null = true
    is_encodable (boolean b) = true
    is_encodable (number n) = is_some (encode_num ops n)
    is_encodable (text s) = valid_string s
    is_encodable (object fs) = fields_encodable fs
    is_encodable (array xs) = items_encodable xs

    pub fields_encodable : Fields → Bool
    fields_encodable no_fields = true
    fields_encodable (field k v fs) = valid_string k && (is_encodable v && fields_encodable fs)

    pub items_encodable : Items → Bool
    items_encodable no_items = true
    items_encodable (item v xs) = is_encodable v && items_encodable xs

  -- What an index gives: an encodable value, or the zero Value for a missing key.
  abbrev pub is_fine : Value → Bool
  is_fine invalid = true
  is_fine v = is_encodable v

  encodable-fine : (v : Value) → is_encodable v ≡ true → is_fine v ≡ true
  unfolding is_encodable
  encodable-fine invalid h = refl
  encodable-fine null h = h
  encodable-fine (boolean b) h = h
  encodable-fine (number n) h = h
  encodable-fine (text s) h = h
  encodable-fine (object fs) h = h
  encodable-fine (array xs) h = h

  abbrev pub IsFine : Map Value → Type 0
  IsFine idx = (key : Bytes) → is_fine (value_at idx key) ≡ true

  insert-IsFine :
      (idx : Map Value) (k : Bytes) (v : Value)
      → is_fine v ≡ true
      → IsFine idx
      → IsFine (insert idx k v)
  unfolding value_at
  insert-IsFine idx k v h f key =
      let found = f key in
      subst (λ (o : Option Value). is_fine (elim o [ none ↦ invalid | some w ↦ w ]) ≡ true)
        (sym (lookup-insert idx k key v))
        (if-elim (λ (o : Option Value). is_fine (elim o [ none ↦ invalid | some w ↦ w ]) ≡ true)
          (bytes_eq k key) _ _ (λ _. h) (λ _. found))

  index_from-IsFine :
      (fs : Fields) (idx : Map Value)
      → fields_encodable fs ≡ true
      → IsFine idx
      → IsFine (index_from idx (field_list fs))
  unfolding index_from is_encodable
  index_from-IsFine no_fields idx h f = f
  index_from-IsFine (field k v fs) idx h f =
      index_from-IsFine fs (insert idx k v) (ground arith)
        (insert-IsFine idx k v (encodable-fine v (ground arith)) f)

  pub field_index-IsFine : (v : Value) → is_fine v ≡ true → IsFine (field_index v)
  unfolding is_encodable value_at index_from lookup
  field_index-IsFine (object fs) h = index_from-IsFine fs [] h (λ key. refl)
  field_index-IsFine invalid h = λ key. refl
  field_index-IsFine null h = λ key. refl
  field_index-IsFine (boolean b) h = λ key. refl
  field_index-IsFine (number n) h = λ key. refl
  field_index-IsFine (text s) h = λ key. refl
  field_index-IsFine (array xs) h = λ key. refl

  abbrev pub AreFine : List Value → Type 0
  AreFine = All (λ v. is_fine v ≡ true)

  leaf_values-AreFine :
      (idx : Map Value) (cols : Columns) → IsFine idx → AreFine (leaf_values idx cols)
  unfolding leaf_values
  leaf_values-AreFine idx no_columns f = tt
  leaf_values-AreFine idx (column key no_columns rest) f = (f key, leaf_values-AreFine idx rest f)
  leaf_values-AreFine idx (column key (column k cs more) rest) f =
      append-AreFine _ _
        (leaf_values-AreFine (field_index (value_at idx key)) (column k cs more)
          (field_index-IsFine (value_at idx key) (f key)))
        (leaf_values-AreFine idx rest f)
    where
      append-AreFine : (xs ys : List Value) → AreFine xs → AreFine ys → AreFine (xs ++ ys)
      append-AreFine [] ys p q = q
      append-AreFine (x ∷ xs) ys (p, ps) q = (p, append-AreFine xs ys ps q)

  pub primitive_text-IsSome :
      (v : Value) → is_primitive v ≡ true → is_fine v ≡ true → IsSome (primitive_text ops v)
  unfolding primitive_text is_primitive is_encodable
  primitive_text-IsSome invalid p f = absurd (ground arith)
  primitive_text-IsSome null p f = refl
  primitive_text-IsSome (boolean b) p f = refl
  primitive_text-IsSome (number n) p f = f
  primitive_text-IsSome (text s) p f = rw f refl
  primitive_text-IsSome (object fs) p f = absurd (ground arith)
  primitive_text-IsSome (array xs) p f = absurd (ground arith)

  pub texts-IsSome :
      (vs : List Value) → all_primitive vs ≡ true → AreFine vs → IsSome (texts ops vs)
  unfolding texts
  texts-IsSome [] p f = refl
  texts-IsSome (v ∷ vs) p (f, fs) =
      combined-IsSome _ (primitive_text ops v) (texts ops vs)
        (primitive_text-IsSome v (ground arith) f) (texts-IsSome vs (ground arith) fs)

  cells-IsSome :
      (v : Value) (cols : Columns)
      → is_fine v ≡ true
      → all_primitive (leaf_values (field_index v) cols) ≡ true
      → IsSome (texts ops (leaf_values (field_index v) cols))
  cells-IsSome v cols f p =
      texts-IsSome (leaf_values (field_index v) cols) p
        (leaf_values-AreFine (field_index v) cols (field_index-IsFine v f))

  pub row_lines-IsSome :
      (depth : ℕ) (cols : Columns) (items : List Value)
      → IsTable items cols
      → AreFine items
      → IsSome (row_lines ops depth cols items)
  unfolding row_lines
  row_lines-IsSome depth cols [] t f = refl
  row_lines-IsSome depth cols (v ∷ items) (t, ts) (f, fs) =
      combined-IsSome _ (texts ops (leaf_values (field_index v) cols))
        (row_lines ops depth cols items) (cells-IsSome v cols f t.0)
        (row_lines-IsSome depth cols items ts fs)

  pub entry_lines-IsSome :
      (depth : ℕ) (cols : Columns) (fs : Fields)
      → IsTable (map (λ f. f.1) (field_list fs)) cols
      → fields_encodable fs ≡ true
      → IsSome (entry_lines ops depth cols (field_list fs))
  unfolding entry_lines is_encodable
  entry_lines-IsSome depth cols no_fields t e = refl
  entry_lines-IsSome depth cols (field k v fs) (t, ts) e =
      combined-IsSome _ (entry_text ops cols k v) (entry_lines ops depth cols (field_list fs))
        (when-IsSome (valid_string k) _ (ground arith) (
          image-IsSome _ (texts ops (leaf_values (field_index v) cols))
            (cells-IsSome v cols (encodable-fine v (ground arith)) t.0)))
        (entry_lines-IsSome depth cols fs ts (ground arith))

  pub items-AreFine : (xs : Items) → items_encodable xs ≡ true → AreFine (item_list xs)
  unfolding is_encodable
  items-AreFine no_items e = tt
  items-AreFine (item v xs) e = (encodable-fine v (ground arith), items-AreFine xs (ground arith))

  pub fields-AreFine :
      (fs : Fields) → fields_encodable fs ≡ true → AreFine (map (λ f. f.1) (field_list fs))
  unfolding is_encodable
  fields-AreFine no_fields e = tt
  fields-AreFine (field k v fs) e =
      (encodable-fine v (ground arith), fields-AreFine fs (ground arith))

  pub keys-valid : (v : Value) → is_fine v ≡ true → All (λ k. valid_string k ≡ true) (field_keys v)
  unfolding is_encodable
  keys-valid (object fs) f = valid fs f
    where
      valid :
          (fs : Fields)
          → fields_encodable fs ≡ true
          → All (λ k. valid_string k ≡ true) (map (λ f. f.0) (field_list fs))
      valid no_fields e = tt
      valid (field k v fs) e = (ground arith, valid fs (ground arith))
  keys-valid _ f = tt
