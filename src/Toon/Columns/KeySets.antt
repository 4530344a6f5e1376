-- ===== src/Toon/Columns/KeySets.antt =====
-- internal/toon/array.go: noDupKeySet and matchesKeySet compare the keys of objects.
use mini.Prelude.{
  ◌+◌, ◌≡◌, refl, true, ◌||◌, List, [], ◌∷◌, map, Option, none, some, Bytes, bytes_eq_refl,
  contains, ==_iff, length, all, All, arith,
}
use mini.Prelude.Map.{Map}
use mini.Toon.Value.{Value, fields_of}
use mini.Toon.Columns.{field_keys, no_dup_keys, keys_match, matches_key_set}
use mini.Toon.Columns.Found.{Found, Found-when}

-- As many fields as keys, and each field has one of them.
abbrev pub SameKeys : List Bytes → Value → Type 0
SameKeys keys v =
    (length (field_keys v) ≡ length keys) × (all (λ k. contains keys k) (field_keys v) ≡ true)

-- A set without duplicates is made of its keys.
abbrev pub IsSetOf : List Bytes → List Bytes → List Bytes → Type 0
IsSetOf set ks r =
    (length r ≡ length set + length ks)
    × ((k : Bytes) → contains r k ≡ true → (contains set k || contains ks k) ≡ true)

pub no_dup_keys-IsSetOf : (set ks : List Bytes) → Found (IsSetOf set ks) (no_dup_keys set ks)
unfolding no_dup_keys contains
no_dup_keys-IsSetOf set [] = (omega arith, λ k h. ground arith)
no_dup_keys-IsSetOf set (x ∷ ks) =
    Found-when _ (contains set x) (no_dup_keys (x ∷ set) ks)
      (later (no_dup_keys (x ∷ set) ks) (no_dup_keys-IsSetOf (x ∷ set) ks))
  where
    later :
        (o : Option (List Bytes)) → Found (IsSetOf (x ∷ set) ks) o → Found (IsSetOf set (x ∷ ks)) o
    later none h = tt
    later (some r) (n, h) = (omega arith, λ k m. ground (arith, h k m))

keys_match-all :
    (set seen ks : List Bytes) → keys_match set seen ks ≡ true → all (λ k. contains set k) ks ≡ true
unfolding keys_match
keys_match-all set seen [] h = refl
keys_match-all set seen (k ∷ ks) h = ground (arith, keys_match-all set (k ∷ seen) ks)

all-contains :
    (set keys ks : List Bytes)
    → ((k : Bytes) → contains set k ≡ true → contains keys k ≡ true)
    → all (λ k. contains set k) ks ≡ true
    → all (λ k. contains keys k) ks ≡ true
all-contains set keys [] f h = refl
all-contains set keys (k ∷ ks) f h = ground (arith, f k, all-contains set keys ks f)

length-field_keys : (v : Value) → length (field_keys v) ≡ length (fields_of v)
length-field_keys v = count (fields_of v)
  where
    count : (fs : Map Value) → length (map (λ f. f.0) fs) ≡ length fs
    count [] = refl
    count (f ∷ fs) = omega (arith, count fs)

matches_key_set-SameKeys :
    (keys set : List Bytes) (v : Value)
    → IsSetOf [] keys set
    → matches_key_set set v ≡ true
    → SameKeys keys v
unfolding contains
matches_key_set-SameKeys keys set v (n, member) h =
    let as_long = (==_iff (length (fields_of v)) (length set)).0 (ground (arith, h)) in
    let matched = keys_match-all set [] (field_keys v) (ground (arith, h)) in
    (
      omega (arith, length-field_keys v, as_long, n),
      all-contains set keys (field_keys v) (λ k m. member k m) matched,
    )

pub SameKeys-own : (v : Value) → SameKeys (field_keys v) v
unfolding contains
SameKeys-own v = (refl, every (field_keys v) (field_keys v) (λ k m. m))
  where
    every :
        (keys ks : List Bytes)
        → ((k : Bytes) → contains ks k ≡ true → contains keys k ≡ true)
        → all (λ k. contains keys k) ks ≡ true
    every keys [] f = refl
    every keys (k ∷ ks) f =
        ground
          (arith, f k (ground (arith, bytes_eq_refl k)), every keys ks (λ j m. f j (ground arith)))

pub all-SameKeys :
    (keys set : List Bytes) (vs : List Value)
    → IsSetOf [] keys set
    → all (matches_key_set set) vs ≡ true
    → All (SameKeys keys) vs
all-SameKeys keys set [] s h = tt
all-SameKeys keys set (v ∷ vs) s h = (
  matches_key_set-SameKeys keys set v s (ground (arith, h)),
  all-SameKeys keys set vs s (ground (arith, h)),
)
