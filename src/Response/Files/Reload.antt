-- ===== src/Response/Files/Reload.antt =====
-- internal/response: a store takes over the files that an earlier one has written.
use mini.Prelude.{
  ℕ, zero, suc, ◌+◌, ◌*◌, ◌/◌, ◌≤◌, ◌<◌, ◌≡◌, ap, refl, sym, subst, Bool, true, false, false≢true,
  ◌||◌, ◌&&◌, List, [], ◌∷◌, ◌++◌, append-nil, some, Bytes, codes, ◌==◌, ltb, leb, has_prefix,
  is_empty, all, All, take, if-elim, arith, bytes_eq_refl, inl, inr, ◌⊎◌,
}
use mini.Prelude.Decimal.{
  decimal, read_digits, is_decimal, all-decimal, all-append, is_empty-decimal, read_digits-decimal,
}
use mini.Response.Store.{Store}
use mini.Response.Files.{
  Creation, created, exists, failed, written, write_error, millisecond, max_int64, new_file_base,
  join, try_names, suffixed, after_attempt, create_unique_file, split_ext, contains_text,
  before_underscore, timestamp_part, positive, parse_positive, parse_timestamp,
  store_entry_if_fresh, load_entry,
}

-- A lower-case letter or a digit, as randutil.HexString writes them.
abbrev pub is_hex : ℕ → Bool
is_hex c = is_decimal c || (leb b'a' c && leb c b'f')

abbrev is_name_byte : ℕ → Bool
is_name_byte c = is_hex c || c == b'_'

split_ext-json : (b : Bytes) → split_ext (b ++ codes ".json") ≡ (b, codes ".json")
unfolding split_ext
split_ext-json [] = refl
split_ext-json (c ∷ b) = rw (split_ext-json b) refl

no_raw :
    (b : Bytes)
    → all is_name_byte b ≡ true
    → contains_text (b ++ codes ".json") (codes ".raw.") ≡ false
unfolding contains_text has_prefix
no_raw [] h = refl
no_raw (c ∷ b) h = ground (arith, no_raw b)

before_underscore-digits : (ds : Bytes) → all is_decimal ds ≡ true → before_underscore ds ≡ ds
unfolding before_underscore
before_underscore-digits [] h = refl
before_underscore-digits (c ∷ ds) h =
    if-elim (λ r. r ≡ c ∷ ds) (c == b'_') _ _ (λ e. absurd (ground (arith, e)))
      (λ e. ap (◌∷◌ c) (before_underscore-digits ds (ground arith)))

before_underscore-suffix :
    (ds rest : Bytes) → all is_decimal ds ≡ true → before_underscore (ds ++ b'_' ∷ rest) ≡ ds
unfolding before_underscore
before_underscore-suffix [] rest h = refl
before_underscore-suffix (c ∷ ds) rest h =
    if-elim (λ r. r ≡ c ∷ ds) (c == b'_') _ _ (λ e. absurd (ground (arith, e)))
      (λ e. ap (◌∷◌ c) (before_underscore-suffix ds rest (ground arith)))

timestamp_part-digits :
    (ds rest : Bytes)
    → is_empty ds ≡ false
    → all is_decimal ds ≡ true
    → timestamp_part (ds ++ rest) ≡ before_underscore (ds ++ rest)
unfolding timestamp_part before_underscore
timestamp_part-digits [] rest n h = absurd (false≢true (sym n))
timestamp_part-digits (c ∷ ds) rest n h =
    let other : (c == b'_') ≡ false = ground arith in rw other refl

parse_positive-digits :
    (ds : Bytes)
    → is_empty ds ≡ false
    → all is_decimal ds ≡ true
    → parse_positive ds ≡ positive (read_digits 0 ds)
unfolding parse_positive
parse_positive-digits [] n h = absurd (false≢true (sym n))
parse_positive-digits (c ∷ []) n h = refl
parse_positive-digits (c ∷ d ∷ ds) n h =
    let plain : (c == b'+') ≡ false = ground arith in rw plain refl

-- The names that createUniqueFile tries for a number of milliseconds.
TriedName : ℕ → Bytes → Type 0
TriedName millis name = (all is_name_byte name ≡ true) × (timestamp_part name ≡ decimal millis)

parse_timestamp-TriedName :
    (millis : ℕ) (name : Bytes)
    → TriedName millis name
    → 0 < millis
    → millis ≤ max_int64
    → parse_timestamp (name ++ codes ".json") ≡ some (millis * millisecond)
unfolding parse_timestamp TriedName
parse_timestamp-TriedName millis name t above below =
    let in_range : (ltb 0 millis && leb millis max_int64) ≡ true = ground (arith, above, below) in
    rw (split_ext-json name) (
      rw t.1 (
        rw (parse_positive-digits (decimal millis) (is_empty-decimal millis) (all-decimal millis))
          (rw (read_digits-decimal millis) (rw in_range refl))))

is_name_byte-decimal : (ds : Bytes) → all is_decimal ds ≡ true → all is_name_byte ds ≡ true
is_name_byte-decimal [] h = refl
is_name_byte-decimal (c ∷ ds) h = ground (arith, is_name_byte-decimal ds)

is_name_byte-hex : (hex : Bytes) → all is_hex hex ≡ true → all is_name_byte hex ≡ true
is_name_byte-hex [] h = refl
is_name_byte-hex (c ∷ hex) h = ground (arith, is_name_byte-hex hex)

base-TriedName : (millis : ℕ) → TriedName millis (decimal millis)
unfolding TriedName
base-TriedName millis =
    let ds = decimal millis in
    (
      is_name_byte-decimal ds (all-decimal millis),
      subst (λ l. timestamp_part l ≡ ds) (append-nil ds)
          (rw (timestamp_part-digits ds [] (is_empty-decimal millis) (all-decimal millis))
            (rw (append-nil ds) (before_underscore-digits ds (all-decimal millis)))),
    )

suffixed-TriedName :
    (millis : ℕ) (hex : Bytes)
    → all is_hex hex ≡ true
    → TriedName millis (decimal millis ++ b'_' ∷ hex)
unfolding TriedName
suffixed-TriedName millis hex h =
    let ds = decimal millis in
    (
      all-append is_name_byte ds (b'_' ∷ hex) (is_name_byte-decimal ds (all-decimal millis))
          (is_name_byte-hex hex h),
      rw (timestamp_part-digits ds (b'_' ∷ hex) (is_empty-decimal millis) (all-decimal millis))
          (before_underscore-suffix ds hex (all-decimal millis)),
    )

suffixed-All :
    (millis n : ℕ) (suffixes : List Bytes)
    → All (λ x. all is_hex x ≡ true) suffixes
    → All (TriedName millis) (suffixed (decimal millis) (take n suffixes))
suffixed-All millis zero suffixes h = tt
suffixed-All millis (suc n) [] h = tt
suffixed-All millis (suc n) (x ∷ suffixes) h =
    (suffixed-TriedName millis x h.0, suffixed-All millis n suffixes h.1)

Creation-cases : (c : Creation) → (c ≡ created) ⊎ (c ≡ exists) ⊎ (c ≡ failed)
Creation-cases created = inl refl
Creation-cases exists = inr (inl refl)
Creation-cases failed = inr (inr refl)

written-injective : (a b : Bytes) → written a ≡ written b → a ≡ b
written-injective a b h = cc

not_written : (a : Bytes) → write_error ≡ written a → ⊥
not_written a h = cc

-- A file that is written has one of the tried names, and did not exist.
try_names-written :
    (create_file : Bytes → Creation) (P : Bytes → Type 0) (dir : Bytes) (names : List Bytes)
    (path : Bytes)
    → All P names
    → try_names create_file dir names ≡ written path
    → (name : Bytes) × P name
      × (path ≡ join dir (name ++ codes ".json"))
      × (create_file path ≡ created)
unfolding try_names
try_names-written create_file P dir [] path h e = absurd cc
try_names-written create_file P dir (name ∷ names) path h e =
    let tried = join dir (name ++ codes ".json") in
    let rest = try_names create_file dir names in
    elim (Creation-cases (create_file tried)) [
      | inl c ↦
          let same : tried ≡ path =
            written-injective tried path
              (subst (λ a. after_attempt a tried rest ≡ written path) c e) in
          (name, h.0, sym same, rw (← same) c)
      | inr (inl c) ↦
          try_names-written create_file P dir names path h.1
            (subst (λ a. after_attempt a tried rest ≡ written path) c e)
      | inr (inr c) ↦
          absurd (not_written path (subst (λ a. after_attempt a tried rest ≡ written path) c e))
    ]

-- loadExisting of a later store takes over a file that WriteRaw has made, with the time of its
-- name as the time of its creation, if that time is above 0, fits an int64 and has not expired.
pub load_entry-create_unique_file :
    (create_file : Bytes → Creation) (dir : Bytes) (now : ℕ) (suffixes : List Bytes) (path : Bytes)
    (size later : ℕ) (s : Store)
    → All (λ x. all is_hex x ≡ true) suffixes
    → create_unique_file create_file dir (new_file_base now) suffixes ≡ written path
    → 0 < now / millisecond
    → now / millisecond ≤ max_int64
    → later ≤ now / millisecond * millisecond + s.ttl
    → (name : Bytes) × (path ≡ join dir name)
      × (create_file path ≡ created)
      × (load_entry dir later (record { name = name; is_dir = false; size = some size }) s
          ≡ record s {
            files =
                s.files
                ++ record {
                  path = path;
                  size = size;
                  expires = now / millisecond * millisecond + s.ttl;
                }
                  ∷ [];
            used_bytes = s.used_bytes + size;
          })
unfolding create_unique_file new_file_base load_entry store_entry_if_fresh TriedName
load_entry-create_unique_file create_file dir now suffixes path size later s hex w above below
      fresh =
    let millis = now / millisecond in
    let (name, t, p, new) =
      try_names-written create_file (TriedName millis) dir _ path
        (base-TriedName millis, suffixed-All millis 4 suffixes hex) w in
    let not_stale : ltb (millis * millisecond + s.ttl) later ≡ false = ground (arith, fresh) in
    (
      name ++ codes ".json",
      p,
      new,
      rw (split_ext-json name) (
          rw (bytes_eq_refl (codes ".json")) (
            rw (no_raw name t.0) (
              rw (parse_timestamp-TriedName millis name t above below)
                (rw not_stale (rw p refl))))),
    )
