-- ===== src/Toon/Quote/Plain.antt =====
-- internal/toon/quote.go: a string that is written without quotes is not taken for anything else.
use mini.Prelude.{
  ℕ, ◌≡◌, ◌⊎◌, inl, inr, refl, sym, ap, ◌∙◌, Bool, true, false, false≢true, ◌&&◌, ◌||◌, [], ◌∷◌,
  ◌++◌, some, Bytes, codes, bytes_eq, bytes_eq_iff, has_prefix, ◌==◌, leb, all, any, Bool-cases,
  arith,
}
use mini.Utf8.{runes, runes_after, valid_string}
use mini.Utf8.Decode.{decode_rune-ascii}
use mini.Toon.Quote.{
  is_numeric_like, is_letter, is_key_byte, is_unquoted_key, is_structural, is_ascii_space,
  first_rune, last_byte, has_leading_or_trailing_ascii_space, needs_quoting, quote_string,
  encode_string, encode_key,
}
use mini.Toon.Quote.Numerals.{IsNumeral, is_numeric_like-IsNumeral}
use mini.Toon.Quote.RoundTrip.{read_string}
use mini.Toon.Quote.Tokens.{
  is_control, read_string-encode_string, read_string-encode_key, encode_string_one_line,
  encode_key_one_line,
}

abbrev pub is_space : ℕ → Bool
is_space c = c == 32 || (leb 9 c && leb c 13)

abbrev pub is_delimiter : ℕ → Bool
is_delimiter c = any (λ d. c == d) (codes ":,\"\\[]{}")

-- A reader takes the token for a string, as it stands: not for a literal, a number, a comment or an
-- item of a list, and it has no edges to be trimmed and no delimiters.
pub record IsPlain (t : Bytes) : Type 0 where
  pub not_empty : ¬ (t ≡ [])
  pub not_true : ¬ (t ≡ codes "true")
  pub not_false : ¬ (t ≡ codes "false")
  pub not_null : ¬ (t ≡ codes "null")
  pub not_number : ¬ IsNumeral t
  pub not_comment : (rest : Bytes) → ¬ (t ≡ b'#' ∷ rest)
  pub not_item : (rest : Bytes) → ¬ (t ≡ b'-' ∷ rest)
  pub no_space_before : (c : ℕ) (rest : Bytes) → t ≡ c ∷ rest → is_space c ≡ false
  pub no_space_behind : (c : ℕ) (front : Bytes) → t ≡ front ++ c ∷ [] → is_space c ≡ false
  pub no_delimiter : any is_delimiter t ≡ false

abbrev pub is_quoted : Bytes → Bool
is_quoted [] = false
is_quoted (c ∷ cs) = c == b'"'

last_byte-append : (front : Bytes) (c : ℕ) → last_byte (front ++ c ∷ []) ≡ c
last_byte-append [] c = refl
last_byte-append (a ∷ []) c = refl
last_byte-append (a ∷ b ∷ front) c = last_byte-append (b ∷ front) c

first_rune-space : (c : ℕ) (rest : Bytes) → is_space c ≡ true → first_rune (runes (c ∷ rest)) ≡ c
unfolding runes_after
first_rune-space c rest h = rw (decode_rune-ascii c rest (ground arith)) refl

any-delimiter : (s : Bytes) → any is_structural s ≡ false → any is_delimiter s ≡ false
unfolding is_structural
any-delimiter [] h = refl
any-delimiter (c ∷ s) h = ground (arith, any-delimiter s)

needs_quoting-parts :
    (s : Bytes)
    → needs_quoting s ≡ false
    → (bytes_eq s [] ≡ false)
      × (has_leading_or_trailing_ascii_space s ≡ false)
      × (bytes_eq s (codes "true") ≡ false)
      × (bytes_eq s (codes "false") ≡ false)
      × (bytes_eq s (codes "null") ≡ false)
      × (is_numeric_like s ≡ false)
      × (any is_structural s ≡ false)
      × (has_prefix s (b'#' ∷ []) ≡ false)
      × (has_prefix s (b'-' ∷ []) ≡ false)
unfolding needs_quoting
needs_quoting-parts s h = ground arith

differs : (s t : Bytes) → bytes_eq s t ≡ false → ¬ (s ≡ t)
differs s t h e = absurd (ground (arith, bytes_eq_iff s t))

begins_otherwise : (s rest : Bytes) (c : ℕ) → has_prefix s (c ∷ []) ≡ false → ¬ (s ≡ c ∷ rest)
unfolding has_prefix
begins_otherwise s rest c h e = absurd (ground (arith, sym (ap (λ r. has_prefix r (c ∷ [])) e) ∙ h))

needs_quoting-IsPlain : (s : Bytes) → needs_quoting s ≡ false → IsPlain s
unfolding has_leading_or_trailing_ascii_space is_ascii_space
needs_quoting-IsPlain s q =
    let (empty, edges, true_, false_, null_, numeral, structural, hash, dash) =
      needs_quoting-parts s q in
    record {
      not_empty = differs s [] empty;
      not_true = differs s (codes "true") true_;
      not_false = differs s (codes "false") false_;
      not_null = differs s (codes "null") null_;
      not_number = λ n. false≢true (sym numeral ∙ is_numeric_like-IsNumeral s n);
      not_comment = λ rest. begins_otherwise s rest b'#' hash;
      not_item = λ rest. begins_otherwise s rest b'-' dash;
      no_space_before = λ c rest e. elim (Bool-cases (is_space c)) [
        | inl h ↦
            let first = ap (λ r. first_rune (runes r)) e ∙ first_rune-space c rest h in
            absurd (ground arith)
        | inr h ↦ h
      ];
      no_space_behind = λ c front e. elim (Bool-cases (is_space c)) [
        | inl h ↦ let last = ap last_byte e ∙ last_byte-append front c in absurd (ground arith)
        | inr h ↦ h
      ];
      no_delimiter = any-delimiter s structural;
    }

key_byte-delimiter : (s : Bytes) → all is_key_byte s ≡ true → any is_delimiter s ≡ false
key_byte-delimiter [] h = refl
key_byte-delimiter (c ∷ s) h =
    let one : is_key_byte c ≡ true = ground arith in
    let key : is_delimiter c ≡ false = ground (arith, one) in
    let rest : all is_key_byte s ≡ true = ground arith in rw key (key_byte-delimiter s rest)

unquoted_key-delimiter : (k : Bytes) → is_unquoted_key k ≡ true → any is_delimiter k ≡ false
unfolding is_unquoted_key
unquoted_key-delimiter [] h = refl
unquoted_key-delimiter (c ∷ cs) h =
    let letter : (is_letter c || c == b'_') ≡ true = ground arith in
    let rest : all is_key_byte cs ≡ true = ground arith in
    let first : is_delimiter c ≡ false = ground (arith, letter) in
    rw first (key_byte-delimiter cs rest)

-- A token for s: on one line, and what it quotes, if it is quoted, or it itself is s.
abbrev pub IsToken : Bytes → Bytes → Type 0
IsToken s t = (read_string t ≡ some s) × (any is_control t ≡ false)

encode_string-quoted :
    (s : Bytes) → (is_quoted (encode_string s) ≡ true) ⊎ IsPlain (encode_string s)
unfolding encode_string quote_string
encode_string-quoted s = elim (Bool-cases (needs_quoting s)) [
  | inl q ↦ rw q (inl refl)
  | inr q ↦ rw q (inr (needs_quoting-IsPlain s q))
]

encode_key-quoted :
    (k : Bytes) → (is_quoted (encode_key k) ≡ true) ⊎ (any is_delimiter (encode_key k) ≡ false)
unfolding encode_key quote_string
encode_key-quoted k = elim (Bool-cases (is_unquoted_key k)) [
  | inl h ↦ rw h (inr (unquoted_key-delimiter k h))
  | inr h ↦ rw h (inl refl)
]

-- The tokens that encodeString and encodeKey write for a valid UTF-8 string hold no control
-- character, and a reader of tokens gets the string back from both. A token of encodeString
-- without quotes is a string to a reader of types: it is not empty, no literal, no number, has
-- no space at its edges and no delimiter, and begins with neither "#" nor "-". One of encodeKey
-- without quotes has no delimiter.
pub encode_string-IsToken :
    (s : Bytes)
    → valid_string s ≡ true
    → IsToken s (encode_string s)
      × ((is_quoted (encode_string s) ≡ true) ⊎ IsPlain (encode_string s))
      × IsToken s (encode_key s)
      × ((is_quoted (encode_key s) ≡ true) ⊎ (any is_delimiter (encode_key s) ≡ false))
encode_string-IsToken s v = (
  (read_string-encode_string s v, encode_string_one_line s),
  encode_string-quoted s,
  (read_string-encode_key s v, encode_key_one_line s),
  encode_key-quoted s,
)
