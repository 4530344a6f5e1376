-- ===== src/Toon/Quote/Tokens.antt =====
-- What a reader and a line of the output can rely on, of the strings and keys that
-- internal/toon/quote.go writes.
use mini.Prelude.{
  ℕ, ◌/◌, ◌%◌, ◌≤◌, ◌<◌, ◌≡◌, refl, sym, ◌∙◌, Bool, true, false, List, [], ◌∷◌, ◌++◌, some, Bytes,
  bytes_eq, ◌==◌, leb, ltb, all, any, if-elim, Bool-cases, inl, inr, arith,
}
use mini.Utf8.{runes, valid_string, encode_rune}
use mini.Utf8.Decode.{any-runes, encode_rune-ascii, encode_rune-high}
use mini.Json.{hex_digit}
use mini.Toon.Quote.{
  is_structural, is_key_byte, is_unquoted_key, contains_control_char, needs_quoting, write_escaped,
  escape_runes, quote_string, encode_string, encode_key,
}
use mini.Toon.Quote.RoundTrip.{read_string, read-quote_string}

needs_quoting-false :
    (s : Bytes)
    → needs_quoting s ≡ false
    → (bytes_eq s [] ≡ false) × (any is_structural s ≡ false) × (contains_control_char s ≡ false)
unfolding needs_quoting
needs_quoting-false s h = ground arith

read_unquoted :
    (s : Bytes) → bytes_eq s [] ≡ false → any is_structural s ≡ false → read_string s ≡ some s
unfolding read_string is_structural bytes_eq
read_unquoted [] e h = cc
read_unquoted (c ∷ cs) e h = ground arith

-- A reader of the token that encodeString writes gets the string back, if it was valid UTF-8.
pub read_string-encode_string :
    (s : Bytes) → valid_string s ≡ true → read_string (encode_string s) ≡ some s
unfolding encode_string
read_string-encode_string s v = elim (Bool-cases (needs_quoting s)) [
  | inl q ↦ rw q (read-quote_string s v)
  | inr q ↦ let (ne, plain, _) = needs_quoting-false s q in rw q (read_unquoted s ne plain)
]

unquoted_key-plain : (k : Bytes) → is_unquoted_key k ≡ true → read_string k ≡ some k
unfolding is_unquoted_key read_string
unquoted_key-plain [] h = cc
unquoted_key-plain (c ∷ cs) h = ground arith

-- A reader of the token that encodeKey writes gets the key back, if it was valid UTF-8.
pub read_string-encode_key :
    (k : Bytes) → valid_string k ≡ true → read_string (encode_key k) ≡ some k
unfolding encode_key
read_string-encode_key k v = elim (Bool-cases (is_unquoted_key k)) [
  | inl h ↦ rw h (unquoted_key-plain k h)
  | inr h ↦ rw h (read-quote_string k v)
]

abbrev pub is_control : ℕ → Bool
is_control c = leb c 0x1F

any-append :
    (a b : Bytes)
    → any is_control a ≡ false
    → any is_control b ≡ false
    → any is_control (a ++ b) ≡ false
any-append [] b h k = k
any-append (c ∷ a) b h k = ground (arith, any-append a b)

any-high : (s : Bytes) → all (λ b. leb 0x80 b) s ≡ true → any is_control s ≡ false
any-high [] h = refl
any-high (c ∷ s) h = ground (arith, any-high s)

hex_digit-control : (d : ℕ) → d < 16 → is_control (hex_digit d) ≡ false
hex_digit-control d h = ground arith

encode_rune-control : (r : ℕ) → 0x20 ≤ r → any is_control (encode_rune r) ≡ false
encode_rune-control r h = elim (Bool-cases (ltb r 0x80)) [
  | inl low ↦ rw (encode_rune-ascii r (ground arith)) (ground arith)
  | inr high ↦ any-high (encode_rune r) (encode_rune-high r (ground arith))
]

write_escaped-control : (r : ℕ) → any is_control (write_escaped r) ≡ false
unfolding write_escaped
write_escaped-control r =
    let P = λ (s : Bytes). any is_control s ≡ false in
    if-elim P (r == b'\\') _ _ (λ h. refl)
      λ h1.
        if-elim P (r == b'"') _ _ (λ h. refl)
          λ h2.
            if-elim P (r == b'\n') _ _ (λ h. refl)
              λ h3.
                if-elim P (r == b'\r') _ _ (λ h. refl)
                  λ h4.
                    if-elim P (r == b'\t') _ _ (λ h. refl)
                      λ h5.
                        if-elim P (leb r 0x1F) _ _
                          (λ h.
                            let low : r ≤ 31 = ground arith in
                            let a = hex_digit-control (r / 16) (omega arith) in
                            let b = hex_digit-control (r % 16) (omega arith) in rw (a, b) refl)
                          λ h6. encode_rune-control r (ground arith)

escape_runes-control : (rs : List ℕ) → any is_control (escape_runes rs) ≡ false
unfolding escape_runes
escape_runes-control [] = refl
escape_runes-control (r ∷ rs) =
    any-append (write_escaped r) _ (write_escaped-control r) (escape_runes-control rs)

quote_string-control : (s : Bytes) → any is_control (quote_string s) ≡ false
unfolding quote_string
quote_string-control s = any-append (escape_runes (runes s)) _ (escape_runes-control (runes s)) refl

control-runes : (s : Bytes) → contains_control_char s ≡ any is_control s
unfolding contains_control_char
control-runes s = any-runes is_control (λ r h. ground arith) s

-- Whatever the string, the token that encodeString writes holds no control character, so no line
-- break.
pub encode_string_one_line : (s : Bytes) → any is_control (encode_string s) ≡ false
unfolding encode_string
encode_string_one_line s = elim (Bool-cases (needs_quoting s)) [
  | inl q ↦ rw q (quote_string-control s)
  | inr q ↦ rw q (sym (control-runes s) ∙ (needs_quoting-false s q).2)
]

all-control :
    (p : ℕ → Bool) (s : Bytes)
    → ((c : ℕ) → p c ≡ true → is_control c ≡ false)
    → all p s ≡ true
    → any is_control s ≡ false
all-control p [] plain h = refl
all-control p (c ∷ s) plain h =
    let t : p c ≡ true = ground arith in
    let r : all p s ≡ true = ground arith in rw (plain c t, all-control p s plain r) refl

unquoted_key-control : (k : Bytes) → is_unquoted_key k ≡ true → any is_control k ≡ false
unfolding is_unquoted_key
unquoted_key-control [] h = refl
unquoted_key-control (c ∷ cs) h = ground (arith, all-control is_key_byte cs (λ d e. ground arith))

pub encode_key_one_line : (k : Bytes) → any is_control (encode_key k) ≡ false
unfolding encode_key
encode_key_one_line k = elim (Bool-cases (is_unquoted_key k)) [
  | inl h ↦ rw h (unquoted_key-control k h)
  | inr h ↦ rw h (quote_string-control k)
]
