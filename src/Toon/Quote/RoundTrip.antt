-- ===== src/Toon/Quote/RoundTrip.antt =====
-- A reader of the strings that internal/toon/quote.go writes, by spec §7.1, and the round trip.
use mini.Prelude.{
  ℕ, zero, suc, ◌+◌, ◌-◌, ◌*◌, ◌/◌, ◌%◌, ◌≤◌, ◌<◌, ◌≡◌, ◌≢◌, refl, sym, ap, subst, ◌∙◌, true, ◌||◌,
  List, [], ◌∷◌, ◌++◌, Option, none, some, Bytes, append_assoc, append-nil, ◌==◌, leb, ltb, all,
  drop, if◌then◌else◌, if-elim, Bool-cases, inl, inr, arith,
}
use mini.Utf8.{runes, runes_after, valid_after, valid_string, encode_rune, decode_rune}
use mini.Utf8.Decode.{decode_rune-GivesBack, encode_rune-ascii, encode_rune-high, decode_rune-width}
use mini.Json.{hex_digit}
use mini.Toon.Quote.{write_escaped, escape_runes, quote_string}

-- Inside the quotes, behind a backslash, in \uXXXX with so many digits to come, or at the end.
pub data Mode : Type 0 where
  plain escaped closed : Mode
  hex : ℕ → ℕ → Mode

abbrev pub hex_value : ℕ → ℕ
hex_value c = if ltb c b'a' then c - b'0' else c - 87

abbrev pub escape_value : ℕ → Option (Bytes × Mode)
escape_value c =
    if c == b'u'
    then some ([], hex 3 0)
    else if c == b'n'
    then some (b'\n' ∷ [], plain)
    else if c == b'r'
    then some (b'\r' ∷ [], plain)
    else if c == b't'
    then some (b'\t' ∷ [], plain)
    else if c == b'\\' || c == b'"'
    then some (c ∷ [], plain)
    else none

-- What one byte yields, and the mode behind it.
abbrev pub read_byte : Mode → ℕ → Option (Bytes × Mode)
read_byte plain c =
    if c == b'\\'
    then some ([], escaped)
    else if c == b'"'
    then some ([], closed)
    else some (c ∷ [], plain)
read_byte escaped c = escape_value c
read_byte closed c = none
read_byte (hex zero acc) c = some (encode_rune (acc * 16 + hex_value c), plain)
read_byte (hex (suc n) acc) c = some ([], hex n (acc * 16 + hex_value c))

abbrev pub prepend : Bytes → Option Bytes → Option Bytes
prepend a none = none
prepend a (some s) = some (a ++ s)

pub read : Mode → Bytes → Option Bytes
read closed [] = some []
read _ [] = none
read m (c ∷ cs) = elim (read_byte m c) [
  | none ↦ none
  | some (out, next) ↦ prepend out (read next cs)
]

-- The string that a quoted or an unquoted token stands for.
unfoldable pub read_string : Bytes → Option Bytes
unfolding read
read_string [] = some []
read_string (c ∷ cs) = if c == b'"' then read plain cs else some (c ∷ cs)

-- A piece of the body that reads as `out`.
record Reads (piece out : Bytes) : Type 0 where
  at : (rest : Bytes) → read plain (piece ++ rest) ≡ prepend out (read plain rest)

prepend-prepend : (a b : Bytes) (o : Option Bytes) → prepend a (prepend b o) ≡ prepend (a ++ b) o
prepend-prepend a b none = refl
prepend-prepend a b (some s) = ap some (sym (append_assoc a b s))

prepend-nil : (o : Option Bytes) → prepend [] o ≡ o
prepend-nil none = refl
prepend-nil (some s) = refl

nil-Reads : Reads [] []
nil-Reads = record { at = λ rest. sym (prepend-nil _) }

byte-Reads : (c : ℕ) (s : Bytes) → c ≢ b'\\' → c ≢ b'"' → Reads s s → Reads (c ∷ s) (c ∷ s)
unfolding read
byte-Reads c s h k r = record {
  at = λ rest. ground (arith, r.at rest, prepend-prepend (c ∷ []) s (read plain rest));
}

high-Reads : (s : Bytes) → all (λ b. leb 0x80 b) s ≡ true → Reads s s
high-Reads [] h = nil-Reads
high-Reads (c ∷ s) h = byte-Reads c s (ground arith) (ground arith) (high-Reads s (ground arith))

escape-Reads :
    (c : ℕ) (out : Bytes) → read_byte escaped c ≡ some (out, plain) → Reads (b'\\' ∷ c ∷ []) out
unfolding read
escape-Reads c out e = record { at = λ rest. rw e (prepend-nil (prepend out (read plain rest))) }

hex_value-hex_digit : (d : ℕ) → d < 16 → hex_value (hex_digit d) ≡ d
hex_value-hex_digit d h = ground arith

unicode-Reads :
    (r : ℕ)
    → r < 32
    → Reads (b'\\' ∷ b'u' ∷ b'0' ∷ b'0' ∷ hex_digit (r / 16) ∷ hex_digit (r % 16) ∷ []) (r ∷ [])
unfolding read
unicode-Reads r h = record {
  at = λ rest.
      let digits : (0 * 16 + hex_value (hex_digit (r / 16))) * 16 + hex_value (hex_digit (r % 16))
          ≡ r =
        omega (
          arith,
          hex_value-hex_digit (r / 16) (omega arith),
          hex_value-hex_digit (r % 16) (omega arith),
        ) in
      simp (prepend-nil, digits, encode_rune-ascii r (omega arith));
}

encode_rune-Reads : (r : ℕ) → r ≢ b'\\' → r ≢ b'"' → Reads (encode_rune r) (encode_rune r)
encode_rune-Reads r h k = elim (Bool-cases (ltb r 0x80)) [
  | inl low ↦ rw (encode_rune-ascii r (ground arith)) (byte-Reads r [] h k nil-Reads)
  | inr high ↦ high-Reads (encode_rune r) (encode_rune-high r (ground arith))
]

write_escaped-Reads : (r : ℕ) → Reads (write_escaped r) (encode_rune r)
unfolding write_escaped
write_escaped-Reads r =
    let P = λ (s : Bytes). Reads s (encode_rune r) in
    let special =
      λ (c out : ℕ) (e : r ≡ out) (small : out < 0x80)
          (x : read_byte escaped c ≡ some (out ∷ [], plain)).
        let e' : encode_rune r ≡ out ∷ [] = rw e (encode_rune-ascii out small) in
        subst (Reads (b'\\' ∷ c ∷ [])) (sym e') (escape-Reads c (out ∷ []) x) in
    if-elim P (r == b'\\') _ _ (λ h. special b'\\' b'\\' (ground arith) (omega arith) refl)
      λ h1.
        if-elim P (r == b'"') _ _ (λ h. special b'"' b'"' (ground arith) (omega arith) refl)
          λ h2.
            if-elim P (r == b'\n') _ _ (λ h. special b'n' b'\n' (ground arith) (omega arith) refl)
              λ h3.
                if-elim P (r == b'\r') _ _
                  (λ h. special b'r' b'\r' (ground arith) (omega arith) refl)
                  λ h4.
                    if-elim P (r == b'\t') _ _
                      (λ h. special b't' b'\t' (ground arith) (omega arith) refl)
                      λ h5.
                        if-elim P (leb r 0x1F) _ _
                          (λ h.
                            rw (encode_rune-ascii r (ground arith))
                              (unicode-Reads r (ground arith)))
                          λ h6. encode_rune-Reads r (ground arith) (ground arith)

append-Reads : (a b x y : Bytes) → Reads a x → Reads b y → Reads (a ++ b) (x ++ y)
append-Reads a b x y p q = record {
  at = λ rest.
      rw append_assoc
        (p.at (b ++ rest) ∙ ap (prepend x) (q.at rest) ∙ prepend-prepend x y (read plain rest));
}

drop_decoded :
    (c : ℕ) (cs : Bytes)
    → encode_rune (decode_rune (c ∷ cs)).0 ++ drop ((decode_rune (c ∷ cs)).1 - 1) cs
      ≡ encode_rune (decode_rune (c ∷ cs)).0 ++ drop (decode_rune (c ∷ cs)).1 (c ∷ cs)
drop_decoded c cs =
    ap (λ t. encode_rune (decode_rune (c ∷ cs)).0 ++ t)
      (go (decode_rune (c ∷ cs)).1 (decode_rune-width c cs))
  where
    go : (n : ℕ) → 1 ≤ n → drop (n - 1) cs ≡ drop n (c ∷ cs)
    go zero h = absurd (omega arith)
    go (suc n) h = let less : suc n - 1 ≡ n = omega arith in rw less refl

-- The bytes of runes.
pub encode_runes : List ℕ → Bytes
encode_runes [] = []
encode_runes (r ∷ rs) = encode_rune r ++ encode_runes rs

escape_runes-Reads : (rs : List ℕ) → Reads (escape_runes rs) (encode_runes rs)
unfolding escape_runes encode_runes
escape_runes-Reads [] = nil-Reads
escape_runes-Reads (r ∷ rs) = append-Reads _ _ _ _ (write_escaped-Reads r) (escape_runes-Reads rs)

encode_runes-runes_after :
    (s : Bytes) (skip : ℕ)
    → valid_after skip s ≡ true
    → encode_runes (runes_after skip s) ≡ drop skip s
unfolding runes_after valid_after encode_runes
encode_runes-runes_after [] zero v = refl
encode_runes-runes_after [] (suc skip) v = refl
encode_runes-runes_after (c ∷ cs) (suc skip) v = encode_runes-runes_after cs skip v
encode_runes-runes_after (c ∷ cs) zero v =
    let n = (decode_rune (c ∷ cs)).1 in
    let tail : valid_after (n - 1) cs ≡ true = ground arith in
    rw (encode_runes-runes_after cs (n - 1) tail)
      (drop_decoded c cs ∙ decode_rune-GivesBack c cs (ground arith))

pub read-quote_string : (s : Bytes) → valid_string s ≡ true → read_string (quote_string s) ≡ some s
unfolding read_string quote_string
read-quote_string s v =
    (escape_runes-Reads (runes s)).at (b'"' ∷ [])
    ∙ ap some (append-nil (encode_runes (runes s)) ∙ encode_runes-runes_after s 0 v)
