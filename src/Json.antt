-- ===== src/Json.antt =====
-- encoding/json's string encoding, as json.Marshal has it: HTML characters are escaped too.
use mini.Prelude.{
  ℕ, zero, suc, ◌+◌, ◌-◌, ◌/◌, ◌%◌, ◌&&◌, ◌||◌, [], ◌∷◌, ◌++◌, Bytes, codes, take, ◌==◌, ltb,
  if◌then◌else◌,
}
use mini.Utf8.{rune_error, decode_rune}

abbrev pub hex_digit : ℕ → ℕ
hex_digit d = if ltb d 10 then d + b'0' else d + 87

abbrev pub escape_with : ℕ → Bytes
escape_with c = b'\\' ∷ c ∷ []

-- \u00XX
abbrev pub unicode_escape : ℕ → Bytes
unicode_escape c = b'\\' ∷ b'u' ∷ b'0' ∷ b'0' ∷ hex_digit (c / 16) ∷ hex_digit (c % 16) ∷ []

unfoldable pub marshal_ascii : ℕ → Bytes
marshal_ascii c =
    if c == b'\\' || c == b'"'
    then escape_with c
    else if c == 8
    then escape_with b'b'
    else if c == 12
    then escape_with b'f'
    else if c == b'\n'
    then escape_with b'n'
    else if c == b'\r'
    then escape_with b'r'
    else if c == b'\t'
    then escape_with b't'
    else if ltb c 0x20 || c == b'<' || c == b'>' || c == b'&'
    then unicode_escape c
    else c ∷ []

-- What one rune and its bytes become.
unfoldable pub marshal_rune : ℕ → ℕ → Bytes → Bytes
unfolding marshal_ascii
marshal_rune r n encoded =
    if ltb r 0x80
    then marshal_ascii r
    else if r == rune_error && n == 1
    then codes "\\ufffd"
    else if r == 0x2028
    then codes "\\u2028"
    else if r == 0x2029
    then codes "\\u2029"
    else encoded

-- The first argument counts bytes of a rune already written.
unfoldable pub marshal_after : ℕ → Bytes → Bytes
marshal_after skip [] = []
marshal_after zero (c ∷ cs) =
    let (r, n) = decode_rune (c ∷ cs) in
    marshal_rune r n (take n (c ∷ cs)) ++ marshal_after (n - 1) cs
marshal_after (suc skip) (c ∷ cs) = marshal_after skip cs

unfoldable pub marshal_string : Bytes → Bytes
unfolding marshal_after
marshal_string s = b'"' ∷ (marshal_after 0 s ++ (b'"' ∷ []))
