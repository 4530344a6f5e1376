-- ===== src/Utf8.antt =====
-- Package unicode/utf8 and Go's `range` over a string, as far as the program uses them.
pub mod Decode
use mini.Prelude.{
  ℕ, zero, suc, ◌+◌, ◌-◌, ◌*◌, ◌/◌, ◌%◌, Bool, true, ◌&&◌, not, List, [], ◌∷◌, Bytes, ◌==◌, leb,
  ltb, if◌then◌else◌,
}

abbrev pub within : ℕ → ℕ → ℕ → Bool
within lo hi c = leb lo c && leb c hi

abbrev pub rune_error : ℕ
rune_error = 0xFFFD

abbrev pub is_continuation : ℕ → Bool
is_continuation = within 0x80 0xBF

-- A rune and its width; (rune_error, 1) at a byte that starts no valid encoding.
abbrev decode_two : ℕ → Bytes → ℕ × ℕ
decode_two a (b ∷ _) =
    if is_continuation b then ((a - 0xC0) * 64 + (b - 0x80), 2) else (rune_error, 1)
decode_two a [] = (rune_error, 1)

abbrev decode_three : ℕ → ℕ → ℕ → Bytes → ℕ × ℕ
decode_three a lo hi (b ∷ c ∷ _) =
    if within lo hi b && is_continuation c
    then ((a - 0xE0) * 4096 + (b - 0x80) * 64 + (c - 0x80), 3)
    else (rune_error, 1)
decode_three a lo hi _ = (rune_error, 1)

abbrev decode_four : ℕ → ℕ → ℕ → Bytes → ℕ × ℕ
decode_four a lo hi (b ∷ c ∷ d ∷ _) =
    if within lo hi b && is_continuation c && is_continuation d
    then ((a - 0xF0) * 262144 + (b - 0x80) * 4096 + (c - 0x80) * 64 + (d - 0x80), 4)
    else (rune_error, 1)
decode_four a lo hi _ = (rune_error, 1)

-- utf8.DecodeRuneInString
unfoldable pub decode_rune : Bytes → ℕ × ℕ
decode_rune [] = (rune_error, 0)
decode_rune (a ∷ s) =
    if ltb a 0x80
    then (a, 1)
    else if within 0xC2 0xDF a
    then decode_two a s
    else if a == 0xE0
    then decode_three a 0xA0 0xBF s
    else if a == 0xED
    then decode_three a 0x80 0x9F s
    else if within 0xE1 0xEF a
    then decode_three a 0x80 0xBF s
    else if a == 0xF0
    then decode_four a 0x90 0xBF s
    else if a == 0xF4
    then decode_four a 0x80 0x8F s
    else if within 0xF1 0xF3 a
    then decode_four a 0x80 0xBF s
    else (rune_error, 1)

-- The runes that `range` yields; the first argument counts bytes of a rune already yielded.
unfoldable pub runes_after : ℕ → Bytes → List ℕ
runes_after skip [] = []
runes_after zero (c ∷ cs) = let (r, n) = decode_rune (c ∷ cs) in r ∷ runes_after (n - 1) cs
runes_after (suc skip) (c ∷ cs) = runes_after skip cs

abbrev pub runes : Bytes → List ℕ
runes = runes_after 0

-- utf8.ValidString
unfoldable pub valid_after : ℕ → Bytes → Bool
valid_after skip [] = true
valid_after zero (c ∷ cs) =
    let (r, n) = decode_rune (c ∷ cs) in not (r == rune_error && n == 1) && valid_after (n - 1) cs
valid_after (suc skip) (c ∷ cs) = valid_after skip cs

abbrev pub valid_string : Bytes → Bool
valid_string = valid_after 0

-- utf8.AppendRune, for a rune that a string can yield.
unfoldable pub encode_rune : ℕ → Bytes
encode_rune r =
    if ltb r 0x80
    then r ∷ []
    else if ltb r 0x800
    then (0xC0 + r / 64) ∷ (0x80 + r % 64) ∷ []
    else if ltb r 0x10000
    then (0xE0 + r / 4096) ∷ (0x80 + r / 64 % 64) ∷ (0x80 + r % 64) ∷ []
    else (0xF0 + r / 262144) ∷ (0x80 + r / 4096 % 64) ∷ (0x80 + r / 64 % 64) ∷ (0x80 + r % 64) ∷ []
