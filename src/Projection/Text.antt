-- ===== src/Projection/Text.antt =====
-- internal/projection/engine.go: truncateAtBoundary and the scans that it makes.
pub mod Bounds
use mini.Prelude.{
  ℕ, zero, suc, ◌+◌, ◌-◌, Bool, ◌||◌, Option, none, some, [], ◌∷◌, Bytes, ◌==◌, leb, ltb, length,
  take, drop, get_elem?, if◌then◌else◌, false,
}
use mini.Utf8.{decode_rune}

-- The offset behind n runes from offset i, or the length of the text if it ends before.
unfoldable pub rune_offset_from : ℕ → Bytes → ℕ → ℕ
rune_offset_from zero s i = i
rune_offset_from (suc n) s i =
    let next = i + (decode_rune (drop i s)).1 in
    let rest = rune_offset_from n s next in if leb (length s) next then length s else rest

unfoldable pub rune_offset : Bytes → ℕ → ℕ
rune_offset s n = rune_offset_from n s 0

abbrev matches_at : (ℕ → Bool) → Option ℕ → Bool
matches_at test none = false
matches_at test (some b) = test b

-- scanBackward from offset i down to above `floor`; `none` is -1.
unfoldable pub scan_backward_from : ℕ → Bytes → ℕ → (ℕ → Bool) → Option ℕ
scan_backward_from zero text floor test = none
scan_backward_from (suc i) text floor test =
    let rest = scan_backward_from i text floor test in
    if ltb floor (suc i)
    then (if matches_at test (get_elem? text (suc i)) then some (suc i) else rest)
    else none

unfoldable pub scan_backward : Bytes → ℕ → ℕ → (ℕ → Bool) → Option ℕ
scan_backward text limit window test = scan_backward_from limit text (limit - window) test

abbrev pub is_sentence_end : ℕ → Bool
is_sentence_end b = b == b'.' || b == b'\n'

abbrev cut_at_word : Bytes → ℕ → Option ℕ → Bytes
cut_at_word s byte_limit none = take byte_limit s
cut_at_word s byte_limit (some word_cut) = take word_cut s

abbrev cut_at_sentence : Bytes → ℕ → Option ℕ → Bytes
cut_at_sentence s byte_limit none =
    cut_at_word s byte_limit (scan_backward s byte_limit 50 (λ b. b == b' '))
cut_at_sentence s byte_limit (some sentence_cut) = take (sentence_cut + 1) s

unfoldable pub truncate_at_boundary : Bytes → ℕ → Bytes
truncate_at_boundary s rune_limit =
    let byte_limit = rune_offset s rune_limit in
    if leb (length s) byte_limit
    then s
    else cut_at_sentence s byte_limit (scan_backward s byte_limit 100 is_sentence_end)
