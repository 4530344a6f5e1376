-- ===== src/Projection/Text/Bounds.antt =====
-- internal/projection/engine.go: where truncateAtBoundary cuts.
use mini.Prelude.{
  ℕ, zero, suc, ◌+◌, ◌-◌, ◌≤◌, ◌<◌, ◌≡◌, refl, sym, ap, Bool, true, some, [], ◌∷◌, Bytes, leb, ltb,
  ltb→lt, length, take, drop, get_elem?, if-elim, Option-cases, inl, inr, arith,
}
use mini.Utf8.{decode_rune}
use mini.Projection.Text.{
  matches_at, rune_offset_from, rune_offset, scan_backward_from, scan_backward,
  truncate_at_boundary, cut_at_sentence, cut_at_word, is_sentence_end,
}

some-injective : (a b : ℕ) → some a ≡ some b → a ≡ b
some-injective a b h = cc

-- Where the scan stops: within the window, behind the start, at a byte that passes the test.
pub scan_backward_from-some :
    (i : ℕ) (text : Bytes) (floor : ℕ) (test : ℕ → Bool) (j : ℕ)
    → scan_backward_from i text floor test ≡ some j
    → (j ≤ i) × (floor < j) × (matches_at test (get_elem? text j) ≡ true)
unfolding scan_backward_from
scan_backward_from-some zero text floor test j = λ h. absurd cc
scan_backward_from-some (suc i) text floor test j =
    if-elim
      (λ r. r ≡ some j → (j ≤ suc i) × (floor < j) × (matches_at test (get_elem? text j) ≡ true))
      (ltb floor (suc i)) _ _
      (λ e.
        if-elim
          (λ r.
            r ≡ some j → (j ≤ suc i) × (floor < j) × (matches_at test (get_elem? text j) ≡ true))
          (matches_at test (get_elem? text (suc i))) _ _
          (λ m h. rw (← some-injective (suc i) j h) (omega arith, ltb→lt floor (suc i) e, m))
          (λ m h.
            let (a, b, c) = scan_backward_from-some i text floor test j h in (omega arith, b, c)))
      (λ e h. absurd cc)

length-rune_offset_from :
    (n : ℕ) (s : Bytes) (i : ℕ) → i ≤ length s → rune_offset_from n s i ≤ length s
unfolding rune_offset_from
length-rune_offset_from zero s i h = h
length-rune_offset_from (suc n) s i h =
    let next = i + (decode_rune (drop i s)).1 in
    if-elim (λ r. r ≤ length s) (leb (length s) next) _ _ (λ e. omega arith)
      (λ e. length-rune_offset_from n s next (ground (arith, e)))

take-length : (s : Bytes) → take (length s) s ≡ s
take-length [] = refl
take-length (c ∷ s) = ap (◌∷◌ c) (take-length s)

Near : Bytes → ℕ → Bytes → Type 0
Near s limit cut = (m : ℕ) × (cut ≡ take m s) × (m ≤ limit + 1) × (limit ≤ m + 99)

cut_at_word-Near :
    (s : Bytes) (limit : ℕ) (test : ℕ → Bool)
    → Near s limit (cut_at_word s limit (scan_backward s limit 50 test))
unfolding Near scan_backward
cut_at_word-Near s limit test = elim (Option-cases (scan_backward_from limit s (limit - 50) test)) [
  | inl h ↦ rw h (limit, refl, omega arith, omega arith)
  | inr (j, h) ↦
      let (le, above, _) = scan_backward_from-some limit s (limit - 50) test j h in
      rw h (j, refl, omega arith, omega arith)
]

cut_at_sentence-Near :
    (s : Bytes) (limit : ℕ)
    → Near s limit (cut_at_sentence s limit (scan_backward s limit 100 is_sentence_end))
unfolding Near scan_backward
cut_at_sentence-Near s limit =
    elim (Option-cases (scan_backward_from limit s (limit - 100) is_sentence_end)) [
      | inl h ↦ rw h (cut_at_word-Near s limit _)
      | inr (j, h) ↦
          let (le, above, _) = scan_backward_from-some limit s (limit - 100) is_sentence_end j h in
          rw h (j + 1, refl, omega arith, omega arith)
    ]

-- truncateAtBoundary gives a prefix of its text, which ends at most one byte behind the offset
-- of the rune limit and at most 99 bytes before it.
pub truncate_at_boundary-prefix :
    (s : Bytes) (n : ℕ)
    → (m : ℕ) × (truncate_at_boundary s n ≡ take m s)
      × (m ≤ rune_offset s n + 1)
      × (rune_offset s n ≤ m + 99)
unfolding truncate_at_boundary Near rune_offset
truncate_at_boundary-prefix s n =
    let limit = rune_offset s n in
    if-elim (Near s limit) (leb (length s) limit) _ _
      (λ e. (
        length s,
        sym (take-length s),
        ground (arith, e),
        omega (arith, length-rune_offset_from n s 0 (omega arith)),
      ))
      (λ e. cut_at_sentence-Near s limit)
