-- ===== src/Jq/Path/Quoted.antt =====
-- copyQuotedKey of internal/jq/path.go copies a key that json.Marshal wrote, whole and no further.
use mini.Prelude.{
  ℕ, zero, suc, ◌-◌, ◌/◌, ◌%◌, ◌<◌, ◌⊎◌, ◌≡◌, ◌≢◌, refl, sym, ◌∙◌, ap, Bool, true, false, not, ◌&&◌,
  ◌||◌, [], ◌∷◌, ◌++◌, Bytes, ◌==◌, append_assoc, all, leb, ltb, take, if◌then◌else◌, Bool-cases,
  inl, inr, arith,
}
use mini.Utf8.{rune_error, decode_rune}
use mini.Utf8.Decode.{decode_rune-ascii, decode_rune-IsHigh}
use mini.Json.{hex_digit, escape_with, unicode_escape, marshal_ascii, marshal_rune, marshal_after}
use mini.Jq.Path.{copy_quoted}

-- A piece that is copied as it is, whatever follows it.
record IsCopied (piece : Bytes) : Type 0 where
  at :
      (rest : Bytes)
      → copy_quoted (piece ++ rest) ≡ (piece ++ (copy_quoted rest).0, (copy_quoted rest).1)

nil-IsCopied : IsCopied []
nil-IsCopied = record { at = λ rest. refl }

copy_quoted-plain :
    (c : ℕ) (t : Bytes)
    → c ≢ b'\\'
    → c ≢ b'"'
    → copy_quoted (c ∷ t) ≡ (c ∷ (copy_quoted t).0, (copy_quoted t).1)
unfolding copy_quoted
copy_quoted-plain c [] h k = refl
copy_quoted-plain c (d ∷ t) h k = ground arith

plain-IsCopied :
    (c : ℕ) (piece : Bytes) → c ≢ b'\\' → c ≢ b'"' → IsCopied piece → IsCopied (c ∷ piece)
plain-IsCopied c piece h k p = record {
  at = λ rest.
      copy_quoted-plain c (piece ++ rest) h k
      ∙ ap (λ (w : Bytes × Bytes). (c ∷ w.0, w.1)) (p.at rest);
}

-- A backslash takes the byte behind it along.
pair-IsCopied : (c : ℕ) (piece : Bytes) → IsCopied piece → IsCopied (b'\\' ∷ c ∷ piece)
unfolding copy_quoted
pair-IsCopied c piece p = record {
  at = λ rest. ap (λ (w : Bytes × Bytes). (b'\\' ∷ c ∷ w.0, w.1)) (p.at rest);
}

append-IsCopied : (a b : Bytes) → IsCopied a → IsCopied b → IsCopied (a ++ b)
append-IsCopied a b p q = record {
  at = λ rest. rw append_assoc (
      p.at (b ++ rest)
      ∙ ap (λ (w : Bytes × Bytes). (a ++ w.0, w.1)) (q.at rest)
      ∙ ap (λ t. (t, (copy_quoted rest).1)) (sym (append_assoc a b (copy_quoted rest).0)));
}

high-IsCopied : (s : Bytes) → all (λ b. leb 0x80 b) s ≡ true → IsCopied s
high-IsCopied [] h = nil-IsCopied
high-IsCopied (c ∷ s) h =
    plain-IsCopied c s (ground arith) (ground arith) (high-IsCopied s (ground arith))

hex_digit-plain : (d : ℕ) → d < 16 → (hex_digit d ≢ b'\\') × (hex_digit d ≢ b'"')
hex_digit-plain d h = (ground arith, ground arith)

unicode_escape-IsCopied : (c : ℕ) → c < 256 → IsCopied (unicode_escape c)
unicode_escape-IsCopied c h =
    let (a, a') = hex_digit-plain (c / 16) (omega arith) in
    let (b, b') = hex_digit-plain (c % 16) (omega arith) in
    pair-IsCopied b'u' _ (
      plain-IsCopied b'0' _ (omega arith) (omega arith) (
        plain-IsCopied b'0' _ (omega arith) (omega arith)
          (plain-IsCopied _ _ a a' (plain-IsCopied _ _ b b' nil-IsCopied))))

if-IsCopied :
    (b : Bool) (x y : Bytes)
    → (b ≡ true → IsCopied x)
    → (b ≡ false → IsCopied y)
    → IsCopied (if b then x else y)
if-IsCopied true x y p q = p refl
if-IsCopied false x y p q = q refl

escape_with-IsCopied : (c : ℕ) → IsCopied (escape_with c)
escape_with-IsCopied c = pair-IsCopied c [] nil-IsCopied

marshal_ascii-IsCopied : (c : ℕ) → c < 0x80 → IsCopied (marshal_ascii c)
unfolding marshal_ascii
marshal_ascii-IsCopied c h =
    if-IsCopied (c == b'\\' || c == b'"') _ _ (λ _. escape_with-IsCopied c)
      λ special.
        if-IsCopied (c == 8) _ _ (λ _. escape_with-IsCopied b'b')
          λ _.
            if-IsCopied (c == 12) _ _ (λ _. escape_with-IsCopied b'f')
              λ _.
                if-IsCopied (c == b'\n') _ _ (λ _. escape_with-IsCopied b'n')
                  λ _.
                    if-IsCopied (c == b'\r') _ _ (λ _. escape_with-IsCopied b'r')
                      λ _.
                        if-IsCopied (c == b'\t') _ _ (λ _. escape_with-IsCopied b't')
                          λ _.
                            if-IsCopied (ltb c 0x20 || c == b'<' || c == b'>' || c == b'&') _ _
                              (λ _. unicode_escape-IsCopied c (omega arith))
                              λ _. plain-IsCopied c [] (ground arith) (ground arith) nil-IsCopied

literal-IsCopied :
    (a b c d : ℕ)
    → all (λ x. not (x == b'\\' || x == b'"')) (a ∷ b ∷ c ∷ d ∷ []) ≡ true
    → IsCopied (b'\\' ∷ b'u' ∷ a ∷ b ∷ c ∷ d ∷ [])
literal-IsCopied a b c d h = pair-IsCopied b'u' _ (
    plain-IsCopied a _ (ground arith) (ground arith) (
      plain-IsCopied b _ (ground arith) (ground arith) (
        plain-IsCopied c _ (ground arith) (ground arith)
          (plain-IsCopied d _ (ground arith) (ground arith) nil-IsCopied))))

marshal_rune-IsCopied :
    (r n : ℕ) (encoded : Bytes)
    → (r < 0x80) ⊎ (all (λ b. leb 0x80 b) encoded ≡ true)
    → IsCopied (marshal_rune r n encoded)
unfolding marshal_rune
marshal_rune-IsCopied r n encoded h =
    if-IsCopied (ltb r 0x80) _ _ (λ low. marshal_ascii-IsCopied r (ground arith))
      λ high.
        if-IsCopied (r == rune_error && n == 1) _ _ (λ _. literal-IsCopied b'f' b'f' b'f' b'd' refl)
          λ _.
            if-IsCopied (r == 0x2028) _ _ (λ _. literal-IsCopied b'2' b'0' b'2' b'8' refl)
              λ _.
                if-IsCopied (r == 0x2029) _ _ (λ _. literal-IsCopied b'2' b'0' b'2' b'9' refl)
                  λ _. high-IsCopied encoded (ground arith)

decoded_low_or_high :
    (c : ℕ) (cs : Bytes)
    → ((decode_rune (c ∷ cs)).0 < 0x80)
      ⊎ (all (λ b. leb 0x80 b) (take (decode_rune (c ∷ cs)).1 (c ∷ cs)) ≡ true)
decoded_low_or_high c cs = elim (Bool-cases (ltb c 0x80)) [
  | inl low ↦ inl (rw (decode_rune-ascii c cs (ground arith)) (ground arith))
  | inr high ↦ inr (decode_rune-IsHigh c cs (ground arith)).2
]

marshal_after-IsCopied : (skip : ℕ) (s : Bytes) → IsCopied (marshal_after skip s)
unfolding marshal_after
marshal_after-IsCopied skip [] = nil-IsCopied
marshal_after-IsCopied zero (c ∷ cs) =
    append-IsCopied _ _
      (marshal_rune-IsCopied (decode_rune (c ∷ cs)).0 (decode_rune (c ∷ cs)).1
        (take (decode_rune (c ∷ cs)).1 (c ∷ cs)) (decoded_low_or_high c cs))
      (marshal_after-IsCopied ((decode_rune (c ∷ cs)).1 - 1) cs)
marshal_after-IsCopied (suc skip) (c ∷ cs) = marshal_after-IsCopied skip cs

-- The closing quote and bracket end the copy.
pub copy_quoted-marshal_after :
    (s rest : Bytes)
    → copy_quoted (marshal_after 0 s ++ (b'"' ∷ b']' ∷ rest))
      ≡ (marshal_after 0 s ++ (b'"' ∷ b']' ∷ []), rest)
copy_quoted-marshal_after s rest =
    (marshal_after-IsCopied 0 s).at (b'"' ∷ b']' ∷ rest) ∙ unfold copy_quoted in refl
