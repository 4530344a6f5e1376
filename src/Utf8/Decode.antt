-- ===== src/Utf8/Decode.antt =====
-- What unicode/utf8's decoding of one rune says of the bytes that it reads.
use mini.Prelude.{
  ℕ, zero, suc, ◌-◌, ◌≤◌, ◌<◌, ◌≡◌, refl, Bool, true, false, ◌&&◌, [], ◌∷◌, ◌++◌, Bytes, all, any,
  leb, ltb, take, drop, if-elim, Bool-cases, inl, inr, ◌==◌, arith,
}
use mini.Utf8.{
  within, rune_error, decode_two, decode_three, decode_four, decode_rune, runes, runes_after,
  encode_rune,
}

pub decode_rune-ascii : (c : ℕ) (cs : Bytes) → c < 0x80 → decode_rune (c ∷ cs) ≡ (c, 1)
unfolding decode_rune
decode_rune-ascii c cs h = ground arith

abbrev IsHigh : ℕ × ℕ → Bytes → Type 0
IsHigh (r, n) s = (0x80 ≤ r) × (1 ≤ n) × (all (λ b. leb 0x80 b) (take n s) ≡ true)

decode_two-IsHigh : (a : ℕ) (s : Bytes) → 0xC2 ≤ a → IsHigh (decode_two a s) (a ∷ s)
decode_two-IsHigh a [] h = (omega arith, omega arith, ground arith)
decode_two-IsHigh a (b ∷ s) h = (ground arith, ground arith, ground arith)

decode_three-IsHigh :
    (a lo hi : ℕ) (s : Bytes)
    → 0xE0 ≤ a
    → 0x80 ≤ lo
    → (a ≡ 0xE0 → 0xA0 ≤ lo)
    → IsHigh (decode_three a lo hi s) (a ∷ s)
decode_three-IsHigh a lo hi [] h l e = (omega arith, omega arith, ground arith)
decode_three-IsHigh a lo hi (b ∷ []) h l e = (omega arith, omega arith, ground arith)
decode_three-IsHigh a lo hi (b ∷ c ∷ s) h l e = (ground arith, ground arith, ground arith)

decode_four-IsHigh :
    (a lo hi : ℕ) (s : Bytes)
    → 0xF0 ≤ a
    → 0x80 ≤ lo
    → (a ≡ 0xF0 → 0x90 ≤ lo)
    → IsHigh (decode_four a lo hi s) (a ∷ s)
decode_four-IsHigh a lo hi [] h l e = (omega arith, omega arith, ground arith)
decode_four-IsHigh a lo hi (b ∷ []) h l e = (omega arith, omega arith, ground arith)
decode_four-IsHigh a lo hi (b ∷ c ∷ []) h l e = (omega arith, omega arith, ground arith)
decode_four-IsHigh a lo hi (b ∷ c ∷ d ∷ s) h l e = (ground arith, ground arith, ground arith)

-- A byte from 0x80 on yields a rune from 0x80 on, and so are all the bytes that it takes.
pub decode_rune-IsHigh : (a : ℕ) (s : Bytes) → 0x80 ≤ a → IsHigh (decode_rune (a ∷ s)) (a ∷ s)
unfolding decode_rune
decode_rune-IsHigh a s h =
    let P = λ (w : ℕ × ℕ). IsHigh w (a ∷ s) in
    let failed : IsHigh (rune_error, 1) (a ∷ s) = (omega arith, omega arith, ground arith) in
    if-elim P (ltb a 0x80) _ _ (λ low. absurd (ground arith))
      λ low.
        if-elim P (within 0xC2 0xDF a) _ _ (λ t. decode_two-IsHigh a s (ground arith))
          λ two.
            if-elim P (a == 0xE0) _ _
              (λ t. decode_three-IsHigh a 0xA0 0xBF s (ground arith) (omega arith) (omega arith))
              λ e0.
                if-elim P (a == 0xED) _ _
                  (λ t.
                    decode_three-IsHigh a 0x80 0x9F s (ground arith) (omega arith)
                      (λ z. absurd (ground arith)))
                  λ ed.
                    if-elim P (within 0xE1 0xEF a) _ _
                      (λ t.
                        decode_three-IsHigh a 0x80 0xBF s (ground arith) (omega arith)
                          (λ z. absurd (ground arith)))
                      λ three.
                        if-elim P (a == 0xF0) _ _
                          (λ t.
                            decode_four-IsHigh a 0x90 0xBF s (ground arith) (omega arith)
                              (omega arith))
                          λ f0.
                            if-elim P (a == 0xF4) _ _
                              (λ t.
                                decode_four-IsHigh a 0x80 0x8F s (ground arith) (omega arith)
                                  (λ z. absurd (ground arith)))
                              λ f4.
                                if-elim P (within 0xF1 0xF3 a) _ _
                                  (λ t.
                                    decode_four-IsHigh a 0x80 0xBF s (ground arith) (omega arith)
                                      (λ z. absurd (ground arith)))
                                  λ four. failed

pub decode_rune-width : (c : ℕ) (cs : Bytes) → 1 ≤ (decode_rune (c ∷ cs)).1
decode_rune-width c cs = elim (Bool-cases (ltb c 0x80)) [
  | inl low ↦ rw (decode_rune-ascii c cs (ground arith)) (omega arith)
  | inr high ↦ (decode_rune-IsHigh c cs (ground arith)).1
]

take_tail :
    (t : Bytes) (n c : ℕ)
    → 1 ≤ n
    → all (λ b. leb 0x80 b) (take n (c ∷ t)) ≡ true
    → all (λ b. leb 0x80 b) (take (n - 1) t) ≡ true
take_tail t zero c h e = absurd (omega arith)
take_tail t (suc n) c h e = let less : suc n - 1 ≡ n = omega arith in rw less (ground arith)

-- A test on ASCII finds in the runes what it finds in the bytes.
module _ (p : ℕ → Bool) (ascii : (r : ℕ) → 0x80 ≤ r → p r ≡ false) where
  any-high :
      (s : Bytes) (n : ℕ) → all (λ b. leb 0x80 b) (take n s) ≡ true → any p (take n s) ≡ false
  any-high [] zero h = refl
  any-high [] (suc n) h = refl
  any-high (c ∷ cs) zero h = refl
  any-high (c ∷ cs) (suc n) h = ground (arith, ascii c, any-high cs n)

  any-runes_after :
      (s : Bytes) (skip : ℕ)
      → all (λ b. leb 0x80 b) (take skip s) ≡ true
      → any p (runes_after skip s) ≡ any p s
  unfolding runes_after
  any-runes_after [] skip h = refl
  any-runes_after (c ∷ cs) (suc skip) h = ground (arith, ascii c, any-runes_after cs skip)
  any-runes_after (c ∷ cs) zero h = elim (Bool-cases (ltb c 0x80)) [
    | inl low ↦
        rw (decode_rune-ascii c cs (ground arith)) (ground (arith, any-runes_after cs 0 refl))
    | inr high ↦
        let (r, n, tail) = decode_rune-IsHigh c cs (ground arith) in
        ground (
          arith,
          ascii c,
          ascii (decode_rune (c ∷ cs)).0,
          any-runes_after cs ((decode_rune (c ∷ cs)).1 - 1)
              (take_tail cs (decode_rune (c ∷ cs)).1 c n tail),
        )
  ]

  pub any-runes : (s : Bytes) → any p (runes s) ≡ any p s
  any-runes s = any-runes_after s 0 refl

-- A pair of a rune and a width, read from `s`, that is no error gives its bytes back.
abbrev pub is_error : ℕ × ℕ → Bool
is_error (r, n) = r == rune_error && n == 1

abbrev GivesBack : ℕ × ℕ → Bytes → Type 0
GivesBack (r, n) s = is_error (r, n) ≡ false → encode_rune r ++ drop n s ≡ s

decode_two-GivesBack :
    (a : ℕ) (s : Bytes) → 0xC2 ≤ a → a ≤ 0xDF → GivesBack (decode_two a s) (a ∷ s)
unfolding encode_rune
decode_two-GivesBack a [] h k e = cc
decode_two-GivesBack a (b ∷ s) h k e = ground arith

decode_three-GivesBack :
    (a lo hi : ℕ) (s : Bytes)
    → 0xE0 ≤ a
    → a ≤ 0xEF
    → 0x80 ≤ lo
    → hi ≤ 0xBF
    → (a ≡ 0xE0 → 0xA0 ≤ lo)
    → GivesBack (decode_three a lo hi s) (a ∷ s)
unfolding encode_rune
decode_three-GivesBack a lo hi [] h k l m z e = cc
decode_three-GivesBack a lo hi (b ∷ []) h k l m z e = cc
decode_three-GivesBack a lo hi (b ∷ c ∷ s) h k l m z e = ground arith

decode_four-GivesBack :
    (a lo hi : ℕ) (s : Bytes)
    → 0xF0 ≤ a
    → a ≤ 0xF4
    → 0x80 ≤ lo
    → hi ≤ 0xBF
    → (a ≡ 0xF0 → 0x90 ≤ lo)
    → GivesBack (decode_four a lo hi s) (a ∷ s)
unfolding encode_rune
decode_four-GivesBack a lo hi [] h k l m z e = cc
decode_four-GivesBack a lo hi (b ∷ []) h k l m z e = cc
decode_four-GivesBack a lo hi (b ∷ c ∷ []) h k l m z e = cc
decode_four-GivesBack a lo hi (b ∷ c ∷ d ∷ s) h k l m z e = ground arith

pub encode_rune-ascii : (r : ℕ) → r < 0x80 → encode_rune r ≡ r ∷ []
unfolding encode_rune
encode_rune-ascii r h = ground arith

pub encode_rune-high : (r : ℕ) → 0x80 ≤ r → all (λ b. leb 0x80 b) (encode_rune r) ≡ true
unfolding encode_rune
encode_rune-high r h = ground arith

-- Encoding the rune read in front of a valid string gives its bytes.
pub decode_rune-GivesBack : (a : ℕ) (s : Bytes) → GivesBack (decode_rune (a ∷ s)) (a ∷ s)
unfolding decode_rune
decode_rune-GivesBack a s =
    let P = λ (w : ℕ × ℕ). GivesBack w (a ∷ s) in
    if-elim P (ltb a 0x80) _ _ (λ h e. rw (encode_rune-ascii a (ground arith)) refl)
      λ low.
        if-elim P (within 0xC2 0xDF a) _ _
          (λ h. decode_two-GivesBack a s (ground arith) (ground arith))
          λ two.
            if-elim P (a == 0xE0) _ _
              (λ h.
                decode_three-GivesBack a 0xA0 0xBF s (ground arith) (ground arith) (omega arith)
                  (omega arith) (omega arith))
              λ e0.
                if-elim P (a == 0xED) _ _
                  (λ h.
                    decode_three-GivesBack a 0x80 0x9F s (ground arith) (ground arith) (omega arith)
                      (omega arith) (λ z. absurd (ground arith)))
                  λ ed.
                    if-elim P (within 0xE1 0xEF a) _ _
                      (λ h.
                        decode_three-GivesBack a 0x80 0xBF s (ground arith) (ground arith)
                          (omega arith) (omega arith) (λ z. absurd (ground arith)))
                      λ three.
                        if-elim P (a == 0xF0) _ _
                          (λ h.
                            decode_four-GivesBack a 0x90 0xBF s (ground arith) (ground arith)
                              (omega arith) (omega arith) (omega arith))
                          λ f0.
                            if-elim P (a == 0xF4) _ _
                              (λ h.
                                decode_four-GivesBack a 0x80 0x8F s (ground arith) (ground arith)
                                  (omega arith) (omega arith) (λ z. absurd (ground arith)))
                              λ f4.
                                if-elim P (within 0xF1 0xF3 a) _ _
                                  (λ h.
                                    decode_four-GivesBack a 0x80 0xBF s (ground arith)
                                      (ground arith) (omega arith) (omega arith)
                                      (λ z. absurd (ground arith)))
                                  λ four. (λ e. cc)
