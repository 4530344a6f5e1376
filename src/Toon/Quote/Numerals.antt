-- ===== src/Toon/Quote/Numerals.antt =====
-- internal/toon/quote.go: numericLikeRE matches what a reader takes for a number.
use mini.Prelude.{
  ℕ, ◌≡◌, ◌⊎◌, inl, inr, refl, ap, subst, Bool, true, false, ◌&&◌, ◌||◌, [], ◌∷◌, ◌++◌, append-nil,
  Bytes, bytes_eq, ◌==◌, leb, all, is_empty, arith,
}
use mini.Toon.Quote.{
  is_digit, span_digits, optional_sign, digits_to_end, exponent_to_end, fraction_to_end,
  is_numeric_like,
}

-- Numbers as a reader takes them: a sign, digits, a fraction and an exponent.
abbrev pub IsSign : Bytes → Type 0
IsSign s = (s ≡ []) ⊎ (s ≡ b'+' ∷ []) ⊎ (s ≡ b'-' ∷ [])

abbrev pub IsDigits : Bytes → Type 0
IsDigits ds = (is_empty ds ≡ false) × (all (λ d. leb 48 d && leb d 57) ds ≡ true)

abbrev pub IsFraction : Bytes → Type 0
IsFraction s = (s ≡ []) ⊎ ((ds : Bytes) × IsDigits ds × (s ≡ b'.' ∷ ds))

abbrev pub IsExponent : Bytes → Type 0
IsExponent s =
    (s ≡ [])
    ⊎ ((e : ℕ) × (sign : Bytes) × (ds : Bytes) × ((e ≡ b'e') ⊎ (e ≡ b'E'))
        × IsSign sign
        × IsDigits ds
        × (s ≡ e ∷ (sign ++ ds)))

abbrev pub IsNumeral : Bytes → Type 0
IsNumeral s =
    (sign : Bytes) × (ds : Bytes) × (fraction : Bytes) × (exponent : Bytes) × IsSign sign
    × IsDigits ds
    × IsFraction fraction
    × IsExponent exponent
    × (s ≡ sign ++ (ds ++ (fraction ++ exponent)))

abbrev starts_with_digit : Bytes → Bool
starts_with_digit [] = false
starts_with_digit (c ∷ cs) = is_digit c

span_digits-none : (s : Bytes) → starts_with_digit s ≡ false → span_digits s ≡ (false, s)
unfolding span_digits
span_digits-none [] h = refl
span_digits-none (c ∷ cs) h = rw h refl

span_digits-rest :
    (ds s : Bytes)
    → all (λ d. leb 48 d && leb d 57) ds ≡ true
    → starts_with_digit s ≡ false
    → (span_digits (ds ++ s)).1 ≡ s
unfolding span_digits is_digit
span_digits-rest [] s a h = ap (λ (p : Bool × Bytes). p.1) (span_digits-none s h)
span_digits-rest (d ∷ ds) s a h =
    let digit : is_digit d ≡ true = ground arith in
    rw digit (span_digits-rest ds s (ground arith) h)

span_digits-append :
    (ds s : Bytes) → IsDigits ds → starts_with_digit s ≡ false → span_digits (ds ++ s) ≡ (true, s)
unfolding span_digits is_digit
span_digits-append [] s (e, a) h = absurd (ground arith)
span_digits-append (d ∷ ds) s (e, a) h =
    let digit : is_digit d ≡ true = ground arith in
    rw digit (ap (λ r. (true, r)) (span_digits-rest ds s (ground arith) h))

optional_sign-append :
    (sign ds s : Bytes) → IsSign sign → IsDigits ds → optional_sign (sign ++ (ds ++ s)) ≡ ds ++ s
optional_sign-append sign [] s g (e, a) = absurd (ground arith)
optional_sign-append sign (d ∷ ds) s (inl g) (e, a) =
    rw g (let other : (d == b'+' || d == b'-') ≡ false = ground arith in rw other refl)
optional_sign-append sign (d ∷ ds) s (inr (inl g)) h = rw g refl
optional_sign-append sign (d ∷ ds) s (inr (inr g)) h = rw g refl

digits_to_end-append :
    (sign ds : Bytes) → IsSign sign → IsDigits ds → digits_to_end (sign ++ ds) ≡ true
unfolding bytes_eq
digits_to_end-append sign ds g h =
    let whole = append-nil ds in
    let unsigned : optional_sign (sign ++ ds) ≡ ds =
      subst (λ r. optional_sign (sign ++ r) ≡ r) whole (optional_sign-append sign ds [] g h) in
    let digits : span_digits ds ≡ (true, []) =
      subst (λ r. span_digits r ≡ (true, [])) whole (span_digits-append ds [] h refl) in
    rw unsigned (rw digits refl)

exponent-ends :
    (s : Bytes)
    → IsExponent s
    → (exponent_to_end s ≡ true) × (fraction_to_end s ≡ true) × (starts_with_digit s ≡ false)
unfolding is_digit
exponent-ends s (inl e) = rw e (refl, refl, refl)
exponent-ends s (inr (e, sign, ds, inl c, g, h, p)) =
    let ends = digits_to_end-append sign ds g h in rw p (rw c (ends, ends, refl))
exponent-ends s (inr (e, sign, ds, inr c, g, h, p)) =
    let ends = digits_to_end-append sign ds g h in rw p (rw c (ends, ends, refl))

fraction-ends :
    (fraction exponent : Bytes)
    → IsFraction fraction
    → IsExponent exponent
    → (fraction_to_end (fraction ++ exponent) ≡ true)
      × (starts_with_digit (fraction ++ exponent) ≡ false)
unfolding is_digit
fraction-ends fraction exponent (inl e) h =
    let (_, ends, other) = exponent-ends exponent h in rw e (ends, other)
fraction-ends fraction exponent (inr (ds, digits, e)) h =
    let (ends, _, other) = exponent-ends exponent h in
    rw e (rw (span_digits-append ds exponent digits other) (ends, refl))

pub is_numeric_like-IsNumeral : (s : Bytes) → IsNumeral s → is_numeric_like s ≡ true
unfolding is_numeric_like
is_numeric_like-IsNumeral s (sign, ds, fraction, exponent, g, h, f, x, e) =
    let (ends, other) = fraction-ends fraction exponent f x in
    rw e (
      rw (optional_sign-append sign ds (fraction ++ exponent) g h)
        (rw (span_digits-append ds (fraction ++ exponent) h other) ends))
