-- ===== src/Prelude/Decimal.antt =====
-- Decimal numerals, as fmt's %d writes them and strconv.ParseInt reads them.
use Prim.Native.Nat.{ℕ, zero, suc, ◌+◌, ◌-◌, ◌*◌, ◌/◌, ◌%◌, ◌≤◌}
use mathlib.Core.Path.{◌≡◌, refl, subst}
use mathlib.Core.Bool.{Bool, true, false, ◌&&◌}
use mathlib.Core.List.{List, [], ◌∷◌, ◌++◌}
use mathlib.Core.Option.{Option, none, some}
use mathlib.Core.Logic.{inl, inr}
use native.Mathlib.Omega.{arith}
use mini.Prelude.Tests.{ltb, leb, if◌then◌else◌, if-elim, Bool-cases}
use mini.Prelude.Lists.{is_empty, all}
use mini.Prelude.Strings.{Bytes}

-- On fuel: a number has no more digits than its value and one.
unfoldable pub digits : ℕ → ℕ → Bytes
digits zero n = (b'0' + n) ∷ []
digits (suc fuel) n =
    let front = digits fuel (n / 10) in
    if ltb n 10 then (b'0' + n) ∷ [] else front ++ (b'0' + n % 10) ∷ []

unfoldable pub decimal : ℕ → Bytes
decimal n = digits n n

abbrev pub is_decimal : ℕ → Bool
is_decimal c = leb b'0' c && leb c b'9'

-- The value of the digits, behind those with the value v; `none` if a byte is no digit.
unfoldable pub read_digits : ℕ → Bytes → Option ℕ
read_digits v [] = some v
read_digits v (c ∷ cs) =
    let rest = read_digits (v * 10 + (c - b'0')) cs in if is_decimal c then rest else none

is_decimal-digit : (d : ℕ) → d ≤ 9 → is_decimal (b'0' + d) ≡ true
is_decimal-digit d h = ground arith

read_digits-digit : (v d : ℕ) → d ≤ 9 → read_digits v ((b'0' + d) ∷ []) ≡ some (v * 10 + d)
unfolding read_digits
read_digits-digit v d h =
    let cancel : b'0' + d - b'0' ≡ d = omega arith in rw (is_decimal-digit d h) (rw cancel refl)

read_digits-single : (n : ℕ) → n ≤ 9 → read_digits 0 ((b'0' + n) ∷ []) ≡ some n
read_digits-single n h =
    let same : 0 * 10 + n ≡ n = omega arith in
    subst (λ m. read_digits 0 ((b'0' + n) ∷ []) ≡ some m) same (read_digits-digit 0 n h)

read_digits-snoc :
    (v : ℕ) (cs : Bytes) (n d : ℕ)
    → read_digits v cs ≡ some n
    → d ≤ 9
    → read_digits v (cs ++ (b'0' + d) ∷ []) ≡ some (n * 10 + d)
unfolding read_digits
read_digits-snoc v [] n d h le =
    let v_is_n : v ≡ n = cc in rw (read_digits-digit v d le) (rw v_is_n refl)
read_digits-snoc v (c ∷ cs) n d h le = elim (Bool-cases (is_decimal c)) [
  | inl e ↦
      let h' : read_digits (v * 10 + (c - b'0')) cs ≡ some n = rw (← h) (rw e refl) in
      rw e (read_digits-snoc (v * 10 + (c - b'0')) cs n d h' le)
  | inr e ↦ let n' : none ≡ some n = rw (← h) (rw e refl) in absurd cc
]

read_digits-digits : (fuel n : ℕ) → n ≤ fuel → read_digits 0 (digits fuel n) ≡ some n
unfolding digits read_digits
read_digits-digits zero n h = read_digits-single n (omega arith)
read_digits-digits (suc fuel) n h =
    if-elim (λ r. read_digits 0 r ≡ some n) (ltb n 10) _ _
      (λ e. read_digits-single n (ground (arith, e)))
      (λ e.
        let again : n / 10 * 10 + n % 10 ≡ n = omega arith in
        subst (λ m. read_digits 0 (digits fuel (n / 10) ++ (b'0' + n % 10) ∷ []) ≡ some m) again
          (read_digits-snoc 0 (digits fuel (n / 10)) (n / 10) (n % 10)
            (read_digits-digits fuel (n / 10) (omega arith)) (omega arith)))

pub read_digits-decimal : (n : ℕ) → read_digits 0 (decimal n) ≡ some n
unfolding decimal
read_digits-decimal n = read_digits-digits n n (omega arith)

pub all-append :
    {A : Type 0} (p : A → Bool) (xs ys : List A)
    → all p xs ≡ true
    → all p ys ≡ true
    → all p (xs ++ ys) ≡ true
all-append p [] ys h g = g
all-append p (x ∷ xs) ys h g = ground (arith, all-append p xs ys)

all-digits : (fuel n : ℕ) → n ≤ fuel → all is_decimal (digits fuel n) ≡ true
unfolding digits
all-digits zero n h = ground arith
all-digits (suc fuel) n h =
    if-elim (λ r. all is_decimal r ≡ true) (ltb n 10) _ _ (λ e. ground arith)
      (λ e.
        all-append is_decimal (digits fuel (n / 10)) _ (all-digits fuel (n / 10) (omega arith))
          (rw (is_decimal-digit (n % 10) (omega arith)) refl))

pub all-decimal : (n : ℕ) → all is_decimal (decimal n) ≡ true
unfolding decimal
all-decimal n = all-digits n n (omega arith)

is_empty-snoc : (xs : Bytes) (x : ℕ) → is_empty (xs ++ x ∷ []) ≡ false
is_empty-snoc [] x = refl
is_empty-snoc (y ∷ xs) x = refl

is_empty-digits : (fuel n : ℕ) → is_empty (digits fuel n) ≡ false
unfolding digits
is_empty-digits zero n = refl
is_empty-digits (suc fuel) n =
    if-elim (λ (r : Bytes). is_empty r ≡ false) (ltb n 10) _ _ (λ _. refl)
      (λ _. is_empty-snoc (digits fuel (n / 10)) _)

pub is_empty-decimal : (n : ℕ) → is_empty (decimal n) ≡ false
unfolding decimal
is_empty-decimal n = is_empty-digits n n
