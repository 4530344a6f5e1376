-- ===== src/Jq/Path/Collapse.antt =====
-- The loop of CollapseIndex in internal/jq/path.go as equations, with no fuel in them.
use mini.Prelude.{
  ℕ, zero, suc, ◌≤◌, ◌≡◌, ◌≢◌, refl, ap, true, false, [], ◌∷◌, ◌++◌, Bytes, ◌==◌, append-nil, any,
  length, Bool-cases, inl, inr, arith,
}
use mini.Jq.Path.{
  copy_quoted, skip_digits, closing, numeric_index, opens_quote, drop_one, collapse_loop,
  collapse_index,
}

length-copy_quoted : (p : Bytes) → length (copy_quoted p).1 ≤ length p
unfolding copy_quoted
length-copy_quoted [] = omega arith
length-copy_quoted (c ∷ []) = omega arith
length-copy_quoted (c ∷ d ∷ cs) = ground (arith, length-copy_quoted cs, length-copy_quoted (d ∷ cs))

length-skip_digits : (p : Bytes) → length (skip_digits p).1 ≤ length p
unfolding skip_digits
length-skip_digits [] = omega arith
length-skip_digits (c ∷ cs) = ground (arith, length-skip_digits cs)

length-closing :
    (n : ℕ) (rest p : Bytes) → length rest ≤ length p → length (closing n rest p).1 ≤ length p
length-closing zero rest p h = omega arith
length-closing (suc n) [] p h = omega arith
length-closing (suc n) (c ∷ cs) p h = ground arith

length-numeric_index : (p : Bytes) → length (numeric_index p).1 ≤ length p
unfolding numeric_index
length-numeric_index p = length-closing (skip_digits p).0 (skip_digits p).1 p (length-skip_digits p)

length-drop_one : (p : Bytes) → length (drop_one p) ≤ length p
length-drop_one [] = omega arith
length-drop_one (c ∷ cs) = omega arith

-- Any fuel that is not below the length gives the same text.
collapse_loop_enough :
    (f g : ℕ) (p : Bytes) → length p ≤ f → length p ≤ g → collapse_loop f p ≡ collapse_loop g p
unfolding collapse_loop
collapse_loop_enough zero zero p hf hg = refl
collapse_loop_enough zero (suc g) [] hf hg = refl
collapse_loop_enough zero (suc g) (c ∷ cs) hf hg = absurd (omega arith)
collapse_loop_enough (suc f) zero [] hf hg = refl
collapse_loop_enough (suc f) zero (c ∷ cs) hf hg = absurd (omega arith)
collapse_loop_enough (suc f) (suc g) [] hf hg = refl
collapse_loop_enough (suc f) (suc g) (c ∷ cs) hf hg =
    let q = (copy_quoted (drop_one cs)).1 in
    let n = (numeric_index cs).1 in
    rw (collapse_loop_enough f g cs (omega arith) (omega arith)) (
      rw
        (collapse_loop_enough f g q
          (omega (arith, length-copy_quoted (drop_one cs), length-drop_one cs))
          (omega (arith, length-copy_quoted (drop_one cs), length-drop_one cs)))
        (rw
          (collapse_loop_enough f g n (omega (arith, length-numeric_index cs))
            (omega (arith, length-numeric_index cs)))
          refl))

-- The loop with enough fuel.
pub collapse : Bytes → Bytes
collapse p = collapse_loop (length p) p

pub collapse-nil : collapse [] ≡ []
unfolding collapse collapse_loop
collapse-nil = refl

pub collapse-plain : (c : ℕ) (cs : Bytes) → c ≢ b'[' → collapse (c ∷ cs) ≡ c ∷ collapse cs
unfolding collapse collapse_loop
collapse-plain c cs h = ground arith

pub collapse-quoted :
    (cs : Bytes)
    → collapse (b'[' ∷ b'"' ∷ cs)
      ≡ b'[' ∷ b'"' ∷ ((copy_quoted cs).0 ++ collapse (copy_quoted cs).1)
unfolding collapse collapse_loop
collapse-quoted cs =
    ap (λ t. b'[' ∷ b'"' ∷ ((copy_quoted cs).0 ++ t))
      (collapse_loop_enough (length (b'"' ∷ cs)) (length (copy_quoted cs).1) (copy_quoted cs).1
        (omega (arith, length-copy_quoted cs)) (omega arith))

pub collapse-index :
    (cs : Bytes)
    → opens_quote cs ≡ false
    → (numeric_index cs).0 ≡ true
    → collapse (b'[' ∷ cs) ≡ b'[' ∷ b']' ∷ collapse (numeric_index cs).1
unfolding collapse
collapse-index cs q n =
    unfold collapse_loop in
    rw (q, n)
      (ap (λ t. b'[' ∷ b']' ∷ t)
        (collapse_loop_enough (length cs) (length (numeric_index cs).1) (numeric_index cs).1
          (length-numeric_index cs) (omega arith)))

pub collapse-all_plain :
    (s rest : Bytes) → any (λ c. c == b'[') s ≡ false → collapse (s ++ rest) ≡ s ++ collapse rest
collapse-all_plain [] rest h = refl
collapse-all_plain (c ∷ s) rest h =
    ground (arith, collapse-plain c (s ++ rest), collapse-all_plain s rest)

-- The shortcut of CollapseIndex changes nothing.
pub collapse_index-collapse : (p : Bytes) → collapse_index p ≡ collapse p
unfolding collapse_index
collapse_index-collapse p = elim (Bool-cases (any (λ c. c == b'[') p)) [
  | inl h ↦ rw h (unfold collapse in refl)
  | inr h ↦ rw h (ground (arith, collapse-all_plain p [] h, append-nil p, collapse-nil))
]
