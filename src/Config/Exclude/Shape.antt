-- ===== src/Config/Exclude/Shape.antt =====
-- internal/config/projection_validation.go: the shape of a parsed exclude path.
use mini.Prelude.{
  ℕ, zero, suc, ◌≡◌, refl, sym, Bool, true, false, false≢true, List, [], ◌∷◌, ◌++◌, Bytes, if-elim,
  ◌==◌, arith, not, ◌||◌, is_empty,
}
use mini.Config.Exclude.{
  ExcludeStep, Parsed, ok, err, ◌>>=◌, push_first, split_dots, array_steps, segment_steps, len,
  count_array_steps, span_field, parse_exclude_segment, parse_segments, ends_in_array,
  parse_exclude_path,
}

pub ok-injective : {A : Type 0} (a b : A) → ok a ≡ ok b → a ≡ b
ok-injective a b h = cc

-- What a chain of parses that succeeds consists of.
pub >>=-ok :
    {A B : Type 0} (p : Parsed A) (f : A → Parsed B) (b : B)
    → (p >>= f) ≡ ok b
    → (a : A) × (p ≡ ok a) × (f a ≡ ok b)
>>=-ok (ok a) f b h = (a, refl, h)
>>=-ok (err e) f b h = absurd cc

segment_steps-not_empty :
    (name : Bytes) (items : ℕ) (first : Bool) (steps : List ExcludeStep)
    → segment_steps name items first ≡ ok steps
    → is_empty steps ≡ false
segment_steps-not_empty [] zero first steps =
    if-elim (λ r. r ≡ ok steps → is_empty steps ≡ false) (not first || true) _ _ (λ e h. absurd cc)
      (λ e h. absurd (ground (arith, e)))
segment_steps-not_empty [] (suc n) first steps =
    if-elim (λ r. r ≡ ok steps → is_empty steps ≡ false) (not first || suc n == 0) _ _
      (λ e h. absurd cc) (λ e h. rw (← ok-injective (array_steps (suc n)) steps h) refl)
segment_steps-not_empty (c ∷ name) items first steps = λ h.
    rw (← ok-injective ((record { field = c ∷ name; array = false }) ∷ array_steps items) steps h)
      refl

parse_exclude_segment-not_empty :
    (segment : Bytes) (first : Bool) (steps : List ExcludeStep)
    → parse_exclude_segment segment first ≡ ok steps
    → is_empty steps ≡ false
unfolding parse_exclude_segment
parse_exclude_segment-not_empty segment first steps h =
    let (items, _, q) =
      >>=-ok (count_array_steps (len (span_field segment).1) (span_field segment).1) _ steps h in
    segment_steps-not_empty _ items first steps q

append-not_empty : (xs ys : List ExcludeStep) → is_empty xs ≡ false → is_empty (xs ++ ys) ≡ false
append-not_empty [] ys h = absurd (false≢true (sym h))
append-not_empty (x ∷ xs) ys h = refl

parse_segments-not_empty :
    (segments : List Bytes) (first : Bool) (steps : List ExcludeStep)
    → is_empty segments ≡ false
    → parse_segments segments first ≡ ok steps
    → is_empty steps ≡ false
unfolding parse_segments
parse_segments-not_empty [] first steps n h = absurd (false≢true (sym n))
parse_segments-not_empty (segment ∷ segments) first steps n h =
    let (parsed, p, p') = >>=-ok (parse_exclude_segment segment first) _ steps h in
    let (rest, _, q) = >>=-ok (parse_segments segments false) _ steps p' in
    rw (← ok-injective (parsed ++ rest) steps q)
      (append-not_empty parsed rest (parse_exclude_segment-not_empty segment first parsed p))

pub split_dots-not_empty : (s : Bytes) → is_empty (split_dots s) ≡ false
unfolding split_dots
split_dots-not_empty [] = refl
split_dots-not_empty (c ∷ cs) =
    if-elim (λ (r : List Bytes). is_empty r ≡ false) (c == b'.') _ _ (λ e. refl)
      (λ e. push_first-not_empty c _)
  where
    push_first-not_empty : (c : ℕ) (parts : List Bytes) → is_empty (push_first c parts) ≡ false
    push_first-not_empty c [] = refl
    push_first-not_empty c (part ∷ parts) = refl

-- A path that parses has a step, and its last step is a field.
pub parse_exclude_path-ok :
    (rule : Bytes) (steps : List ExcludeStep)
    → parse_exclude_path rule ≡ ok steps
    → (is_empty steps ≡ false) × (ends_in_array steps ≡ false)
unfolding parse_exclude_path
parse_exclude_path-ok rule steps h =
    let (found, p, p') = >>=-ok (parse_segments (split_dots rule) true) _ steps h in
    if-elim (λ r. r ≡ ok steps → (is_empty steps ≡ false) × (ends_in_array steps ≡ false))
      (ends_in_array found) _ _ (λ e q. absurd cc)
      (λ e q.
        rw (← ok-injective found steps q)
          (parse_segments-not_empty _ true found (split_dots-not_empty rule) p, e))
      p'
