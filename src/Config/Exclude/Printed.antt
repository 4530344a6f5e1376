-- ===== src/Config/Exclude/Printed.antt =====
-- internal/config/projection_validation.go: an exclude path can be written from its steps again.
use mini.Prelude.{
  ℕ, zero, suc, ◌+◌, ◌≡◌, ap, refl, sym, subst, Bool, true, false, false≢true, List, [], ◌∷◌, ◌++◌,
  append_assoc, Option, some, none, Bytes, if-elim, ◌==◌, inl, inr, arith, not, Option-cases, all,
  is_empty, if◌then◌else◌,
}
use mini.Utf8.{within}
use mini.Config.Exclude.{
  ExcludeStep, ExcludeError, empty_field, Parsed, ok, err, push_first, extend_inner, after_closing,
  split_dots, array_steps, segment_steps, len, cut_closing, count_inner, count_array_steps,
  is_bracket, span_field, is_exclude_field_byte, parse_exclude_segment, parse_segments,
  ends_in_array, parse_exclude_path,
}
use mini.Config.Exclude.Shape.{>>=-ok, ok-injective, split_dots-not_empty}

-- The text of a path: fields behind dots, but for the first, and a pair of brackets for an array.
unfoldable pub print : Bool → List ExcludeStep → Bytes
print first [] = []
print first (step ∷ steps) =
    (if step.array then b'[' ∷ b']' ∷ [] else if first then step.field else b'.' ∷ step.field)
    ++ print false steps

abbrev dotted : List Bytes → Bytes
dotted [] = []
dotted (part ∷ parts) = (b'.' ∷ part) ++ dotted parts

abbrev joined : List Bytes → Bytes
joined [] = []
joined (part ∷ parts) = part ++ dotted parts

abbrev brackets : ℕ → Bytes
brackets zero = []
brackets (suc n) = b'[' ∷ b']' ∷ brackets n

joined-push_first : (c : ℕ) (parts : List Bytes) → joined (push_first c parts) ≡ c ∷ joined parts
joined-push_first c [] = refl
joined-push_first c (part ∷ parts) = refl

dotted-joined : (parts : List Bytes) → is_empty parts ≡ false → dotted parts ≡ b'.' ∷ joined parts
dotted-joined [] h = absurd (false≢true (sym h))
dotted-joined (part ∷ parts) h = refl

joined-split_dots : (s : Bytes) → joined (split_dots s) ≡ s
unfolding split_dots
joined-split_dots [] = refl
joined-split_dots (c ∷ cs) =
    if-elim (λ (r : List Bytes). joined r ≡ c ∷ cs) (c == b'.') _ _
      (λ e.
        let dot : b'.' ≡ c = ground (arith, e) in
        rw (dotted-joined (split_dots cs) (split_dots-not_empty cs))
          (rw (joined-split_dots cs) (rw dot refl)))
      (λ e. rw (joined-push_first c (split_dots cs)) (ap (◌∷◌ c) (joined-split_dots cs)))

span_field-append : (s : Bytes) → (span_field s).0 ++ (span_field s).1 ≡ s
unfolding span_field
span_field-append [] = refl
span_field-append (c ∷ cs) =
    if-elim (λ (r : Bytes × Bytes). r.0 ++ r.1 ≡ c ∷ cs) (is_exclude_field_byte c) _ _
      (λ _. ap (◌∷◌ c) (span_field-append cs)) (λ _. refl)

not_ok : {A : Type 0} {a : A} {e : ExcludeError} → err e ≡ ok a → ⊥
not_ok h = cc

not_extended :
    (c : ℕ) (o : Option (Bytes × Bytes)) (after : Bytes) → extend_inner c o ≡ some ([], after) → ⊥
not_extended c none after h = cc
not_extended c (some (inner, rest)) after h = cc

rest-injective :
    (a b : Bytes) → ◌≡◌ {A = Option (Bytes × Bytes)} (some ([], a)) (some ([], b)) → a ≡ b
rest-injective a b h = cc

cut_closing-nil : (s after : Bytes) → cut_closing s ≡ some ([], after) → s ≡ b']' ∷ after
unfolding cut_closing
cut_closing-nil [] after = λ h. absurd (not_extended 0 none after h)
cut_closing-nil (c ∷ cs) after =
    if-elim (λ (r : Option (Bytes × Bytes)). r ≡ some ([], after) → c ∷ cs ≡ b']' ∷ after)
      (c == b']') _ _
      (λ e h.
        let bracket : c ≡ b']' = ground (arith, e) in
        let same : cs ≡ after = rest-injective cs after h in rw bracket (rw same refl))
      (λ e h. absurd (not_extended c (cut_closing cs) after h))

-- What stands between brackets is nothing, where it is counted.
count_inner-ok :
    (inner : Bytes) (rest : Parsed ℕ) (n : ℕ)
    → count_inner inner rest ≡ ok n
    → (inner ≡ []) × (m : ℕ) × (rest ≡ ok m) × (m + 1 ≡ n)
count_inner-ok [] rest n =
    λ h. let (m, e, f) = >>=-ok rest (λ k. ok (k + 1)) n h in (refl, m, e, ok-injective (m + 1) n f)
count_inner-ok (c ∷ cs) rest n =
    if-elim (λ (r : Parsed ℕ). r ≡ ok n → (c ∷ cs ≡ []) × (m : ℕ) × (rest ≡ ok m) × (m + 1 ≡ n))
      (all (within b'0' b'9') (c ∷ cs)) _ _ (λ _ h. absurd (not_ok h)) (λ _ h. absurd (not_ok h))

count_array_steps-brackets :
    (fuel : ℕ) (s : Bytes) (n : ℕ) → count_array_steps fuel s ≡ ok n → s ≡ brackets n
unfolding count_array_steps
count_array_steps-brackets fuel [] n =
    λ h. let nought : 0 ≡ n = ok-injective 0 n h in rw (← nought) refl
count_array_steps-brackets zero (c ∷ cs) n = λ h. absurd (not_ok h)
count_array_steps-brackets (suc fuel) (c ∷ cs) n =
    if-elim (λ (r : Parsed ℕ). r ≡ ok n → c ∷ cs ≡ brackets n) (not (is_bracket c)) _ _
      (λ _ h. absurd (not_ok h))
      (λ _.
        if-elim (λ (r : Parsed ℕ). r ≡ ok n → c ∷ cs ≡ brackets n) (not (c == b'[')) _ _
          (λ _ h. absurd (not_ok h))
          (λ e. elim (Option-cases (cut_closing cs)) [
            | inl none_found ↦ λ h.
                absurd (
                  not_ok
                    (subst (λ o. after_closing (count_array_steps fuel) o ≡ ok n) none_found h))
            | inr (found, at) ↦ λ h.
                let (empty, m, rest, count) =
                  count_inner-ok found.0 (count_array_steps fuel found.1) n
                    (subst (λ o. after_closing (count_array_steps fuel) o ≡ ok n) at h) in
                let behind : found.1 ≡ brackets m =
                  count_array_steps-brackets fuel found.1 m rest in
                let opening : c ≡ b'[' = ground (arith, e) in
                let closing : cs ≡ b']' ∷ found.1 =
                  cut_closing-nil cs found.1
                    (subst (λ i. cut_closing cs ≡ some (i, found.1)) empty at) in
                let more : suc m ≡ n = omega arith in
                subst (λ k. c ∷ cs ≡ brackets k) more (rw opening (rw closing (rw behind refl)))
          ]))

print-nil : (first : Bool) → print first [] ≡ []
unfolding print
print-nil first = refl

print-array_steps :
    (n : ℕ) (later : List ExcludeStep)
    → print false (array_steps n ++ later) ≡ brackets n ++ print false later
unfolding print
print-array_steps zero later = refl
print-array_steps (suc n) later = ap (λ l. b'[' ∷ b']' ∷ l) (print-array_steps n later)

abbrev lead : Bool → Bytes → Bytes
lead first segment = if first then segment else b'.' ∷ segment

segment_steps-printed :
    (name : Bytes) (items : ℕ) (first : Bool) (steps later : List ExcludeStep)
    → segment_steps name items first ≡ ok steps
    → print first (steps ++ later) ≡ lead first (name ++ brackets items) ++ print false later
unfolding print
segment_steps-printed [] items false steps later h = absurd (not_ok h)
segment_steps-printed [] zero true steps later h = absurd (not_ok h)
segment_steps-printed [] (suc n) true steps later h =
    let some_items : (suc n == 0) ≡ false = ground arith in
    let made : ok (array_steps (suc n)) ≡ ok steps =
      subst (λ t. (if t then err empty_field else ok (array_steps (suc n))) ≡ ok steps) some_items
        h in
    rw (← ok-injective (array_steps (suc n)) steps made)
      (ap (λ l. b'[' ∷ b']' ∷ l) (print-array_steps n later))
segment_steps-printed (c ∷ name) items true steps later h =
    rw (← ok-injective (record { field = c ∷ name; array = false } ∷ array_steps items) steps h) (
      rw (print-array_steps items later)
        (rw (append_assoc name (brackets items) (print false later)) refl))
segment_steps-printed (c ∷ name) items false steps later h =
    rw (← ok-injective (record { field = c ∷ name; array = false } ∷ array_steps items) steps h) (
      rw (print-array_steps items later)
        (rw (append_assoc name (brackets items) (print false later)) refl))

parse_exclude_segment-printed :
    (segment : Bytes) (first : Bool) (steps later : List ExcludeStep)
    → parse_exclude_segment segment first ≡ ok steps
    → print first (steps ++ later) ≡ lead first segment ++ print false later
unfolding parse_exclude_segment
parse_exclude_segment-printed segment first steps later h =
    let name = (span_field segment).0 in
    let rest = (span_field segment).1 in
    let (items, counted, made) = >>=-ok (count_array_steps (len rest) rest) _ steps h in
    let same : name ++ brackets items ≡ segment =
      subst (λ r. name ++ r ≡ segment) (count_array_steps-brackets (len rest) rest items counted)
        (span_field-append segment) in
    subst (λ l. print first (steps ++ later) ≡ lead first l ++ print false later) same
      (segment_steps-printed name items first steps later made)

parse_segments-dotted :
    (segments : List Bytes) (steps : List ExcludeStep)
    → parse_segments segments false ≡ ok steps
    → print false steps ≡ dotted segments
unfolding parse_segments
parse_segments-dotted [] steps h = rw (← ok-injective [] steps h) (print-nil false)
parse_segments-dotted (segment ∷ segments) steps h =
    let (parsed, p, p') = >>=-ok (parse_exclude_segment segment false) _ steps h in
    let (rest, q, q') = >>=-ok (parse_segments segments false) _ steps p' in
    rw (← ok-injective (parsed ++ rest) steps q') (
      rw (parse_exclude_segment-printed segment false parsed rest p)
        (rw (parse_segments-dotted segments rest q) refl))

parse_segments-joined :
    (segments : List Bytes) (steps : List ExcludeStep)
    → parse_segments segments true ≡ ok steps
    → print true steps ≡ joined segments
unfolding parse_segments
parse_segments-joined [] steps h = rw (← ok-injective [] steps h) (print-nil true)
parse_segments-joined (segment ∷ segments) steps h =
    let (parsed, p, p') = >>=-ok (parse_exclude_segment segment true) _ steps h in
    let (rest, q, q') = >>=-ok (parse_segments segments false) _ steps p' in
    rw (← ok-injective (parsed ++ rest) steps q') (
      rw (parse_exclude_segment-printed segment true parsed rest p)
        (rw (parse_segments-dotted segments rest q) refl))

-- If ParseExcludePath accepts a rule, the text of its steps is the rule: no two rules have the
-- same steps, and nothing of a rule is passed over.
pub print-parse_exclude_path :
    (rule : Bytes) (steps : List ExcludeStep)
    → parse_exclude_path rule ≡ ok steps
    → print true steps ≡ rule
unfolding parse_exclude_path
print-parse_exclude_path rule steps h =
    let (found, p, p') = >>=-ok (parse_segments (split_dots rule) true) _ steps h in
    if-elim (λ (r : Parsed (List ExcludeStep)). r ≡ ok steps → print true steps ≡ rule)
      (ends_in_array found) _ _ (λ _ q. absurd (not_ok q))
      (λ _ q.
        rw (← ok-injective found steps q)
          (rw (parse_segments-joined (split_dots rule) found p) (joined-split_dots rule)))
      p'
