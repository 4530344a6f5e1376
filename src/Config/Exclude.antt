-- ===== src/Config/Exclude.antt =====
-- internal/config/projection_validation.go: exclude paths such as items[].author.login.
pub mod Shape
pub mod Printed
use mini.Prelude.{
  ℕ, zero, suc, ◌+◌, Bool, true, false, not, ◌&&◌, ◌||◌, List, [], ◌∷◌, ◌++◌, Option, none, some,
  Bytes, bytes_eq, ◌==◌, all, if◌then◌else◌,
}
use mini.Utf8.{within}
use mini.Config.Projection.{ProjectionConfig, FormatError, valid_response_format}

pub record ExcludeStep : Type 0 where
  pub field : Bytes
  pub array : Bool

pub data ExcludeError : Type 0 where
  empty_field bad_char bad_bracket numeric_index array_end : ExcludeError

pub data Parsed {ℓ} (A : Type ℓ) : Type ℓ where
  ok : A → Parsed A
  err : ExcludeError → Parsed A

infixl 5 ◌>>=◌
abbrev pub ◌>>=◌ {ℓ κ} : {A : Type ℓ} {B : Type κ} → Parsed A → (A → Parsed B) → Parsed B
ok a >>= f = f a
err e >>= f = err e

unfoldable pub is_exclude_field_byte : ℕ → Bool
is_exclude_field_byte b =
    within b'a' b'z' b || within b'A' b'Z' b || within b'0' b'9' b || b == b'_' || b == b'-'

-- strings.Split(s, "."): the first part, and those behind each dot.
abbrev push_first : ℕ → List Bytes → List Bytes
push_first c [] = (c ∷ []) ∷ []
push_first c (part ∷ parts) = (c ∷ part) ∷ parts

unfoldable pub split_dots : Bytes → List Bytes
split_dots [] = [] ∷ []
split_dots (c ∷ cs) = let rest = split_dots cs in if c == b'.' then [] ∷ rest else push_first c rest

-- The bytes of a field name in front, and what follows.
unfoldable pub span_field : Bytes → Bytes × Bytes
unfolding is_exclude_field_byte
span_field [] = ([], [])
span_field (c ∷ cs) =
    let rest = span_field cs in
    if is_exclude_field_byte c then (c ∷ rest.0, rest.1) else ([], c ∷ cs)

abbrev pub extend_inner : ℕ → Option (Bytes × Bytes) → Option (Bytes × Bytes)
extend_inner c none = none
extend_inner c (some (inner, after)) = some (c ∷ inner, after)

-- strings.IndexByte(s, ']'): what stands before and behind the first closing bracket.
unfoldable pub cut_closing : Bytes → Option (Bytes × Bytes)
cut_closing [] = none
cut_closing (c ∷ cs) =
    let rest = cut_closing cs in if c == b']' then some ([], cs) else extend_inner c rest

abbrev is_bracket : ℕ → Bool
is_bracket c = c == b'[' || c == b']'

-- The switch of countArraySteps on what stands in the brackets; strings.Trim leaves nothing of a
-- text that is all digits.
abbrev count_inner : Bytes → Parsed ℕ → Parsed ℕ
count_inner [] rest = do n ← rest; ok (n + 1)
count_inner (c ∷ cs) rest =
    if all (within b'0' b'9') (c ∷ cs) then err numeric_index else err bad_bracket

-- A round behind its search for the bracket; `go` counts the rest.
abbrev pub after_closing : (Bytes → Parsed ℕ) → Option (Bytes × Bytes) → Parsed ℕ
after_closing go none = err bad_bracket
after_closing go (some (inner, after)) = count_inner inner (go after)

-- countArraySteps on fuel: each round consumes two bytes at least.
unfoldable pub count_array_steps : ℕ → Bytes → Parsed ℕ
count_array_steps fuel [] = ok 0
count_array_steps zero (c ∷ cs) = err bad_bracket
count_array_steps (suc fuel) (c ∷ cs) =
    if not (is_bracket c)
    then err bad_char
    else if not (c == b'[')
    then err bad_bracket
    else after_closing (count_array_steps fuel) (cut_closing cs)

abbrev array_steps : ℕ → List ExcludeStep
array_steps zero = []
array_steps (suc n) = record { field = []; array = true } ∷ array_steps n

abbrev segment_steps : Bytes → ℕ → Bool → Parsed (List ExcludeStep)
segment_steps [] items first =
    if not first || items == 0 then err empty_field else ok (array_steps items)
segment_steps (c ∷ name) items first =
    ok (record { field = c ∷ name; array = false } ∷ array_steps items)

abbrev len : Bytes → ℕ
len [] = 0
len (c ∷ cs) = suc (len cs)

unfoldable pub parse_exclude_segment : Bytes → Bool → Parsed (List ExcludeStep)
unfolding span_field count_array_steps
parse_exclude_segment segment first =
    let (name, rest) = span_field segment in
    do items ← count_array_steps (len rest) rest; segment_steps name items first

unfoldable pub parse_segments : List Bytes → Bool → Parsed (List ExcludeStep)
unfolding parse_exclude_segment
parse_segments [] first = ok []
parse_segments (segment ∷ segments) first = do
  parsed ← parse_exclude_segment segment first
  rest ← parse_segments segments false
  ok (parsed ++ rest)

abbrev pub ends_in_array : List ExcludeStep → Bool
ends_in_array [] = false
ends_in_array (step ∷ []) = step.array
ends_in_array (step ∷ next ∷ steps) = ends_in_array (next ∷ steps)

unfoldable pub parse_exclude_path : Bytes → Parsed (List ExcludeStep)
unfolding split_dots parse_segments
parse_exclude_path rule = do
  steps ← parse_segments (split_dots rule) true
  if ends_in_array steps then err array_end else ok steps

pub data ProjectionError : Type 0 where
  bad_format : FormatError → ProjectionError
  bad_exclude : ExcludeError → ProjectionError

-- The loop of ValidateProjection; `none` is the nil error.
unfoldable pub validate_excludes : List Bytes → Option ProjectionError
validate_excludes [] = none
validate_excludes (path ∷ paths) = elim (parse_exclude_path path) [
  | err e ↦ some (bad_exclude e)
  | ok steps ↦ validate_excludes paths
]

unfoldable pub validate_projection : Option ProjectionConfig → Option ProjectionError
validate_projection none = none
validate_projection (some p) = elim (valid_response_format p.format) [
  | some e ↦ some (bad_format e)
  | none ↦ validate_excludes p.exclude
]
