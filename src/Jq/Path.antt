-- ===== src/Jq/Path.antt =====
-- internal/jq/path.go: FormatPath and CollapseIndex.
mod Collapse
mod Quoted
pub mod Pieces
pub mod Wildcards
use mini.Prelude.{
  ℕ, zero, suc, ◌+◌, Bool, true, false, not, ◌&&◌, ◌||◌, List, [], ◌∷◌, ◌++◌, Bytes, has_prefix,
  ◌==◌, all, any, length, if◌then◌else◌,
}
use mini.Utf8.{within, runes}
use mini.Json.{marshal_string}

unfoldable pub is_digit : ℕ → Bool
is_digit = within b'0' b'9'

unfoldable pub is_ident_rune : ℕ → Bool
is_ident_rune r = within b'a' b'z' r || within b'A' b'Z' r || within b'0' b'9' r || r == b'_'

abbrev ident_safe_runes : List ℕ → Bool
ident_safe_runes [] = false
ident_safe_runes (r ∷ rs) = not (is_digit r) && all is_ident_rune (r ∷ rs)

-- isIdentSafe
unfoldable pub is_ident_safe : Bytes → Bool
unfolding is_digit is_ident_rune
is_ident_safe s = ident_safe_runes (runes s)

abbrev is_empty : Bytes → Bool
is_empty [] = true
is_empty (c ∷ cs) = false

-- writeSegment; the first argument is the builder.
unfoldable pub write_segment : Bytes → Bytes → Bytes
write_segment b seg =
    if is_ident_safe seg
    then b ++ (b'.' ∷ seg)
    else let b' = if is_empty b then b'.' ∷ [] else b in
      if has_prefix seg (b'[' ∷ [])
      then b' ++ seg
      else b' ++ (b'[' ∷ (marshal_string seg ++ (b']' ∷ [])))

unfoldable pub write_segments : Bytes → List Bytes → Bytes
write_segments b [] = b
write_segments b (seg ∷ path) = write_segments (write_segment b seg) path

unfoldable pub format_path : List Bytes → Bytes
format_path [] = b'.' ∷ []
format_path (seg ∷ path) = write_segments [] (seg ∷ path)

-- copyQuotedKey behind its opening: what it writes, and what it leaves.
unfoldable pub copy_quoted : Bytes → Bytes × Bytes
copy_quoted [] = ([], [])
copy_quoted (c ∷ []) = (c ∷ [], [])
copy_quoted (c ∷ d ∷ cs) =
    let escaped = copy_quoted cs in
    let plain = copy_quoted (d ∷ cs) in
    if c == b'\\'
    then (c ∷ d ∷ escaped.0, escaped.1)
    else if c == b'"' && d == b']'
    then (b'"' ∷ b']' ∷ [], cs)
    else (c ∷ plain.0, plain.1)

-- The digits in front, counted, and what follows them.
unfoldable pub skip_digits : Bytes → ℕ × Bytes
unfolding is_digit
skip_digits [] = (0, [])
skip_digits (c ∷ cs) =
    let rest = skip_digits cs in if is_digit c then (rest.0 + 1, rest.1) else (0, c ∷ cs)

-- What an index [N] leaves behind it, or false with the text itself: collapseNumericIndex behind
-- its bracket.
abbrev closing : ℕ → Bytes → Bytes → Bool × Bytes
closing zero rest p = (false, p)
closing (suc n) [] p = (false, p)
closing (suc n) (c ∷ cs) p = if c == b']' then (true, cs) else (false, p)

unfoldable pub numeric_index : Bytes → Bool × Bytes
unfolding skip_digits
numeric_index p = let (n, rest) = skip_digits p in closing n rest p

abbrev opens_quote : Bytes → Bool
opens_quote [] = false
opens_quote (c ∷ cs) = c == b'"'

abbrev drop_one : Bytes → Bytes
drop_one [] = []
drop_one (c ∷ cs) = cs

-- The loop of CollapseIndex on fuel: one unit for each round, which consumes a byte at least.
unfoldable pub collapse_loop : ℕ → Bytes → Bytes
collapse_loop zero p = []
collapse_loop (suc fuel) [] = []
collapse_loop (suc fuel) (c ∷ cs) =
    let (written, rest) = copy_quoted (drop_one cs) in
    let (numeric, after) = numeric_index cs in
    let quoted = b'[' ∷ b'"' ∷ (written ++ collapse_loop fuel rest) in
    let index = b'[' ∷ b']' ∷ collapse_loop fuel after in
    let plain = c ∷ collapse_loop fuel cs in
    if c == b'[' && opens_quote cs then quoted else if c == b'[' && numeric then index else plain

unfoldable pub collapse_index : Bytes → Bytes
unfolding collapse_loop
collapse_index p = if any (λ c. c == b'[') p then collapse_loop (length p) p else p
