-- ===== src/Transport/Sse/Lines.antt =====
-- internal/transport/sse.go: what readLine and parseSSEDataLine make of a line.
use mini.Prelude.{
  ℕ, ◌+◌, ◌-◌, ◌≤◌, ◌≡◌, refl, subst, Bool, true, false, not, ◌||◌, [], ◌∷◌, ◌++◌, append-nil,
  append_assoc, some, Bytes, bytes_eq, codes, ◌==◌, ltb, length, length-append, all, arith,
}
use mini.Transport.Sse.{
  SseLimits, ok, line, read_line, parse_sse_data_line, data_of, append_bounded,
}

-- Not the end of a line.
abbrev pub is_inside : ℕ → Bool
is_inside b = not (b == b'\n' || b == b'\r')

-- A line within the limit is read up to its line feed.
pub read_line-inside :
    (limits : SseLimits) (so_far l rest : Bytes)
    → all is_inside l ≡ true
    → length so_far + length l ≤ limits.line_bytes
    → read_line limits so_far (l ++ b'\n' ∷ rest) ≡ ok (line (so_far ++ l) rest)
unfolding read_line
read_line-inside limits so_far [] rest h le = rw (append-nil so_far) refl
read_line-inside limits so_far (b ∷ l) rest h le =
    let no_lf : (b == b'\n') ≡ false = ground (arith, h) in
    let no_cr : (b == b'\r') ≡ false = ground (arith, h) in
    let short : ltb limits.line_bytes (length (so_far ++ b ∷ [])) ≡ false =
      ground (arith, le, length-append so_far (b ∷ [])) in
    rw no_lf (
      rw no_cr (
        rw short (
          subst (λ r. read_line limits (so_far ++ b ∷ []) (l ++ b'\n' ∷ rest) ≡ ok (line r rest))
            (append_assoc so_far (b ∷ []) l)
            (read_line-inside limits (so_far ++ b ∷ []) l rest (ground (arith, h))
              (ground (arith, le, length-append so_far (b ∷ [])))))))

-- The value of a data line, behind its space.
pub data_of-line : (m : Bytes) → data_of (parse_sse_data_line (codes "data: " ++ m)) ≡ some m
unfolding parse_sse_data_line bytes_eq
data_of-line m = refl

pub append_bounded-fits :
    (m : Bytes) (max_bytes : ℕ) → length m ≤ max_bytes → append_bounded [] m max_bytes ≡ ok m
unfolding append_bounded
append_bounded-fits m max_bytes h =
    let fits : ltb (max_bytes - 0) (length m) ≡ false = ground (arith, h) in rw fits refl
