-- ===== src/Transport/Sse/Ends.antt =====
-- internal/transport/sse.go: how the loop of a scan ends.
use mini.Prelude.{
  ℕ, zero, suc, ◌+◌, ◌≤◌, ◌<◌, ◌≡◌, refl, subst, Bool, false, ◌&&◌, [], ◌∷◌, ◌++◌, Bytes, ◌==◌, ltb,
  length, length-append, if-elim, arith,
}
use mini.Transport.Sse.{
  SseLimits, SseError, Outcome, ok, err, ◌>>=◌, Line, line, end, consume_optional_lf, read_line,
  skip_bom, Scanner, process_line, after_line, scan, scan_sse_messages_with_limits,
}
use mini.Transport.Sse.Bounds.{Holds}

-- A line was read, and what follows it is shorter than n.
abbrev Taken : ℕ → Line → Type 0
Taken n end = ⊥
Taken n (line l rest) = length rest < n

length-consume_optional_lf : (body : Bytes) → length (consume_optional_lf body) ≤ length body
length-consume_optional_lf [] = omega arith
length-consume_optional_lf (b ∷ body) =
    if-elim (λ (r : Bytes). length r ≤ suc (length body)) (b == b'\n') _ _ (λ _. omega arith)
      (λ _. omega arith)

-- A line that is read takes a byte of the body, unless it began before.
read_line-Taken :
    (limits : SseLimits) (so_far body : Bytes)
    → 1 ≤ length so_far + length body
    → Holds (Taken (length so_far + length body)) (read_line limits so_far body)
unfolding read_line
read_line-Taken limits [] [] h = absurd (omega arith)
read_line-Taken limits (b ∷ so_far) [] h = omega arith
read_line-Taken limits so_far (b ∷ body) h =
    let longer = so_far ++ b ∷ [] in
    let Q = Holds (Taken (length so_far + suc (length body))) in
    if-elim Q (b == b'\n') _ _ (λ _. omega arith)
      (λ _.
        if-elim Q (b == b'\r') _ _ (λ _. omega (arith, length-consume_optional_lf body))
          (λ _.
            if-elim Q (ltb limits.line_bytes (length longer)) _ _ (λ _. tt)
              (λ _.
                subst (λ n. Holds (Taken n) (read_line limits longer body))
                  (omega (arith, length-append so_far (b ∷ [])))
                  (read_line-Taken limits longer body
                    (omega (arith, length-append so_far (b ∷ [])))))))

module _ {S : Type 0} (valid : Bytes → Bool) (handle : Bytes → S → Outcome S)
    (limits : SseLimits) where
  -- The rounds of the loop on a body: to its end, or to the first line that is too long or that
  -- fails. Each round before the last reads a line and takes a byte at least.
  pub data Runs : Bytes → Scanner valid handle → Outcome (Scanner valid handle) → Type 0 where
    at_eof : {s : Scanner valid handle} → Runs [] s (ok s)
    line_fails :
        {body : Bytes} {s : Scanner valid handle} {e : SseError}
        → read_line limits [] body ≡ err e
        → Runs body s (err e)
    round_fails :
        {body l rest : Bytes} {s : Scanner valid handle} {e : SseError}
        → read_line limits [] body ≡ ok (line l rest)
        → process_line valid handle limits l s ≡ err e
        → Runs body s (err e)
    round :
        {body l rest : Bytes} {s t : Scanner valid handle} {r : Outcome (Scanner valid handle)}
        → read_line limits [] body ≡ ok (line l rest)
        → length rest < length body
        → process_line valid handle limits l s ≡ ok t
        → Runs rest t r
        → Runs body s r

  Runs-processed :
      (body l rest : Bytes) (s : Scanner valid handle)
      (go : Bytes → Scanner valid handle → Outcome (Scanner valid handle))
      (o : Outcome (Scanner valid handle))
      → read_line limits [] body ≡ ok (line l rest)
      → length rest < length body
      → process_line valid handle limits l s ≡ o
      → ((t : Scanner valid handle) → Runs rest t (go rest t))
      → Runs body s (o >>= go rest)
  Runs-processed body l rest s go (ok t) e h p later = round e h p (later t)
  Runs-processed body l rest s go (err x) e h p later = round_fails e p

  Runs-after_line :
      (body : Bytes) (s : Scanner valid handle)
      (go : Bytes → Scanner valid handle → Outcome (Scanner valid handle)) (o : Outcome Line)
      → read_line limits [] body ≡ o
      → Holds (Taken (length body)) o
      → ((rest : Bytes) (t : Scanner valid handle)
          → length rest < length body
          → Runs rest t (go rest t))
      → Runs body s (o >>= after_line valid handle limits s go)
  Runs-after_line body s go (err x) e h later = line_fails e
  Runs-after_line body s go (ok end) e h later = absurd h
  Runs-after_line body s go (ok (line l rest)) e h later =
      Runs-processed body l rest s go (process_line valid handle limits l s) e h refl
        (λ t. later rest t h)

  Runs-scan :
      (fuel : ℕ) (body : Bytes) (s : Scanner valid handle)
      → length body < fuel
      → Runs body s (scan valid handle fuel limits body s)
  unfolding scan read_line
  Runs-scan zero body s h = absurd (omega arith)
  Runs-scan (suc fuel) [] s h = at_eof
  Runs-scan (suc fuel) (b ∷ body) s h =
      Runs-after_line (b ∷ body) s _ (read_line limits [] (b ∷ body)) refl
        (subst (λ n. Holds (Taken n) (read_line limits [] (b ∷ body))) (omega arith)
          (read_line-Taken limits [] (b ∷ body) (omega arith)))
        (λ rest t l. Runs-scan fuel rest t (omega arith))

length-skip_bom : (body : Bytes) → length (skip_bom body) ≤ length body
unfolding skip_bom
length-skip_bom [] = omega arith
length-skip_bom (a ∷ []) = omega arith
length-skip_bom (a ∷ b ∷ []) = omega arith
length-skip_bom (a ∷ b ∷ c ∷ body) =
    if-elim (λ (r : Bytes). length r ≤ length (a ∷ b ∷ c ∷ body))
      (a == 0xef && (b == 0xbb && c == 0xbf)) _ _ (λ _. omega arith) (λ _. omega arith)

-- Whatever the body, the scan is a finite run of the loop: its rounds read a line, take a byte
-- of the body at least, and process the line, until nothing of the body is left, a line is too
-- long, or the processing of a line fails; the scan gives the scanner of the end, or that error.
pub scan_sse_messages_with_limits-Runs :
    {S : Type 0} (valid : Bytes → Bool) (handle : Bytes → S → Outcome S) (limits : SseLimits)
    (body : Bytes) (handled : S)
    → Runs valid handle limits
        (skip_bom body)
        (record { event = []; seen_data = false; handled = handled })
        (scan_sse_messages_with_limits valid handle limits body handled)
unfolding scan_sse_messages_with_limits
scan_sse_messages_with_limits-Runs valid handle limits body handled =
    Runs-scan valid handle limits (suc (length body)) (skip_bom body) _
      (omega (arith, length-skip_bom body))
