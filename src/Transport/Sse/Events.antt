-- ===== src/Transport/Sse/Events.antt =====
-- internal/transport/sse.go: a body of events yields their messages, in order and within the limit.
use mini.Prelude.{
  ℕ, zero, suc, ◌+◌, ◌*◌, ◌≤◌, ◌≡◌, refl, subst, Bool, true, false, List, [], ◌∷◌, ◌++◌, append-nil,
  append_assoc, Bytes, codes, length, length-append, all, All, arith,
}
use mini.Transport.Sse.{
  SseLimits, Outcome, ok, end, read_line, skip_bom, Scanner, flush, process_line, scan,
  scan_sse_messages_with_limits,
}
use mini.Transport.Sse.Lines.{is_inside, read_line-inside, data_of-line, append_bounded-fits}

-- The handler of splitHTTPMessagesWithLimits.
abbrev pub collect : Bytes → List Bytes → Outcome (List Bytes)
collect message messages = ok (messages ++ message ∷ [])

-- An event of one data line.
abbrev pub render : List Bytes → Bytes
render [] = []
render (m ∷ messages) = codes "data: " ++ m ++ b'\n' ∷ b'\n' ∷ render messages

-- A message that is valid, stands in one line, and fits the limits.
pub record Fits (valid : Bytes → Bool) (limits : SseLimits) (m : Bytes) : Type 0 where
  pub is_valid : valid m ≡ true
  pub one_line : all is_inside m ≡ true
  pub message_fits : length m ≤ limits.message_bytes
  pub line_fits : length m + 6 ≤ limits.line_bytes

all-data : (m : Bytes) → all is_inside m ≡ true → all is_inside (codes "data: " ++ m) ≡ true
all-data m h = h

module _ (valid : Bytes → Bool) (limits : SseLimits) where
  abbrev idle : List Bytes → Scanner valid collect
  idle handled = record { event = []; seen_data = false; handled = handled }

  abbrev filled : Bytes → List Bytes → Scanner valid collect
  filled m handled = record { event = m; seen_data = true; handled = handled }

  process_line-data :
      (m : Bytes) (handled : List Bytes)
      → length m ≤ limits.message_bytes
      → process_line valid collect limits (codes "data: " ++ m) (idle handled)
        ≡ ok (filled m handled)
  unfolding process_line
  process_line-data m handled h =
      rw (data_of-line m) (rw (append_bounded-fits m limits.message_bytes h) refl)

  process_line-flush :
      (m : Bytes) (handled : List Bytes)
      → valid m ≡ true
      → process_line valid collect limits [] (filled m handled) ≡ ok (idle (handled ++ m ∷ []))
  unfolding process_line flush
  process_line-flush m handled h = rw h refl

  read_line-end : read_line limits [] [] ≡ ok end
  unfolding read_line
  read_line-end = refl

  scan-render :
      (fuel : ℕ) (messages handled : List Bytes)
      → All (Fits valid limits) messages
      → 2 * length messages + 1 ≤ fuel
      → scan valid collect fuel limits (render messages) (idle handled)
        ≡ ok (idle (handled ++ messages))
  unfolding scan
  scan-render zero messages handled h le = absurd (omega arith)
  scan-render (suc fuel) [] handled h le = rw read_line-end (rw (append-nil handled) refl)
  scan-render (suc zero) (m ∷ messages) handled h le = absurd (omega arith)
  scan-render (suc (suc fuel)) (m ∷ messages) handled h le =
      let rest = render messages in
      let first =
        read_line-inside limits [] (codes "data: " ++ m) (b'\n' ∷ rest) (all-data m h.0.one_line)
          (omega (arith, h.0.line_fits)) in
      rw first (
        rw (process_line-data m handled h.0.message_fits) (
          rw (read_line-inside limits [] [] rest refl (omega arith)) (
            rw (process_line-flush m handled h.0.is_valid) (
              subst
                (λ l. scan valid collect fuel limits rest (idle (handled ++ m ∷ [])) ≡ ok (idle l))
                (append_assoc handled (m ∷ []) messages)
                (scan-render fuel messages (handled ++ m ∷ []) h.1 (omega arith))))))

  length-render : (messages : List Bytes) → 2 * length messages ≤ length (render messages)
  length-render [] = omega arith
  length-render (m ∷ messages) =
      omega (arith, length-render messages, length-append m (b'\n' ∷ b'\n' ∷ render messages))

  skip_bom-render : (messages : List Bytes) → skip_bom (render messages) ≡ render messages
  unfolding skip_bom
  skip_bom-render [] = refl
  skip_bom-render (m ∷ messages) = refl

  -- If each message is valid, in one line and within the limits, a body with one event for each
  -- message, its data in one line, hands exactly these messages to the handler, in order.
  pub scan_sse_messages_with_limits-render :
      (messages : List Bytes)
      → All (Fits valid limits) messages
      → scan_sse_messages_with_limits valid collect limits (render messages) [] ≡ ok (idle messages)
  unfolding scan_sse_messages_with_limits
  scan_sse_messages_with_limits-render messages h = rw (skip_bom-render messages) (
      scan-render (suc (length (render messages))) messages [] h
        (omega (arith, length-render messages)))
