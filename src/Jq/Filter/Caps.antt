-- ===== src/Jq/Filter/Caps.antt =====
-- internal/jq/filter.go: what the caps of the output let through.
use mini.Prelude.{
  ℕ, ◌+◌, ◌≤◌, ◌≡◌, refl, sym, subst, false, List, [], ◌∷◌, ◌++◌, append-nil, append_assoc, Option,
  some, Bytes, leb, ltb, length, length-append, if-elim, Option-cases, inl, inr, arith,
}
use mini.Jq.Filter.{
  max_output_bytes, max_output_results, Yield, value, failure, QueryError, QueryOutcome, ok, err,
  separated, write_line, and_then, write_result, write_results, run_query,
}

-- The lines, the first with the given index, each but the very first behind a newline.
abbrev pub lines_from : ℕ → List Bytes → Bytes
lines_from index [] = []
lines_from index (l ∷ lines) = separated index l ++ lines_from (index + 1) lines

not_ok : {e : QueryError} (s : Bytes) → err e ≡ ok s → ⊥
not_ok s h = cc

ok-injective : (a b : Bytes) → ok a ≡ ok b → a ≡ b
ok-injective a b h = cc

module _ {V : Type 0} (marshal_json : V → Option Bytes) where
  -- The results are values, and these are their encodings.
  abbrev pub Encodes : List (Yield V) → List Bytes → Type 0
  Encodes [] [] = Unit
  Encodes (value out ∷ results) (l ∷ lines) = (marshal_json out ≡ some l) × Encodes results lines
  Encodes _ _ = ⊥

  write_results-fits :
      (results : List (Yield V)) (lines : List Bytes) (index : ℕ) (b : Bytes)
      → Encodes results lines
      → index + length lines ≤ max_output_results
      → length b + length (lines_from index lines) ≤ max_output_bytes
      → write_results marshal_json results index b ≡ ok (b ++ lines_from index lines)
  unfolding write_results write_result
  write_results-fits [] [] index b h n size = rw (append-nil b) refl
  write_results-fits (value out ∷ results) (l ∷ lines) index b h n size =
      let piece = separated index l in
      let few : leb max_output_results index ≡ false = ground (arith, n) in
      let small : ltb max_output_bytes (length b + length piece) ≡ false =
        ground (arith, size, length-append piece (lines_from (index + 1) lines)) in
      rw few (
        rw (h.0) (
          rw small (
            subst (λ s. write_results marshal_json results (index + 1) (b ++ piece) ≡ ok s)
              (append_assoc b piece (lines_from (index + 1) lines))
              (write_results-fits results lines (index + 1) (b ++ piece) h.1 (omega arith) (
                omega (
                  arith,
                  size,
                  length-append b piece,
                  length-append piece (lines_from (index + 1) lines),
                ))))))
  write_results-fits [] (l ∷ lines) index b h n size = absurd h
  write_results-fits (value out ∷ results) [] index b h n size = absurd h
  write_results-fits (failure ∷ results) [] index b h n size = absurd h
  write_results-fits (failure ∷ results) (l ∷ lines) index b h n size = absurd h

  -- If all results of a filter are values that encode, at most 10,000 of them and with the
  -- newlines between them at most 4 MiB, the output is their lines.
  pub run_query-fits :
      (results : List (Yield V)) (lines : List Bytes)
      → Encodes results lines
      → length lines ≤ max_output_results
      → length (lines_from 0 lines) ≤ max_output_bytes
      → run_query marshal_json results ≡ ok (lines_from 0 lines)
  unfolding run_query
  run_query-fits results lines h n size =
      write_results-fits results lines 0 [] h (omega arith) (omega arith)

  -- What a round that succeeds has written.
  write_result-ok :
      (b : Bytes) (out : V) (index : ℕ) (later : Bytes → QueryOutcome) (s : Bytes)
      → and_then (write_result marshal_json b out index) later ≡ ok s
      → (l : Bytes) × (marshal_json out ≡ some l)
        × (index + 1 ≤ max_output_results)
        × (length b + length (separated index l) ≤ max_output_bytes)
        × (later (b ++ separated index l) ≡ ok s)
  unfolding write_result
  write_result-ok b out index later s =
      let Goal =
        (l : Bytes) × (marshal_json out ≡ some l)
        × (index + 1 ≤ max_output_results)
        × (length b + length (separated index l) ≤ max_output_bytes)
        × (later (b ++ separated index l) ≡ ok s) in
      if-elim (λ (r : QueryOutcome). and_then r later ≡ ok s → Goal) (leb max_output_results index)
        _ _ (λ _ h. absurd (not_ok s h))
        (λ few. elim (Option-cases (marshal_json out)) [
          | inl m ↦
              λ h. absurd (not_ok s (subst (λ o. and_then (write_line b index o) later ≡ ok s) m h))
          | inr (l, m) ↦ λ h.
              if-elim (λ (r : QueryOutcome). and_then r later ≡ ok s → Goal)
                (ltb max_output_bytes (length b + length (separated index l))) _ _
                (λ _ h. absurd (not_ok s h))
                (λ small h. (l, m, ground (arith, few), ground (arith, small), h))
                (subst (λ o. and_then (write_line b index o) later ≡ ok s) m h)
        ])

  write_results_sound :
      (results : List (Yield V)) (index : ℕ) (b s : Bytes)
      → index ≤ max_output_results
      → length b ≤ max_output_bytes
      → write_results marshal_json results index b ≡ ok s
      → (lines : List Bytes) × Encodes results lines
        × (s ≡ b ++ lines_from index lines)
        × (length s ≤ max_output_bytes)
        × (index + length results ≤ max_output_results)
  unfolding write_results
  write_results_sound [] index b s n size h =
      let same : b ≡ s = ok-injective b s h in
      (
        [],
        tt,
        rw (append-nil b) (sym same),
        subst (λ r. length r ≤ max_output_bytes) same size,
        omega arith,
      )
  write_results_sound (failure ∷ results) index b s n size h = absurd (not_ok s h)
  write_results_sound (value out ∷ results) index b s n size h =
      let (l, m, few, small, rest) =
        write_result-ok b out index (write_results marshal_json results (index + 1)) s h in
      let piece = separated index l in
      let (lines, enc, same, fits, count) =
        write_results_sound results (index + 1) (b ++ piece) s few
          (omega (arith, small, length-append b piece)) rest in
      (
        l ∷ lines,
        (m, enc),
        rw (← append_assoc b piece (lines_from (index + 1) lines)) same,
        fits,
        omega (arith, count),
      )

  -- If a filter gives an output, all its results were values that encode, the output is their
  -- lines with newlines between them, and it is within both caps.
  pub run_query-ok :
      (results : List (Yield V)) (s : Bytes)
      → run_query marshal_json results ≡ ok s
      → (lines : List Bytes) × Encodes results lines
        × (s ≡ lines_from 0 lines)
        × (length s ≤ max_output_bytes)
        × (length results ≤ max_output_results)
  unfolding run_query
  run_query-ok results s h =
      let (lines, enc, same, fits, count) =
        write_results_sound results 0 [] s (omega arith) (omega arith) h in
      (lines, enc, same, fits, omega (arith, count))
