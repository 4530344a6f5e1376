-- ===== src/Jq/Filter.antt =====
-- internal/jq/filter.go: the loop over the results of a filter and its caps. gojq's iterator is the
-- list of what it yields, and encoding/json's encoder a parameter.
pub mod Caps
use mini.Prelude.{
  ℕ, suc, ◌+◌, Bool, List, [], ◌∷◌, ◌++◌, Option, none, some, Bytes, ◌==◌, leb, ltb, length,
  if◌then◌else◌,
}

abbrev pub max_output_bytes : ℕ
max_output_bytes = 4194304

abbrev pub max_output_results : ℕ
max_output_results = 10000

pub data Yield {ℓ} (V : Type ℓ) : Type ℓ where
  value : V → Yield V
  failure : Yield V

pub data QueryError : Type 0 where
  query_failed too_many_results marshal_failed too_many_bytes : QueryError

pub data QueryOutcome : Type 0 where
  ok : Bytes → QueryOutcome
  err : QueryError → QueryOutcome

-- A line, behind a newline if it is not the first.
abbrev pub separated : ℕ → Bytes → Bytes
separated index l = if index == 0 then l else b'\n' ∷ l

abbrev pub write_line : Bytes → ℕ → Option Bytes → QueryOutcome
write_line b index none = err marshal_failed
write_line b index (some l) =
    if ltb max_output_bytes (length b + length (separated index l))
    then err too_many_bytes
    else ok (b ++ separated index l)

abbrev pub and_then : QueryOutcome → (Bytes → QueryOutcome) → QueryOutcome
and_then (ok b) f = f b
and_then (err e) f = err e

module _ {ℓ} {V : Type ℓ} (marshal_json : V → Option Bytes) where
  unfoldable pub write_result : Bytes → V → ℕ → QueryOutcome
  write_result b out index =
      if leb max_output_results index
      then err too_many_results
      else write_line b index (marshal_json out)

  -- The loop of runQuery from the result with the given index.
  unfoldable pub write_results : List (Yield V) → ℕ → Bytes → QueryOutcome
  write_results [] index b = ok b
  write_results (failure ∷ rest) index b = err query_failed
  write_results (value out ∷ rest) index b =
      and_then (write_result b out index) (write_results rest (index + 1))

  unfoldable pub run_query : List (Yield V) → QueryOutcome
  run_query results = write_results results 0 []
