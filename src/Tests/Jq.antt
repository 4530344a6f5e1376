-- ===== src/Tests/Jq.antt =====
-- internal/jq at concrete paths.
use mini.Prelude.{◌≡◌, refl, [], ◌∷◌, List, Bytes, codes, has_prefix}
use mini.Utf8.{runes_after, decode_rune}
use mini.Json.{marshal_string, marshal_rune}
use mini.Jq.Path.{
  format_path, write_segments, write_segment, is_ident_safe, collapse_index, copy_quoted,
  numeric_index,
}
use mini.Prelude.{Option, some}
use mini.Jq.Filter.{Yield, value, ok, run_query, write_results, write_result}

abbrev patch_path : List Bytes
patch_path = codes "files" ∷ codes "[3]" ∷ codes "body \"]text" ∷ []

format_path_run : format_path patch_path ≡ codes ".files[3][\"body \\\"]text\"]"
unfolding format_path write_segments write_segment is_ident_safe runes_after decode_rune has_prefix
    marshal_string marshal_rune
format_path_run = refl

collapse_index_run :
    collapse_index (codes ".files[3][\"foo[0]bar\"][12].x[a][]")
    ≡ codes ".files[][\"foo[0]bar\"][].x[a][]"
unfolding collapse_index copy_quoted numeric_index
collapse_index_run = refl

abbrev verbatim : Bytes → Option Bytes
verbatim out = some out

abbrev yielded : List (Yield Bytes)
yielded = value (codes "1") ∷ value (codes "\"a\"") ∷ []

abbrev shown : List Bytes
shown = codes "1" ∷ codes "\"a\"" ∷ []

run_query_run : run_query verbatim yielded ≡ ok (codes "1\n\"a\"")
unfolding run_query write_results write_result
run_query_run = refl
