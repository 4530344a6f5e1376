-- ===== src/Tests/Projection.antt =====
-- internal/projection and its settings at concrete values.
use mini.Prelude.{
  ◌≡◌, refl, false, true, [], ◌∷◌, some, none, Bytes, codes, bytes_eq, here, sort_by, contains,
}
use mini.Prelude.Int.{pos}
use mini.Prelude.Map
use mini.Config.Projection.{ProjectionConfig}
use mini.Config.Exclude.Printed.{print, print-parse_exclude_path}
use mini.Config.Exclude.{
  cut_closing, ok, err, parse_exclude_path, numeric_index, array_end, empty_field,
}
use mini.Utf8.{runes_after, decode_rune}
use mini.Projection.Value.{Json, other, string, array, object, no_items, item, no_fields, field}
use mini.Projection.Merge.{
  Defaults, merge_with_defaults, effective_from_defaults, array_limit_for, string_limit_for, set_of,
}
use mini.Projection.Engine.{
  Result, apply, project, project_string, limit_string, should_strip, should_skip_field,
  is_excluded, child, kept_items, items_log,
}
use mini.Projection.Engine.Lossless.{apply_lossless}
use mini.Projection.Engine.Rules.{addresses, apply-no_excluded}
use mini.Projection.Engine.Limits.{
  Fits, apply-Fits, names_of, top_fields, keep, shows, top_fields-apply,
}
use mini.Projection.Excluded.{collapse_excluded, collapse_each}

parse_exclude_path_run :
    parse_exclude_path (codes "items[].author")
    ≡ ok (
        record { field = codes "items"; array = false }
        ∷ record { field = []; array = true }
        ∷ record { field = codes "author"; array = false }
        ∷ [])
unfolding parse_exclude_path cut_closing
parse_exclude_path_run = refl

parse_exclude_path_errors :
    (parse_exclude_path (codes "a[3].b") ≡ err numeric_index)
    × (parse_exclude_path (codes "a[]") ≡ err array_end)
    × (parse_exclude_path (codes "a..b") ≡ err empty_field)
unfolding parse_exclude_path cut_closing
parse_exclude_path_errors = (refl, refl, refl)

abbrev issue : Bytes → Json
issue author =
    object
      (field (codes "author") (string author) (field (codes "id") (other (codes "1")) no_fields))

abbrev issues : Json
issues = object (
    field (codes "items") (array (item (issue (codes "ann")) (item (issue (codes "bob")) no_items)))
      no_fields)

abbrev no_author : ProjectionConfig
no_author = record {
  alias = [];
  format = [];
  exclude = codes "items[].author" ∷ [];
  include_only = [];
  array_limits = (codes "items", pos 1) ∷ [];
  string_limits = [];
  strip_markup = false;
}

abbrev plain : Defaults
plain = record { string_limit = pos 100; content_fields = []; auto_strip_threshold = pos 0 }

-- A StripMarkup that drops the text.
abbrev drop_markup : Bytes → Bytes
drop_markup s = []

abbrev projected : Result
projected = apply drop_markup issues (some no_author) plain

apply-no_excluded_example :
    addresses projected.summary (
      record { field = codes "items"; array = false }
      ∷ record { field = []; array = true }
      ∷ record { field = codes "author"; array = false }
      ∷ [])
    ≡ false
apply-no_excluded_example =
    apply-no_excluded drop_markup issues no_author plain (codes "items[].author") _ here
      parse_exclude_path_run

apply-Fits_example : Fits (merge_with_defaults (some no_author) plain) [] projected.summary
apply-Fits_example = apply-Fits drop_markup issues (some no_author) plain

-- Of the root fields a, b and c, b is excluded and c is not asked for.
abbrev picked : ProjectionConfig
picked = record {
  alias = [];
  format = [];
  exclude = codes "b" ∷ [];
  include_only = codes "b" ∷ codes "a" ∷ [];
  array_limits = [];
  string_limits = [];
  strip_markup = false;
}

abbrev three_fields : Json
three_fields = object (
    field (codes "a") (other (codes "1"))
      (field (codes "b") (other (codes "2")) (field (codes "c") (other (codes "3")) no_fields)))

top_fields-apply_example :
    top_fields (apply drop_markup three_fields (some picked) plain).summary ≡ codes "a" ∷ []
unfolding keep shows top_fields names_of parse_exclude_path cut_closing bytes_eq contains
top_fields-apply_example = top_fields-apply drop_markup three_fields (some picked) plain

apply_lossless_example : (apply drop_markup issues none plain).summary ≡ issues
unfolding apply merge_with_defaults effective_from_defaults project project_string limit_string
    should_strip should_skip_field is_excluded collapse_excluded sort_by child string_limit_for
    array_limit_for kept_items items_log runes_after decode_rune set_of Map.lookup collapse_each
    bytes_eq
apply_lossless_example =
    apply_lossless drop_markup issues none plain (record { not_always = refl; not_by_size = refl })
      refl refl

print-parse_exclude_path_example :
    print true (
      record { field = codes "items"; array = false }
      ∷ record { field = []; array = true }
      ∷ record { field = codes "author"; array = false }
      ∷ [])
    ≡ codes "items[].author"
print-parse_exclude_path_example =
    print-parse_exclude_path (codes "items[].author") _ parse_exclude_path_run
