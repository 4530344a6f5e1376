-- ===== src/Projection/Merge.antt =====
-- internal/projection/merge.go: the effective configuration.
use mini.Prelude.{
  Bool, true, false, ◌||◌, List, [], ◌∷◌, Option, none, some, Bytes, bytes_eq, codes, not,
  if◌then◌else◌,
}
use mini.Prelude.Int.{ℤ, pos}
use mini.Prelude.Map
use mini.Prelude.Map.{Map}
use mini.Config.Projection.{ProjectionConfig}
use mini.Config.Exclude.{ExcludeStep, Parsed, ok, err, parse_exclude_path}

pub record Defaults : Type 0 where
  pub string_limit : ℤ
  pub content_fields : List Bytes
  pub auto_strip_threshold : ℤ

pub record EffectiveConfig : Type 0 where
  pub include_only : List Bytes
  pub exclude : List (List ExcludeStep)
  pub array_limits : Map ℤ
  pub string_limits : Map ℤ
  pub default_array_limit : ℤ
  pub default_string_limit : ℤ
  pub strip_content : Bool
  pub content_field_set : Map Bool
  pub auto_strip_threshold : ℤ

abbrev or_else : Option ℤ → ℤ → ℤ
or_else none d = d
or_else (some v) d = v

unfoldable pub string_limit_for : EffectiveConfig → Bytes → ℤ
string_limit_for c field = or_else (Map.lookup c.string_limits field) c.default_string_limit

unfoldable pub array_limit_for : EffectiveConfig → Bytes → ℤ
array_limit_for c field =
    if not (bytes_eq field [])
    then or_else (Map.lookup c.array_limits field) c.default_array_limit
    else c.default_array_limit

unfoldable pub set_of : List Bytes → Map Bool
set_of [] = []
set_of (f ∷ fs) = Map.insert (set_of fs) f true

unfoldable pub effective_from_defaults : Defaults → EffectiveConfig
effective_from_defaults d = record {
  include_only = [];
  exclude = [];
  array_limits = [];
  string_limits = [];
  default_array_limit = pos 0;
  default_string_limit = d.string_limit;
  strip_content = false;
  content_field_set = set_of d.content_fields;
  auto_strip_threshold = d.auto_strip_threshold;
}

abbrev pub keep_parsed :
    Parsed (List ExcludeStep) → List (List ExcludeStep) → List (List ExcludeStep)
keep_parsed (ok steps) paths = steps ∷ paths
keep_parsed (err _) paths = paths

-- A rule that does not parse is left out.
unfoldable pub prepare_exclusions : List Bytes → List (List ExcludeStep)
prepare_exclusions [] = []
prepare_exclusions (rule ∷ rules) = keep_parsed (parse_exclude_path rule) (prepare_exclusions rules)

unfoldable pub apply_projection_config : EffectiveConfig → ProjectionConfig → EffectiveConfig
apply_projection_config e cfg = record e {
  include_only = cfg.include_only;
  exclude = prepare_exclusions cfg.exclude;
  array_limits = cfg.array_limits;
  default_array_limit =
      or_else (Map.lookup cfg.array_limits (codes "default")) e.default_array_limit;
  string_limits = cfg.string_limits;
  strip_content = cfg.strip_markup || e.strip_content;
}

unfoldable pub merge_with_defaults : Option ProjectionConfig → Defaults → EffectiveConfig
merge_with_defaults none d = effective_from_defaults d
merge_with_defaults (some cfg) d = apply_projection_config (effective_from_defaults d) cfg
