-- ===== src/Projection/Engine.antt =====
-- internal/projection/engine.go: the walk over a response and its report. StripMarkup of
-- content.go, which rests on a Markdown and an HTML library, is a parameter.
pub mod Lossless
pub mod Rules
pub mod Limits
use mini.Prelude.{
  ℕ, zero, suc, ◌+◌, ◌-◌, Bool, true, false, ◌&&◌, ◌||◌, not, List, [], ◌∷◌, ◌++◌, Option, Bytes,
  bytes_eq, ◌==◌, contains, is_empty, length, sort_by, if◌then◌else◌,
}
use mini.Prelude.Int.{ℤ, pos, exceeds, reaches, to_count, difference}
use mini.Prelude.Decimal.{decimal}
use mini.Prelude.Map
use mini.Utf8.{runes}
use mini.Jq.Path.{format_path}
use mini.Config.Projection.{ProjectionConfig}
use mini.Config.Exclude.{ExcludeStep}
use mini.Projection.Value.{
  Json, JsonItems, JsonFields, other, string, array, object, no_items, item, no_fields, field,
  count_items,
}
use mini.Projection.Merge.{
  Defaults, EffectiveConfig, string_limit_for, array_limit_for, merge_with_defaults,
}
use mini.Projection.Text.{truncate_at_boundary}
use mini.Projection.Excluded.{collapse_excluded}

pub record Truncation : Type 0 where
  pub jq_path : Bytes
  pub chars : ℤ
  pub items : ℕ

-- What the two slices behind projCtx receive during a call.
pub record Log : Type 0 where
  pub excluded : List Bytes
  pub truncated : List Truncation

abbrev pub quiet : Log
quiet = record { excluded = []; truncated = [] }

abbrev pub both : Log → Log → Log
both a b = record { excluded = a.excluded ++ b.excluded; truncated = a.truncated ++ b.truncated }

pub record Ctx : Type 0 where
  pub cfg : EffectiveConfig
  pub depth : ℕ
  pub path : List Bytes
  pub steps : List ExcludeStep

-- fmt.Sprintf("[%d]", i): the path segment of an array item.
unfoldable pub index_segment : ℕ → Bytes
index_segment i = b'[' ∷ decimal i ++ b']' ∷ []

abbrev pub field_step : Bytes → ExcludeStep
field_step name = record { field = name; array = false }

abbrev pub array_step : ExcludeStep
array_step = record { field = []; array = true }

unfoldable pub child : Ctx → Bytes → ExcludeStep → ℕ → Ctx
child c segment step depth_delta = record {
  cfg = c.cfg;
  depth = c.depth + depth_delta;
  path = c.path ++ segment ∷ [];
  steps = if is_empty c.cfg.exclude then [] else c.steps ++ step ∷ [];
}

abbrev pub bool_eq : Bool → Bool → Bool
bool_eq true b = b
bool_eq false b = not b

unfoldable pub step_eq : ExcludeStep → ExcludeStep → Bool
step_eq a b = bytes_eq a.field b.field && bool_eq a.array b.array

-- The rule is the parent's steps and the field: len(rule) == len(parent)+1 and equal step by step.
unfoldable pub matches_rule : Bytes → List ExcludeStep → List ExcludeStep → Bool
matches_rule key [] [] = false
matches_rule key [] (step ∷ []) = step_eq step (field_step key)
matches_rule key [] (step ∷ next ∷ rule) = false
matches_rule key (p ∷ parent) [] = false
matches_rule key (p ∷ parent) (step ∷ rule) = step_eq p step && matches_rule key parent rule

unfoldable pub is_excluded : Bytes → List ExcludeStep → List (List ExcludeStep) → Bool
is_excluded key parent [] = false
is_excluded key parent (rule ∷ rules) = matches_rule key parent rule || is_excluded key parent rules

abbrev is_included : Bytes → List Bytes → Bool
is_included key include_only = contains include_only key

unfoldable pub should_skip_field : Bytes → Ctx → Bool
should_skip_field key c =
    is_excluded key c.steps c.cfg.exclude
    || (c.depth == 0
        && (not (is_empty c.cfg.include_only) && not (is_included key c.cfg.include_only)))

-- How many items truncateArray keeps.
unfoldable pub kept_items : ℕ → ℤ → ℕ
kept_items original limit = if exceeds original limit then to_count limit else original

unfoldable pub items_log : Ctx → ℕ → ℕ → Log
items_log c kept original =
    if not (kept == original)
    then record {
      excluded = [];
      truncated =
          record { jq_path = format_path c.path; chars = pos 0; items = original - kept } ∷ [];
    }
    else quiet

-- projectNamedArray around its loop: how many items the loop sees, and the report behind it.
abbrev pub kept_of : JsonItems → Ctx → Bytes → ℕ
kept_of xs c field_name = kept_items (count_items xs) (array_limit_for c.cfg field_name)

abbrev pub close_array : JsonItems → Ctx → Bytes → JsonItems × Log → Json × Log
close_array xs c field_name (out, log) =
    (array out, both log (items_log c (kept_of xs c field_name) (count_items xs)))

abbrev pub add_item : Json × Log → JsonItems × Log → JsonItems × Log
add_item (w, log) (out, rest) = (item w out, both log rest)

abbrev pub add_field : Bytes → Json × Log → JsonFields × Log → JsonFields × Log
add_field k (w, log) (out, rest) = (field k w out, both log rest)

abbrev pub skip_field : Bytes → Ctx → JsonFields × Log → JsonFields × Log
skip_field k c (out, rest) =
    (out, both (record { excluded = format_path (c.path ++ k ∷ []) ∷ []; truncated = [] }) rest)

abbrev pub as_string : Bytes × Log → Json × Log
as_string (s, log) = (string s, log)

abbrev pub as_object : JsonFields × Log → Json × Log
as_object (fs, log) = (object fs, log)

unfoldable pub should_strip : EffectiveConfig → Bytes → Bytes → Bool
should_strip cfg s field_name =
    cfg.strip_content
    || (reaches (length s) cfg.auto_strip_threshold && Map.flag_at cfg.content_field_set field_name)

-- The part of projectString behind the stripping.
unfoldable pub cut_string : Bytes → Ctx → Bytes → Bytes × Log
cut_string s c cut = (
  cut,
  record {
    excluded = [];
    truncated =
        record {
          jq_path = format_path c.path;
          chars = difference (length (runes s)) (length (runes cut));
          items = 0;
        }
        ∷ [];
  },
)

unfoldable pub limit_string : Bytes → Ctx → Bytes → Bytes × Log
limit_string s c field_name =
    let limit = string_limit_for c.cfg field_name in
    if exceeds (length (runes s)) limit
    then cut_string s c (truncate_at_boundary s (to_count limit))
    else (s, quiet)

pub record Result : Type 0 where
  pub summary : Json
  pub excluded_keys : List Bytes
  pub truncated : List Truncation

abbrev pub root : EffectiveConfig → Ctx
root cfg = record { cfg = cfg; depth = 0; path = []; steps = [] }

module _ (strip_markup : Bytes → Bytes) where
  unfoldable pub project_string : Bytes → Ctx → Bytes → Bytes × Log
  project_string s c field_name =
      limit_string (if should_strip c.cfg s field_name then strip_markup s else s) c field_name

  unfoldable mutual
    pub project : Json → Ctx → Json × Log
    project (other text) c = (other text, quiet)
    project (string s) c = as_string (project_string s c [])
    project (array xs) c = close_array xs c [] (project_items (kept_of xs c []) 0 xs c)
    project (object fs) c = as_object (project_map fs c)

    -- The loop over the kept items; i is the index of the first.
    pub project_items : ℕ → ℕ → JsonItems → Ctx → JsonItems × Log
    project_items kept i no_items c = (no_items, quiet)
    project_items zero i (item v xs) c = (no_items, quiet)
    project_items (suc kept) i (item v xs) c =
        add_item (project v (child c (index_segment i) array_step 0))
          (project_items kept (i + 1) xs c)

    pub project_map : JsonFields → Ctx → JsonFields × Log
    project_map no_fields c = (no_fields, quiet)
    project_map (field k v fs) c =
        let kept = project_map_value v c k in
        let rest = project_map fs c in
        if should_skip_field k c then skip_field k c rest else add_field k kept rest

    pub project_map_value : Json → Ctx → Bytes → Json × Log
    project_map_value (other text) c name = (other text, quiet)
    project_map_value (string s) c name =
        as_string (project_string s (child c name (field_step name) 0) name)
    project_map_value (object fs) c name =
        as_object (project_map fs (child c name (field_step name) 1))
    project_map_value (array xs) c name =
        let d = child c name (field_step name) 1 in
        close_array xs d name (project_items (kept_of xs d name) 0 xs d)

  unfoldable pub apply : Json → Option ProjectionConfig → Defaults → Result
  apply value cfg defaults =
      let (summary, log) = project value (root (merge_with_defaults cfg defaults)) in
      record {
        summary = summary;
        excluded_keys = collapse_excluded (sort_by (λ p. p) log.excluded);
        truncated = sort_by (λ t. t.jq_path) log.truncated;
      }
