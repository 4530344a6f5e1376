-- ===== src/Projection/Engine/Limits.antt =====
-- internal/projection/engine.go: how much of an array and of the root object Apply keeps.
use mini.Prelude.{
  ℕ, zero, suc, ◌+◌, ◌≤◌, ◌≡◌, ap, refl, Bool, false, not, ◌&&◌, ◌||◌, List, [], ◌∷◌, Option, none,
  some, Bytes, bytes_eq, any, Bool-cases, inl, inr, ◌∙◌, true, if-elim, if◌then◌else◌, arith,
  contains, is_empty,
}
use mini.Prelude.Int.{ℤ, pos, negsuc, exceeds}
use mini.Config.Projection.{ProjectionConfig}
use mini.Projection.Value.{
  Json, JsonItems, JsonFields, other, string, array, object, no_items, item, no_fields, field,
  count_items,
}
use mini.Config.Exclude.{ExcludeStep, Parsed, ok, err, parse_exclude_path}
use mini.Projection.Merge.{
  Defaults, EffectiveConfig, array_limit_for, effective_from_defaults, keep_parsed,
  prepare_exclusions, apply_projection_config, merge_with_defaults,
}
use mini.Projection.Engine.{
  Log, Ctx, child, field_step, array_step, index_segment, step_eq, matches_rule, is_excluded,
  kept_items, kept_of, close_array, should_skip_field, project, project_items, project_map,
  project_map_value, root, apply,
}

-- No array has more items than its limit, where a limit is above 0; an array that stands in no
-- field of an object has the limit of the empty field name.
unfoldable mutual
  pub Fits : EffectiveConfig → Bytes → Json → Type 0
  Fits cfg name (other text) = Unit
  Fits cfg name (string s) = Unit
  Fits cfg name (array xs) =
      (exceeds (count_items xs) (array_limit_for cfg name) ≡ false) × FitItems cfg xs
  Fits cfg name (object fs) = FitFields cfg fs

  pub FitItems : EffectiveConfig → JsonItems → Type 0
  FitItems cfg no_items = Unit
  FitItems cfg (item v xs) = Fits cfg [] v × FitItems cfg xs

  pub FitFields : EffectiveConfig → JsonFields → Type 0
  FitFields cfg no_fields = Unit
  FitFields cfg (field k v fs) = Fits cfg k v × FitFields cfg fs

kept_items-Fits : (n : ℕ) (limit : ℤ) → exceeds (kept_items n limit) limit ≡ false
unfolding kept_items
kept_items-Fits n (pos limit) = ground arith
kept_items-Fits n (negsuc limit) = refl

kept_items-le : (n : ℕ) (limit : ℤ) → kept_items n limit ≤ n
unfolding kept_items
kept_items-le n (pos limit) = ground arith
kept_items-le n (negsuc limit) = omega arith

module _ (strip_markup : Bytes → Bytes) where
  count-project_items :
      (kept i : ℕ) (xs : JsonItems) (c : Ctx)
      → kept ≤ count_items xs
      → count_items (project_items strip_markup kept i xs c).0 ≡ kept
  unfolding project_items
  count-project_items zero i no_items c h = refl
  count-project_items (suc kept) i no_items c h = absurd (omega arith)
  count-project_items zero i (item v xs) c h = refl
  count-project_items (suc kept) i (item v xs) c h =
      ap suc (count-project_items kept (i + 1) xs c (omega arith))

  close_array-Fits :
      (xs : JsonItems) (c : Ctx) (name : Bytes)
      → FitItems c.cfg (project_items strip_markup (kept_of xs c name) 0 xs c).0
      → Fits c.cfg name
          (close_array xs c name (project_items strip_markup (kept_of xs c name) 0 xs c)).0
  unfolding Fits
  close_array-Fits xs c name f =
      let limit = array_limit_for c.cfg name in
      (
        rw (count-project_items _ 0 xs c (kept_items-le (count_items xs) limit))
            (kept_items-Fits (count_items xs) limit),
        f,
      )

  mutual
    unfolding project child Fits

    project-Fits : (v : Json) (c : Ctx) → Fits c.cfg [] (project strip_markup v c).0
    project-Fits (other text) c = tt
    project-Fits (string s) c = tt
    project-Fits (array xs) c = close_array-Fits xs c [] (project_items-Fits _ 0 xs c)
    project-Fits (object fs) c = project_map-Fits fs c

    project_items-Fits :
        (kept i : ℕ) (xs : JsonItems) (c : Ctx)
        → FitItems c.cfg (project_items strip_markup kept i xs c).0
    project_items-Fits kept i no_items c = tt
    project_items-Fits zero i (item v xs) c = tt
    project_items-Fits (suc kept) i (item v xs) c = (
      project-Fits v (child c (index_segment i) array_step 0),
      project_items-Fits kept (i + 1) xs c,
    )

    project_map-Fits :
        (fs : JsonFields) (c : Ctx) → FitFields c.cfg (project_map strip_markup fs c).0
    project_map-Fits no_fields c = tt
    project_map-Fits (field k v fs) c =
        if-elim (λ (r : JsonFields × Log). FitFields c.cfg r.0) (should_skip_field k c) _ _
          (λ _. project_map-Fits fs c) (λ _. (project_map_value-Fits v c k, project_map-Fits fs c))

    project_map_value-Fits :
        (v : Json) (c : Ctx) (name : Bytes)
        → Fits c.cfg name (project_map_value strip_markup v c name).0
    project_map_value-Fits (other text) c name = tt
    project_map_value-Fits (string s) c name = tt
    project_map_value-Fits (array xs) c name =
        let d = child c name (field_step name) 1 in
        close_array-Fits xs d name (project_items-Fits _ 0 xs d)
    project_map_value-Fits (object fs) c name =
        project_map-Fits fs (child c name (field_step name) 1)

-- In the summary of Apply no array, at any depth, has more items than the effective limit for
-- the field that it stands in, or than the default limit if it stands in none.
pub apply-Fits :
    (strip_markup : Bytes → Bytes) (value : Json) (cfg : Option ProjectionConfig)
    (defaults : Defaults)
    → Fits (merge_with_defaults cfg defaults) [] (apply strip_markup value cfg defaults).summary
unfolding apply
apply-Fits strip_markup value cfg defaults =
    project-Fits strip_markup value (root (merge_with_defaults cfg defaults))

unfoldable pub names_of : JsonFields → List Bytes
names_of no_fields = []
names_of (field k v fs) = k ∷ names_of fs

unfoldable pub top_fields : Json → List Bytes
top_fields (object fs) = names_of fs
top_fields v = []

-- Is the rule the name of the field, alone?
abbrev pub names_field : Bytes → Parsed (List ExcludeStep) → Bool
names_field k (ok (step ∷ [])) = bytes_eq step.field k && not step.array
names_field k _ = false

-- A root field that no exclude rule of the configuration names alone, and that include_only lists
-- unless it is empty.
unfoldable pub shows : Option ProjectionConfig → Bytes → Bool
shows none k = true
shows (some cfg) k =
    not (any (λ rule. names_field k (parse_exclude_path rule)) cfg.exclude)
    && (is_empty cfg.include_only || contains cfg.include_only k)

unfoldable pub keep : (Bytes → Bool) → List Bytes → List Bytes
keep p [] = []
keep p (k ∷ ks) = let rest = keep p ks in if p k then k ∷ rest else rest

is_excluded-keep_parsed :
    (k : Bytes) (p : Parsed (List ExcludeStep)) (paths : List (List ExcludeStep))
    → is_excluded k [] (keep_parsed p paths) ≡ names_field k p || is_excluded k [] paths
unfolding is_excluded matches_rule step_eq
is_excluded-keep_parsed k (err e) paths = refl
is_excluded-keep_parsed k (ok []) paths = refl
is_excluded-keep_parsed k (ok (step ∷ [])) paths = elim (Bool-cases step.array) [
  | inl h ↦ rw h refl
  | inr h ↦ rw h refl
]
is_excluded-keep_parsed k (ok (step ∷ next ∷ steps)) paths = refl

is_excluded-prepare_exclusions :
    (k : Bytes) (rules : List Bytes)
    → is_excluded k [] (prepare_exclusions rules)
      ≡ any (λ rule. names_field k (parse_exclude_path rule)) rules
unfolding is_excluded prepare_exclusions
is_excluded-prepare_exclusions k [] = refl
is_excluded-prepare_exclusions k (rule ∷ rules) =
    is_excluded-keep_parsed k (parse_exclude_path rule) (prepare_exclusions rules)
    ∙ ap (λ b. names_field k (parse_exclude_path rule) || b)
        (is_excluded-prepare_exclusions k rules)

should_skip_field-root :
    (cfg : Option ProjectionConfig) (defaults : Defaults) (k : Bytes)
    → shows cfg k ≡ not (should_skip_field k (root (merge_with_defaults cfg defaults)))
unfolding shows should_skip_field merge_with_defaults effective_from_defaults
    apply_projection_config is_excluded
should_skip_field-root none defaults k = refl
should_skip_field-root (some cfg) defaults k =
    rw (is_excluded-prepare_exclusions k cfg.exclude) (ground arith)

project_map-names :
    (strip_markup : Bytes → Bytes) (fs : JsonFields) (cfg : EffectiveConfig) (p : Bytes → Bool)
    → ((k : Bytes) → p k ≡ not (should_skip_field k (root cfg)))
    → names_of (project_map strip_markup fs (root cfg)).0 ≡ keep p (names_of fs)
unfolding project_map keep names_of
project_map-names strip_markup no_fields cfg p h = refl
project_map-names strip_markup (field k v fs) cfg p h = rw (h k) (
    if-elim
      (λ (r : JsonFields × Log). names_of r.0 ≡ (
        if not (should_skip_field k (root cfg))
        then k ∷ keep p (names_of fs)
        else keep p (names_of fs)))
      (should_skip_field k (root cfg)) _ _ (λ e. rw e (project_map-names strip_markup fs cfg p h))
      (λ e. rw e (ap (◌∷◌ k) (project_map-names strip_markup fs cfg p h))))

-- The root fields of the summary of Apply are, in order, those of the response whose name alone
-- is no exclude rule of the configuration, as ParseExcludePath reads it, and that its
-- include_only lists, if it lists any; without a configuration they are all of them.
pub top_fields-apply :
    (strip_markup : Bytes → Bytes) (value : Json) (cfg : Option ProjectionConfig)
    (defaults : Defaults)
    → top_fields (apply strip_markup value cfg defaults).summary
      ≡ keep (shows cfg) (top_fields value)
unfolding apply project project_map keep names_of top_fields
top_fields-apply strip_markup (object fs) cfg defaults =
    project_map-names strip_markup fs (merge_with_defaults cfg defaults) (shows cfg)
      (should_skip_field-root cfg defaults)
top_fields-apply strip_markup (other text) cfg defaults = refl
top_fields-apply strip_markup (string s) cfg defaults = refl
top_fields-apply strip_markup (array xs) cfg defaults = refl
