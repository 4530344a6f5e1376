-- ===== src/Projection/Engine/Rules.antt =====
-- internal/projection/engine.go: what an exclusion rule addresses is not in the summary.
use mini.Prelude.{
  ℕ, zero, suc, ◌+◌, ◌≡◌, inl, inr, ap₂, refl, sym, some, Bool, false≢true, true, false, ◌&&◌, ◌||◌,
  List, [], ◌∷◌, ◌++◌, append_assoc, Bytes, bytes_eq_iff, bytes_eq_refl, if-elim, Bool-cases,
  Member, is_empty, here, there, subst, arith,
}
use mini.Config.Projection.{ProjectionConfig}
use mini.Config.Exclude.{ExcludeStep, Parsed, ok, err, ends_in_array, parse_exclude_path}
use mini.Config.Exclude.Shape.{parse_exclude_path-ok}
use mini.Projection.Merge.{
  Defaults, merge_with_defaults, apply_projection_config, prepare_exclusions, keep_parsed,
}
use mini.Projection.Value.{
  Json, JsonItems, JsonFields, other, string, array, object, no_items, item, no_fields, field,
}
use mini.Projection.Engine.{
  Log, Ctx, child, field_step, array_step, index_segment, bool_eq, step_eq, matches_rule,
  is_excluded, should_skip_field, project, project_items, project_map, project_map_value, root,
  apply,
}

-- Does the path of steps lead to a value in the JSON value?
unfoldable mutual
  pub addresses : Json → List ExcludeStep → Bool
  addresses v [] = true
  addresses (other text) (step ∷ rest) = false
  addresses (string s) (step ∷ rest) = false
  addresses (array xs) (step ∷ rest) = step_eq step array_step && in_items xs rest
  addresses (object fs) (step ∷ rest) = in_fields fs step rest

  pub in_items : JsonItems → List ExcludeStep → Bool
  in_items no_items rest = false
  in_items (item v xs) rest = addresses v rest || in_items xs rest

  pub in_fields : JsonFields → ExcludeStep → List ExcludeStep → Bool
  in_fields no_fields step rest = false
  in_fields (field k v fs) step rest =
      (step_eq step (field_step k) && addresses v rest) || in_fields fs step rest

-- The rest of a rule whose front is the path so far, as ParseExcludePath makes rules.
pub record Banned (rules : List (List ExcludeStep)) (steps rest : List ExcludeStep) : Type 0 where
  pub not_done : is_empty rest ≡ false
  pub ends_in_field : ends_in_array rest ≡ false
  pub is_rule : Member (steps ++ rest) rules

or_true : (b : Bool) → (b || true) ≡ true
or_true true = refl
or_true false = refl

step_eq_refl : (a : ExcludeStep) → step_eq a a ≡ true
unfolding step_eq
step_eq_refl a = elim (Bool-cases a.array) [
  | inl h ↦ rw h (rw (bytes_eq_refl a.field) refl)
  | inr h ↦ rw h (rw (bytes_eq_refl a.field) refl)
]

step_parts : (a b : ExcludeStep) → a.field ≡ b.field → a.array ≡ b.array → a ≡ b
step_parts a b f g = ap₂ (λ x y. record { field = x; array = y }) f g

bool_eq_sound : (a b : Bool) → bool_eq a b ≡ true → a ≡ b
bool_eq_sound true b h = cc
bool_eq_sound false b h = ground arith

step_eq_sound : (a b : ExcludeStep) → step_eq a b ≡ true → a ≡ b
unfolding step_eq
step_eq_sound a b h =
    step_parts a b ((bytes_eq_iff a.field b.field).0 (ground (arith, h)))
      (bool_eq_sound a.array b.array (ground (arith, h)))

matches_rule_own :
    (key : Bytes) (steps : List ExcludeStep)
    → matches_rule key steps (steps ++ field_step key ∷ []) ≡ true
unfolding matches_rule
matches_rule_own key [] = step_eq_refl (field_step key)
matches_rule_own key (p ∷ steps) = rw (step_eq_refl p) (matches_rule_own key steps)

is_excluded-Member :
    (key : Bytes) (steps : List ExcludeStep) (rules : List (List ExcludeStep))
    → Member (steps ++ field_step key ∷ []) rules
    → is_excluded key steps rules ≡ true
unfolding is_excluded
is_excluded-Member key steps [] m = elim m [ ]
is_excluded-Member key steps (rule ∷ rules) here = rw (matches_rule_own key steps) refl
is_excluded-Member key steps (rule ∷ rules) (there m) =
    rw (is_excluded-Member key steps rules m) (or_true _)

is_empty-Member : {A : Type 0} (a : A) (l : List A) → Member a l → is_empty l ≡ false
is_empty-Member a [] m = elim m [ ]
is_empty-Member a (x ∷ l) here = refl
is_empty-Member a (x ∷ l) (there m) = refl

Banned-step :
    (c : Ctx) (segment : Bytes) (step : ExcludeStep) (delta : ℕ) (rest : List ExcludeStep)
    → Banned c.cfg.exclude c.steps (step ∷ rest)
    → is_empty rest ≡ false
    → ends_in_array rest ≡ false
    → Banned c.cfg.exclude (child c segment step delta).steps rest
unfolding child
Banned-step c segment step delta rest b n e = record {
  not_done = n;
  ends_in_field = e;
  is_rule =
      rw (is_empty-Member _ _ b.is_rule) (rw (append_assoc c.steps (step ∷ []) rest) b.is_rule);
}

-- A step of the rule other than the one taken leads nowhere.
step-cases :
    (step own : ExcludeStep) (found : Bool)
    → (step ≡ own → found ≡ false)
    → (step_eq step own && found) ≡ false
step-cases step own found h = elim (Bool-cases (step_eq step own)) [
  | inl e ↦ rw (h (step_eq_sound step own e)) (rw e refl)
  | inr e ↦ rw e refl
]

-- A rule does not end in an array step, so more follows one.
Banned-item :
    (c : Ctx) (segment : Bytes) (delta : ℕ) (rest : List ExcludeStep)
    → Banned c.cfg.exclude c.steps (array_step ∷ rest)
    → Banned c.cfg.exclude (child c segment array_step delta).steps rest
Banned-item c segment delta [] b = absurd (false≢true (sym b.ends_in_field))
Banned-item c segment delta (next ∷ rest) b =
    Banned-step c segment array_step delta (next ∷ rest) b refl b.ends_in_field

-- A field that is not left out is not the end of a rule.
Banned-field :
    (c : Ctx) (k : Bytes) (delta : ℕ) (rest : List ExcludeStep)
    → should_skip_field k c ≡ false
    → Banned c.cfg.exclude c.steps (field_step k ∷ rest)
    → Banned c.cfg.exclude (child c k (field_step k) delta).steps rest
unfolding should_skip_field
Banned-field c k delta [] e b =
    absurd (ground (arith, e, is_excluded-Member k c.steps c.cfg.exclude b.is_rule))
Banned-field c k delta (next ∷ rest) e b =
    Banned-step c k (field_step k) delta (next ∷ rest) b refl b.ends_in_field

module _ (strip_markup : Bytes → Bytes) where
  mutual
    unfolding project child addresses

    project-bans :
        (v : Json) (c : Ctx) (rest : List ExcludeStep)
        → Banned c.cfg.exclude c.steps rest
        → addresses (project strip_markup v c).0 rest ≡ false
    project-bans v c [] b = absurd (false≢true (sym b.not_done))
    project-bans (other text) c (step ∷ rest) b = refl
    project-bans (string s) c (step ∷ rest) b = refl
    project-bans (array xs) c (step ∷ rest) b = step-cases step array_step _ (λ e.
        project_items-bans _ 0 xs c rest (subst (λ s. Banned c.cfg.exclude c.steps (s ∷ rest)) e b))
    project-bans (object fs) c (step ∷ rest) b = project_map-bans fs c step rest b

    project_items-bans :
        (kept i : ℕ) (xs : JsonItems) (c : Ctx) (rest : List ExcludeStep)
        → Banned c.cfg.exclude c.steps (array_step ∷ rest)
        → in_items (project_items strip_markup kept i xs c).0 rest ≡ false
    project_items-bans kept i no_items c rest b = refl
    project_items-bans zero i (item v xs) c rest b = refl
    project_items-bans (suc kept) i (item v xs) c rest b =
        rw
          (project-bans v (child c (index_segment i) array_step 0) rest
            (Banned-item c (index_segment i) 0 rest b))
          (project_items-bans kept (i + 1) xs c rest b)

    project_map-bans :
        (fs : JsonFields) (c : Ctx) (step : ExcludeStep) (rest : List ExcludeStep)
        → Banned c.cfg.exclude c.steps (step ∷ rest)
        → in_fields (project_map strip_markup fs c).0 step rest ≡ false
    project_map-bans no_fields c step rest b = refl
    project_map-bans (field k v fs) c step rest b =
        if-elim (λ (r : JsonFields × Log). in_fields r.0 step rest ≡ false) (should_skip_field k c)
          _ _ (λ e. project_map-bans fs c step rest b)
          (λ e.
            rw
              (step-cases step (field_step k) _ (λ s. project_map_value-bans v c k rest (
                Banned-field c k 0 rest e
                  (subst (λ s. Banned c.cfg.exclude c.steps (s ∷ rest)) s b))))
              (project_map-bans fs c step rest b))

    project_map_value-bans :
        (v : Json) (c : Ctx) (name : Bytes) (rest : List ExcludeStep)
        → Banned c.cfg.exclude (child c name (field_step name) 0).steps rest
        → addresses (project_map_value strip_markup v c name).0 rest ≡ false
    project_map_value-bans v c name [] b = absurd (false≢true (sym b.not_done))
    project_map_value-bans (other text) c name (step ∷ rest) b = refl
    project_map_value-bans (string s) c name (step ∷ rest) b = refl
    project_map_value-bans (array xs) c name (step ∷ rest) b = step-cases step array_step _ (λ e.
        project_items-bans _ 0 xs (child c name (field_step name) 1) rest (
          subst (λ s. Banned c.cfg.exclude (child c name (field_step name) 0).steps (s ∷ rest)) e
            b))
    project_map_value-bans (object fs) c name (step ∷ rest) b =
        project_map-bans fs (child c name (field_step name) 1) step rest b

prepare_exclusions-Member :
    (rules : List Bytes) (rule : Bytes) (steps : List ExcludeStep)
    → Member rule rules
    → parse_exclude_path rule ≡ ok steps
    → Member steps (prepare_exclusions rules)
unfolding prepare_exclusions
prepare_exclusions-Member [] rule steps m h = elim m [ ]
prepare_exclusions-Member (r ∷ rules) rule steps here h = rw h here
prepare_exclusions-Member (r ∷ rules) rule steps (there m) h =
    keep_parsed-Member (parse_exclude_path r) (prepare_exclusions-Member rules rule steps m h)
  where
    keep_parsed-Member :
        (p : Parsed (List ExcludeStep)) {paths : List (List ExcludeStep)}
        → Member steps paths
        → Member steps (keep_parsed p paths)
    keep_parsed-Member (ok found) k = there k
    keep_parsed-Member (err e) k = k

-- Whatever the response, a path that an exclude rule of the configuration names, parsed without
-- an error, leads to no value in the summary of Apply, at any depth and in any array item.
pub apply-no_excluded :
    (strip_markup : Bytes → Bytes) (value : Json) (cfg : ProjectionConfig) (defaults : Defaults)
    (rule : Bytes) (steps : List ExcludeStep)
    → Member rule cfg.exclude
    → parse_exclude_path rule ≡ ok steps
    → addresses (apply strip_markup value (some cfg) defaults).summary steps ≡ false
unfolding apply merge_with_defaults apply_projection_config
apply-no_excluded strip_markup value cfg defaults rule steps m h =
    let (n, e) = parse_exclude_path-ok rule steps h in
    project-bans strip_markup value (root (merge_with_defaults (some cfg) defaults)) steps (record {
      not_done = n;
      ends_in_field = e;
      is_rule = prepare_exclusions-Member cfg.exclude rule steps m h;
    })
