-- ===== src/Projection/Engine/Lossless.antt =====
-- internal/projection/engine.go: a response that Apply reports nothing about is passed on whole.
use mini.Prelude.{
  ℕ, zero, suc, ◌+◌, ◌≡◌, ap, refl, false, List, [], ◌∷◌, ◌++◌, Option, Bytes, length, if-elim,
  sort_by, insert_by, bytes_lt, contains, arith, ◌==◌, not,
}
use mini.Prelude.Int.{pos, exceeds}
use mini.Config.Projection.{ProjectionConfig}
use mini.Projection.Value.{
  Json, JsonItems, JsonFields, other, string, array, object, no_items, item, no_fields, field,
  count_items,
}
use mini.Projection.Merge.{Defaults, EffectiveConfig, string_limit_for, merge_with_defaults}
use mini.Projection.Excluded.{collapse_excluded, collapse_each}
use mini.Utf8.{runes}
use mini.Projection.Engine.{
  Log, both, close_array, Ctx, child, kept_of, items_log, should_strip, limit_string, cut_string,
  project_string, project, project_items, project_map, project_map_value, should_skip_field, apply,
  array_step, index_segment, root,
}

pub record Quiet (log : Log) : Type 0 where
  pub none_excluded : log.excluded ≡ []
  pub none_truncated : log.truncated ≡ []

-- No string is stripped, whatever its field and length.
pub record NoStrip (cfg : EffectiveConfig) : Type 0 where
  pub not_always : cfg.strip_content ≡ false
  pub not_by_size : cfg.auto_strip_threshold ≡ pos 0

cons_not_nil : {A : Type 0} {x : A} {xs : List A} → x ∷ xs ≡ [] → ⊥
cons_not_nil h = cc

append-is_nil : {A : Type 0} (xs ys : List A) → xs ++ ys ≡ [] → (xs ≡ []) × (ys ≡ [])
append-is_nil [] ys h = (refl, h)
append-is_nil (x ∷ xs) ys h = absurd cc

should_strip-NoStrip :
    (cfg : EffectiveConfig) (s name : Bytes) → NoStrip cfg → should_strip cfg s name ≡ false
unfolding should_strip
should_strip-NoStrip cfg s name h = rw h.not_always (rw h.not_by_size refl)

limit_string-Quiet :
    (s : Bytes) (c : Ctx) (name : Bytes)
    → Quiet (limit_string s c name).1
    → (limit_string s c name).0 ≡ s
unfolding limit_string cut_string
limit_string-Quiet s c name =
    if-elim (λ (r : Bytes × Log). Quiet r.1 → r.0 ≡ s)
      (exceeds (length (runes s)) (string_limit_for c.cfg name)) _ _
      (λ h q. absurd (cons_not_nil q.none_truncated)) (λ h q. refl)

module _ (strip_markup : Bytes → Bytes) where
  project_string-Quiet :
      (s : Bytes) (c : Ctx) (name : Bytes)
      → NoStrip c.cfg
      → Quiet (project_string strip_markup s c name).1
      → (project_string strip_markup s c name).0 ≡ s
  unfolding project_string
  project_string-Quiet s c name h =
      rw (should_strip-NoStrip c.cfg s name h) (limit_string-Quiet s c name)

  -- Each part of a quiet log is quiet.
  both-Quiet : (a b : Log) → Quiet (both a b) → Quiet a × Quiet b
  both-Quiet a b q =
      let (e, f) = append-is_nil a.excluded b.excluded q.none_excluded in
      let (t, u) = append-is_nil a.truncated b.truncated q.none_truncated in
      (
        record { none_excluded = e; none_truncated = t },
        record { none_excluded = f; none_truncated = u },
      )

  items_log-Quiet : (c : Ctx) (kept n : ℕ) → Quiet (items_log c kept n) → kept ≡ n
  unfolding items_log
  items_log-Quiet c kept n =
      if-elim (λ r. Quiet r → kept ≡ n) (not (kept == n)) _ _
        (λ h q. absurd (cons_not_nil q.none_truncated)) (λ h q. ground arith)

  close_array-keeps :
      (xs : JsonItems) (c : Ctx) (name : Bytes) (out : JsonItems × Log)
      → (kept_of xs c name ≡ count_items xs → Quiet out.1 → out.0 ≡ xs)
      → Quiet (close_array xs c name out).1
      → (close_array xs c name out).0 ≡ array xs
  close_array-keeps xs c name out keeps q =
      let (r, l) = both-Quiet _ _ q in ap array (keeps (items_log-Quiet c _ _ l) r)

  mutual
    unfolding project child

    project-keeps :
        (v : Json) (c : Ctx)
        → NoStrip c.cfg
        → Quiet (project strip_markup v c).1
        → (project strip_markup v c).0 ≡ v
    project-keeps (other text) c h q = refl
    project-keeps (string s) c h q = ap string (project_string-Quiet s c [] h q)
    project-keeps (array xs) c h q = close_array-keeps xs c [] _ (project_items-keeps _ 0 xs c h) q
    project-keeps (object fs) c h q = ap object (project_map-keeps fs c h q)

    project_items-keeps :
        (kept i : ℕ) (xs : JsonItems) (c : Ctx)
        → NoStrip c.cfg
        → kept ≡ count_items xs
        → Quiet (project_items strip_markup kept i xs c).1
        → (project_items strip_markup kept i xs c).0 ≡ xs
    project_items-keeps kept i no_items c h e q = refl
    project_items-keeps zero i (item v xs) c h e q = absurd (omega arith)
    project_items-keeps (suc kept) i (item v xs) c h e q =
        let (r, l) = both-Quiet _ _ q in
        rw (project-keeps v (child c (index_segment i) array_step 0) h r)
          (rw (project_items-keeps kept (i + 1) xs c h (omega arith) l) refl)

    project_map-keeps :
        (fs : JsonFields) (c : Ctx)
        → NoStrip c.cfg
        → Quiet (project_map strip_markup fs c).1
        → (project_map strip_markup fs c).0 ≡ fs
    project_map-keeps no_fields c h = λ q. refl
    project_map-keeps (field k v fs) c h =
        if-elim (λ (r : JsonFields × Log). Quiet r.1 → r.0 ≡ field k v fs) (should_skip_field k c) _
          _ (λ e q. absurd (cons_not_nil q.none_excluded))
          (λ e q.
            let (r, l) = both-Quiet _ _ q in
            rw (project_map_value-keeps v c k h r) (rw (project_map-keeps fs c h l) refl))

    project_map_value-keeps :
        (v : Json) (c : Ctx) (name : Bytes)
        → NoStrip c.cfg
        → Quiet (project_map_value strip_markup v c name).1
        → (project_map_value strip_markup v c name).0 ≡ v
    project_map_value-keeps (other text) c name h q = refl
    project_map_value-keeps (string s) c name h q = ap string (project_string-Quiet s _ name h q)
    project_map_value-keeps (array xs) c name h q =
        close_array-keeps xs _ name _ (project_items-keeps _ 0 xs _ h) q
    project_map_value-keeps (object fs) c name h q = ap object (project_map-keeps fs _ h q)

insert_by-not_nil : {A : Type 0} (key : A → Bytes) (a : A) (l : List A) → insert_by key a l ≡ [] → ⊥
unfolding insert_by
insert_by-not_nil key a [] = λ h. cc
insert_by-not_nil key a (b ∷ l) =
    if-elim (λ r. r ≡ [] → ⊥) (bytes_lt (key b) (key a)) _ _ (λ _ h. cons_not_nil h)
      (λ _ h. cons_not_nil h)

sort_by-is_nil : {A : Type 0} (key : A → Bytes) (l : List A) → sort_by key l ≡ [] → l ≡ []
unfolding sort_by
sort_by-is_nil key [] h = refl
sort_by-is_nil key (a ∷ l) h = absurd (insert_by-not_nil key a (sort_by key l) h)

collapse_excluded-is_nil : (l : List Bytes) → collapse_excluded l ≡ [] → l ≡ []
unfolding collapse_excluded collapse_each contains
collapse_excluded-is_nil [] h = refl
collapse_excluded-is_nil (p ∷ l) h = absurd (cons_not_nil (sort_by-is_nil _ _ h))

-- If the effective configuration strips no markup and Apply reports no excluded key and no
-- truncation, the summary is the response itself.
pub apply_lossless :
    (strip_markup : Bytes → Bytes) (value : Json) (cfg : Option ProjectionConfig)
    (defaults : Defaults)
    → NoStrip (merge_with_defaults cfg defaults)
    → (apply strip_markup value cfg defaults).excluded_keys ≡ []
    → (apply strip_markup value cfg defaults).truncated ≡ []
    → (apply strip_markup value cfg defaults).summary ≡ value
unfolding apply
apply_lossless strip_markup value cfg defaults h e t =
    project-keeps strip_markup value (root (merge_with_defaults cfg defaults)) h (record {
      none_excluded = sort_by-is_nil _ _ (collapse_excluded-is_nil _ e);
      none_truncated = sort_by-is_nil _ _ t;
    })
