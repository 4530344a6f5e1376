-- ===== src/Response/Store/Eviction.antt =====
-- internal/response/storage_cleanup.go: what evictOvershoot achieves.
use mini.Prelude.{
  ℕ, ◌+◌, ◌-◌, ◌≤◌, ◌≡◌, ◌⊎◌, inl, inr, subst, sym, ap, ◌∙◌, refl, Bool, false≢true, true, false,
  Member, here, there, Member-append, ◌||◌, not, List, [], ◌∷◌, ◌++◌, Bytes, length, if-elim, arith,
}
use mini.Prelude.Int.{ℤ}
use mini.Response.Store.{
  StoredFile, Store, over, is_zero, Evicted, evict_loop, evict_overshoot, record_write,
}
use mini.Response.Store.Accounting.{total, Accounted, out-kept, evict_overshoot-Accounted}

-- Is the store within its budget, or has it one file at most? A budget of 0 is no limit.
abbrev pub WithinBudget : Store → Type 0
WithinBudget s =
    (is_zero s.budget_bytes ≡ true)
    ⊎ (over s.used_bytes s.budget_bytes ≡ false)
    ⊎ (length s.files ≤ 1)

evict_loop-WithinBudget :
    (budget : ℤ) (used : ℕ) (files : List StoredFile)
    → (over (evict_loop budget used files).used budget ≡ false)
      ⊎ (length (evict_loop budget used files).kept ≤ 1)
unfolding evict_loop
evict_loop-WithinBudget budget used [] = inr (omega arith)
evict_loop-WithinBudget budget used (f ∷ []) = inr (omega arith)
evict_loop-WithinBudget budget used (f ∷ g ∷ files) =
    if-elim (λ (e : Evicted). (over e.used budget ≡ false) ⊎ (length e.kept ≤ 1)) (over used budget)
      _ _ (λ _. evict_loop-WithinBudget budget (used - f.size) (g ∷ files)) inl

evict_overshoot-WithinBudget : (s : Store) → WithinBudget (evict_overshoot s).1
unfolding evict_overshoot
evict_overshoot-WithinBudget s =
    if-elim (λ (r : List StoredFile × Store). WithinBudget r.1)
      (is_zero s.budget_bytes || not (over s.used_bytes s.budget_bytes)) _ _
      (λ e. no_limit (is_zero s.budget_bytes) (over s.used_bytes s.budget_bytes) e)
      (λ _. inr (evict_loop-WithinBudget s.budget_bytes s.used_bytes s.files))
  where
    no_limit : (z o : Bool) → (z || not o) ≡ true → {P : Type 0} → (z ≡ true) ⊎ (o ≡ false) ⊎ P
    no_limit true o e = inl refl
    no_limit false true e = absurd (false≢true e)
    no_limit false false e = inr (inl refl)

evict_loop-keeps_last :
    (budget : ℤ) (used : ℕ) (files : List StoredFile) (f : StoredFile)
    → Member f (evict_loop budget used (files ++ f ∷ [])).kept
unfolding evict_loop
evict_loop-keeps_last budget used [] f = here
evict_loop-keeps_last budget used (g ∷ []) f =
    if-elim (λ (e : Evicted). Member f e.kept) (over used budget) _ _ (λ _. here) (λ _. there here)
evict_loop-keeps_last budget used (g ∷ h ∷ files) f =
    if-elim (λ (e : Evicted). Member f e.kept) (over used budget) _ _
      (λ _. evict_loop-keeps_last budget (used - g.size) (h ∷ files) f)
      (λ _. there (there (Member-append files f)))

cons-injective :
    (x y : StoredFile) (xs ys : List StoredFile) → x ∷ xs ≡ y ∷ ys → (x ≡ y) × (xs ≡ ys)
cons-injective x y xs ys h = (cc, cc)

nil_not_append : (before after : List StoredFile) (f : StoredFile) → [] ≡ before ++ f ∷ after → ⊥
nil_not_append [] after f h = cc
nil_not_append (x ∷ before) after f h = cc

-- An evicted file is the first one, with all behind it, or one of the later ones.
first_or_later :
    (budget : ℤ) (used : ℕ) (g : StoredFile) (files before after : List StoredFile) (f : StoredFile)
    → used ≡ total (g ∷ files)
    → over used budget ≡ true
    → (evict_loop budget (used - g.size) files).out
        ++ (evict_loop budget (used - g.size) files).kept
      ≡ files
    → ((b a : List StoredFile)
        → (evict_loop budget (used - g.size) files).out ≡ b ++ f ∷ a
        → over (total (f ∷ (a ++ (evict_loop budget (used - g.size) files).kept))) budget ≡ true)
    → g ∷ (evict_loop budget (used - g.size) files).out ≡ before ++ f ∷ after
    → over (total (f ∷ (after ++ (evict_loop budget (used - g.size) files).kept))) budget ≡ true
first_or_later budget used g files [] after f h e split later o =
    let rest = evict_loop budget (used - g.size) files in
    let (same, out) = cons-injective g f rest.out after o in
    subst (λ l. over (f.size + total l) budget ≡ true) (sym split ∙ ap (λ l. l ++ rest.kept) out)
      (subst (λ (x : StoredFile). over (x.size + total files) budget ≡ true) same
        (subst (λ n. over n budget ≡ true) h e))
first_or_later budget used g files (x ∷ before) after f h e split later o =
    later before after (cons-injective g x _ (before ++ f ∷ after) o).1

pub evict_overshoot-splits :
    (s : Store) → (evict_overshoot s).0 ++ (evict_overshoot s).1.files ≡ s.files
unfolding evict_overshoot
evict_overshoot-splits s =
    if-elim (λ (r : List StoredFile × Store). r.0 ++ r.1.files ≡ s.files)
      (is_zero s.budget_bytes || not (over s.used_bytes s.budget_bytes)) _ _ (λ _. refl)
      (λ _. out-kept s.budget_bytes s.used_bytes s.files)

-- The files from an evicted one on, to the end of the list, are over the budget.
evict_loop-needed :
    (budget : ℤ) (used : ℕ) (files before after : List StoredFile) (f : StoredFile)
    → used ≡ total files
    → (evict_loop budget used files).out ≡ before ++ f ∷ after
    → over (total (f ∷ (after ++ (evict_loop budget used files).kept))) budget ≡ true
unfolding evict_loop
evict_loop-needed budget used [] before after f h = λ o. absurd (nil_not_append before after f o)
evict_loop-needed budget used (g ∷ []) before after f h =
    λ o. absurd (nil_not_append before after f o)
evict_loop-needed budget used (g ∷ g' ∷ files) before after f h =
    if-elim
      (λ (e : Evicted).
        e.out ≡ before ++ f ∷ after → over (total (f ∷ (after ++ e.kept))) budget ≡ true)
      (over used budget) _ _
      (λ e.
        first_or_later budget used g (g' ∷ files) before after f h e
          (out-kept budget (used - g.size) (g' ∷ files))
          (λ b a. evict_loop-needed budget (used - g.size) (g' ∷ files) b a f (omega arith)))
      (λ _ o. absurd (nil_not_append before after f o))

evict_overshoot-needed :
    (s : Store)
    → Accounted s
    → (before after : List StoredFile) (f : StoredFile)
    → (evict_overshoot s).0 ≡ before ++ f ∷ after
    → over (total (f ∷ (after ++ (evict_overshoot s).1.files))) s.budget_bytes ≡ true
unfolding evict_overshoot
evict_overshoot-needed s h before after f =
    if-elim
      (λ (r : List StoredFile × Store).
        r.0 ≡ before ++ f ∷ after → over (total (f ∷ (after ++ r.1.files))) s.budget_bytes ≡ true)
      (is_zero s.budget_bytes || not (over s.used_bytes s.budget_bytes)) _ _
      (λ _ o. absurd (nil_not_append before after f o))
      (λ _. evict_loop-needed s.budget_bytes s.used_bytes s.files before after f h)

-- If the used bytes were counted, they are counted after an eviction, and what it leaves is
-- within the budget or at most one file, unless the budget is 0. It drops files from the front
-- of the list only, and each file it drops was over the budget together with all the files
-- behind it.
pub evict_overshoot_lem :
    (s : Store)
    → Accounted s
    → Accounted (evict_overshoot s).1
      × WithinBudget (evict_overshoot s).1
      × ((evict_overshoot s).0 ++ (evict_overshoot s).1.files ≡ s.files)
      × ((before after : List StoredFile) (f : StoredFile)
          → (evict_overshoot s).0 ≡ before ++ f ∷ after
          → over (total (f ∷ (after ++ (evict_overshoot s).1.files))) s.budget_bytes ≡ true)
evict_overshoot_lem s h = (
  evict_overshoot-Accounted s h,
  evict_overshoot-WithinBudget s,
  evict_overshoot-splits s,
  evict_overshoot-needed s h,
)

-- The file just written is not evicted.
pub record_write-Member :
    (path : Bytes) (size now : ℕ) (s : Store)
    → Member
        (record { path = path; size = size; expires = now + s.ttl })
        (record_write path size now s).1.files
unfolding record_write evict_overshoot
record_write-Member path size now s =
    let f : StoredFile = record { path = path; size = size; expires = now + s.ttl } in
    if-elim (λ (r : List StoredFile × Store). Member f r.1.files)
      (is_zero s.budget_bytes || not (over (s.used_bytes + size) s.budget_bytes)) _ _
      (λ _. Member-append s.files f)
      (λ _. evict_loop-keeps_last s.budget_bytes (s.used_bytes + size) s.files f)
