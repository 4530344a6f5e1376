-- ===== src/Toon/Columns/Found.antt =====
-- internal/toon/array.go: a statement on the columns that were found, if any were.
use mini.Prelude.{◌≡◌, subst, Bool, true, false, Option, none, some, if◌then◌else◌}

-- The predicate holds of the answer, if there is one.
abbrev pub Found : {A : Type 0} → (A → Type 0) → Option A → Type 0
Found Q none = Unit
Found Q (some a) = Q a

pub Found-some : {A : Type 0} (Q : A → Type 0) (o : Option A) (a : A) → Found Q o → o ≡ some a → Q a
Found-some Q o a h e = subst (Found Q) e h

pub Found-map :
    {A : Type 0} {P Q : A → Type 0} (o : Option A) → ((a : A) → P a → Q a) → Found P o → Found Q o
Found-map none f h = tt
Found-map (some a) f h = f a h

pub Found-when :
    {A : Type 0} (Q : A → Type 0) (refused : Bool) (o : Option A)
    → Found Q o
    → Found Q (if refused then none else o)
Found-when Q true o h = tt
Found-when Q false o h = h
