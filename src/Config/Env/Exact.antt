-- ===== src/Config/Env/Exact.antt =====
-- internal/config/env_expand.go: what an expanded value is, and which variables an error names.
use mini.Prelude.{
  ℕ, zero, suc, ◌≡◌, refl, sym, ap, ◌∙◌, Bool, true, false, ◌&&◌, ◌||◌, List, [], ◌∷◌, ◌++◌, subst,
  any, Option, none, some, Bytes, bytes_eq, bytes_eq_iff, bytes_eq_refl, ◌==◌, ==_iff, length, drop,
  is_empty, contains, if-elim, arith,
}
use mini.Config.Env.{
  Piece, behind, piece_and_rest, plain, reference, up_to_brace, not_empty, match_at, pieces_from,
  pieces, value_of, Expanded, ok, unset, replaced, note, missing_from, expand_env_value,
}

-- What [^}]+ matches.
abbrev pub IsName : Bytes → Type 0
IsName name = (is_empty name ≡ false) × (any (λ c. c == b'}') name ≡ false)

-- The text begins with a reference.
abbrev pub Refers : Bytes → Type 0
Refers s = (name : Bytes) × (rest : Bytes) × IsName name × (s ≡ b'$' ∷ b'{' ∷ (name ++ b'}' ∷ rest))

-- The pieces of a text: from left to right each reference, and each byte at which none begins.
pub data Reads : List Piece → Bytes → Type 0 where
  done : Reads [] []
  refers :
      {name rest : Bytes} {ps : List Piece}
      → IsName name
      → Reads ps rest
      → Reads (reference name ∷ ps) (b'$' ∷ b'{' ∷ (name ++ b'}' ∷ rest))
  stays :
      {c : ℕ} {rest : Bytes} {ps : List Piece}
      → ¬ Refers (c ∷ rest)
      → Reads ps rest
      → Reads (plain c ∷ ps) (c ∷ rest)

-- A name that was found, with the brace behind it, is the start of the text.
abbrev Before : Bytes → Option Bytes → Type 0
Before s none = Unit
Before s (some name) =
    (any (λ c. c == b'}') name ≡ false) × (name ++ b'}' ∷ drop (suc (length name)) s ≡ s)

behind-Before :
    (c : ℕ) (s : Bytes) (o : Option Bytes)
    → (c == b'}') ≡ false
    → Before s o
    → Before (c ∷ s) (behind c o)
behind-Before c s none n h = tt
behind-Before c s (some name) n (b, h) = (rw n b, ap (λ r. c ∷ r) h)

up_to_brace-Before : (s : Bytes) → Before s (up_to_brace s)
unfolding up_to_brace
up_to_brace-Before [] = tt
up_to_brace-Before (c ∷ s) =
    if-elim (λ (o : Option Bytes). Before (c ∷ s) o) (c == b'}') _ _
      (λ e. (refl, ap (λ d. d ∷ s) (sym ((==_iff c b'}').0 e))))
      (λ n. behind-Before c s (up_to_brace s) n (up_to_brace-Before s))

up_to_brace-append :
    (name rest : Bytes)
    → any (λ c. c == b'}') name ≡ false
    → up_to_brace (name ++ b'}' ∷ rest) ≡ some name
unfolding up_to_brace
up_to_brace-append [] rest h = refl
up_to_brace-append (c ∷ name) rest h =
    let other : (c == b'}') ≡ false = ground arith in
    let tail : any (λ c. c == b'}') name ≡ false = ground arith in
    rw other (ap (behind c) (up_to_brace-append name rest tail))

match_at-reference :
    (name rest : Bytes) → IsName name → match_at (b'$' ∷ b'{' ∷ (name ++ b'}' ∷ rest)) ≡ some name
unfolding match_at
match_at-reference [] rest (e, h) = absurd (ground arith)
match_at-reference (c ∷ name) rest (e, h) = ap not_empty (up_to_brace-append (c ∷ name) rest h)

abbrev Found : ℕ → Bytes → Option Bytes → Type 0
Found c s none = Unit
Found c s (some name) =
    IsName name × (b'$' ∷ b'{' ∷ (name ++ b'}' ∷ drop (suc (suc (length name))) s) ≡ c ∷ s)

not_empty-Found :
    (c d : ℕ) (s : Bytes) (o : Option Bytes)
    → c ≡ b'$'
    → d ≡ b'{'
    → Before s o
    → Found c (d ∷ s) (not_empty o)
not_empty-Found c d s none e f h = tt
not_empty-Found c d s (some []) e f h = tt
not_empty-Found c d s (some (n ∷ name)) e f (b, h) =
    ((refl, b), rw e (rw f (ap (λ r. b'$' ∷ b'{' ∷ r) h)))

match_at-Found : (c : ℕ) (s : Bytes) → Found c s (match_at (c ∷ s))
unfolding match_at
match_at-Found c [] = tt
match_at-Found c (d ∷ s) =
    let Q = λ (o : Option Bytes). Found c (d ∷ s) o in
    if-elim Q (c == b'$') _ _
      (λ e.
        if-elim Q (d == b'{') _ _
          (λ f.
            not_empty-Found c d s (up_to_brace s) ((==_iff c b'$').0 e) ((==_iff d b'{').0 f)
              (up_to_brace-Before s))
          (λ _. tt))
      (λ _. tt)

not-Refers : (s : Bytes) → match_at s ≡ none → ¬ Refers s
not-Refers s h (name, rest, n, e) =
    none_not_some name (sym h ∙ ap match_at e ∙ match_at-reference name rest n)
  where
    none_not_some : (a : Bytes) → none ≡ some a → ⊥
    none_not_some a h = cc

Reads-piece_and_rest :
    (c : ℕ) (s : Bytes) (o : Option Bytes) (rest : ℕ → List Piece)
    → match_at (c ∷ s) ≡ o
    → Found c s o
    → ((skip : ℕ) → Reads (rest skip) (drop skip s))
    → Reads (piece_and_rest c o rest) (c ∷ s)
Reads-piece_and_rest c s none rest e m h = stays (not-Refers (c ∷ s) e) (h 0)
Reads-piece_and_rest c s (some name) rest e (n, m) h =
    let skip = suc (suc (length name)) in
    subst (λ r. Reads (reference name ∷ rest skip) r) m (refers n (h skip))

Reads-pieces_from : (skip : ℕ) (s : Bytes) → Reads (pieces_from skip s) (drop skip s)
unfolding pieces_from
Reads-pieces_from zero [] = done
Reads-pieces_from (suc skip) [] = done
Reads-pieces_from (suc skip) (c ∷ s) = Reads-pieces_from skip s
Reads-pieces_from zero (c ∷ s) =
    Reads-piece_and_rest c s (match_at (c ∷ s)) (λ skip. pieces_from skip s) refl
      (match_at-Found c s) (λ skip. Reads-pieces_from skip s)

contains-append :
    (xs : List Bytes) (x name : Bytes)
    → contains (xs ++ x ∷ []) name ≡ contains xs name || bytes_eq x name
unfolding contains
contains-append [] x name = ground arith
contains-append (y ∷ xs) x name = ground (arith, contains-append xs x name)

or_false : (x : Bool) → x ≡ x || false
or_false true = refl
or_false false = refl

abbrev is_none : Option Bytes → Bool
is_none none = true
is_none (some value) = false

contains-note :
    (r name : Bytes) (missing : List Bytes) (o : Option Bytes)
    → contains (note r o missing) name ≡ contains missing name || (bytes_eq r name && is_none o)
contains-note r name missing (some value) = ground arith
contains-note r name missing none =
    if-elim
      (λ (m : List Bytes). contains m name ≡ contains missing name || (bytes_eq r name && true))
      (contains missing r) _ _ (λ h. ground (arith, h, bytes_eq_iff r name))
      (λ _. contains-append missing r name ∙ ground arith)

module _ (lookup_env : Bytes → Option Bytes) where
  abbrev is_unset : Bytes → Bool
  is_unset name = is_none (lookup_env name)

  -- The pieces refer to the variable, and it is not set.
  unfoldable pub names_unset : Bytes → List Piece → Bool
  names_unset name [] = false
  names_unset name (plain c ∷ ps) = names_unset name ps
  names_unset name (reference r ∷ ps) = (bytes_eq r name && is_unset r) || names_unset name ps

  contains-missing_from :
      (missing : List Bytes) (ps : List Piece) (name : Bytes)
      → contains (missing_from lookup_env missing ps) name
        ≡ contains missing name || names_unset name ps
  unfolding missing_from names_unset
  contains-missing_from missing [] name = or_false (contains missing name)
  contains-missing_from missing (plain c ∷ ps) name = contains-missing_from missing ps name
  contains-missing_from missing (reference r ∷ ps) name =
      contains-missing_from (note r (lookup_env r) missing) ps name
      ∙ ap (λ b. b || names_unset name ps) (contains-note r name missing (lookup_env r))
      ∙ either (contains missing name) (bytes_eq r name && is_unset r) (names_unset name ps)
    where
      either : (x y z : Bool) → (x || y) || z ≡ x || (y || z)
      either true y z = refl
      either false y z = refl

  -- The pieces with each reference replaced by the value of its variable, which is set.
  pub data Expands : List Piece → Bytes → Type 0 where
    nothing : Expands [] []
    keeps :
        {c : ℕ} {ps : List Piece} {out : Bytes} → Expands ps out → Expands (plain c ∷ ps) (c ∷ out)
    replaces :
        {name value : Bytes} {ps : List Piece} {out : Bytes}
        → lookup_env name ≡ some value
        → Expands ps out
        → Expands (reference name ∷ ps) (value ++ out)

  Expands-reference :
      (name : Bytes) (ps : List Piece) (out : Bytes) (o : Option Bytes)
      → lookup_env name ≡ o
      → is_none o ≡ false
      → Expands ps out
      → Expands (reference name ∷ ps) (value_of name o ++ out)
  Expands-reference name ps out none e n h = absurd (ground arith)
  Expands-reference name ps out (some value) e n h = replaces e h

  Expands-replaced :
      (ps : List Piece)
      → ((name : Bytes) → names_unset name ps ≡ false)
      → Expands ps (replaced lookup_env ps)
  unfolding replaced names_unset
  Expands-replaced [] h = nothing
  Expands-replaced (plain c ∷ ps) h = keeps (Expands-replaced ps h)
  Expands-replaced (reference name ∷ ps) h =
      Expands-reference name ps (replaced lookup_env ps) (lookup_env name) refl
        (ground (arith, h name, bytes_eq_refl name))
        (Expands-replaced ps (λ other. ground (arith, h other)))

  -- An expanded value has its variables replaced; an error names those of the value that are unset.
  unfoldable pub IsExact : Bytes → Bytes → Expanded Bytes → Type 0
  IsExact field value (ok out) = (ps : List Piece) × Reads ps value × Expands ps out
  IsExact field value (unset e) =
      (ps : List Piece) × Reads ps value
      × (e.field ≡ field)
      × (is_empty e.names ≡ false)
      × ((name : Bytes) → contains e.names name ≡ names_unset name ps)

  -- A value is read from left to right as its references, a dollar sign and a name in braces,
  -- and the bytes at which no reference begins. If it is expanded, each reference is replaced by
  -- the value of its variable, which is set, and the other bytes stay; if not, the error is for
  -- the field and names, at least one, just the variables that the value refers to and that are
  -- not set.
  pub expand_env_value-IsExact :
      (field value : Bytes) → IsExact field value (expand_env_value lookup_env field value)
  unfolding IsExact expand_env_value contains
  expand_env_value-IsExact field value =
      let ps = pieces value in
      let missing = missing_from lookup_env [] ps in
      if-elim (IsExact field value) (is_empty missing) _ _
        (λ e. (
          ps,
          Reads-pieces_from 0 value,
          Expands-replaced ps
              (λ name. sym (contains-missing_from [] ps name) ∙ none_in missing name e),
        ))
        (λ e. (ps, Reads-pieces_from 0 value, refl, e, λ name. contains-missing_from [] ps name))
    where
      none_in : (l : List Bytes) (name : Bytes) → is_empty l ≡ true → contains l name ≡ false
      none_in [] name e = refl
      none_in (x ∷ l) name e = absurd (ground arith)
