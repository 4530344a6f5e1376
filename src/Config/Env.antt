-- ===== src/Config/Env.antt =====
-- internal/config/env_expand.go: ${VAR} in the fields of a server. The environment of the process, as
-- os.LookupEnv reads it, is a parameter; envVarRef (loader.go) is the regexp \$\{([^}]+)\}.
pub mod Exact
use mini.Prelude.{
  ℕ, zero, suc, ◌+◌, Bool, true, false, List, [], ◌∷◌, ◌++◌, map, Option, none, some, Bytes, codes,
  ◌==◌, length, is_empty, contains, if◌then◌else◌,
}
use mini.Prelude.Decimal.{decimal}
use mini.Prelude.Map.{Map}

-- A byte that stands for itself, or a reference to a variable.
pub data Piece : Type 0 where
  plain : ℕ → Piece
  reference : Bytes → Piece

abbrev pub behind : ℕ → Option Bytes → Option Bytes
behind c none = none
behind c (some name) = some (c ∷ name)

-- The text up to the first closing brace, if there is one.
unfoldable pub up_to_brace : Bytes → Option Bytes
up_to_brace [] = none
up_to_brace (c ∷ cs) = let rest = up_to_brace cs in if c == b'}' then some [] else behind c rest

abbrev not_empty : Option Bytes → Option Bytes
not_empty none = none
not_empty (some []) = none
not_empty (some (c ∷ cs)) = some (c ∷ cs)

-- A match of envVarRef at the start of the text: the name in it.
unfoldable pub match_at : Bytes → Option Bytes
match_at (c ∷ d ∷ cs) =
    if c == b'$' then (if d == b'{' then not_empty (up_to_brace cs) else none) else none
match_at _ = none

abbrev pub piece_and_rest : ℕ → Option Bytes → (ℕ → List Piece) → List Piece
piece_and_rest c none rest = plain c ∷ rest 0
piece_and_rest c (some name) rest = reference name ∷ rest (suc (suc (length name)))

-- The matches from left to right, and what is between them; the number counts bytes of a match that
-- are still to be passed over.
unfoldable pub pieces_from : ℕ → Bytes → List Piece
pieces_from skip [] = []
pieces_from (suc skip) (c ∷ cs) = pieces_from skip cs
pieces_from zero (c ∷ cs) = piece_and_rest c (match_at (c ∷ cs)) (λ skip. pieces_from skip cs)

abbrev pub pieces : Bytes → List Piece
pieces = pieces_from 0

abbrev pub ref_text : Bytes → Bytes
ref_text name = codes "${" ++ name ++ codes "}"

-- A field that cannot be expanded, and the variables that are missing.
pub record UnsetEnvError : Type 0 where
  pub field : Bytes
  pub names : List Bytes

pub data Expanded {ℓ} (A : Type ℓ) : Type ℓ where
  ok : A → Expanded A
  unset : UnsetEnvError → Expanded A

infixl 5 ◌>>=◌
abbrev pub ◌>>=◌ {ℓ κ} : {A : Type ℓ} {B : Type κ} → Expanded A → (A → Expanded B) → Expanded B
ok a >>= f = f a
unset e >>= f = unset e

pub record AuthConfig : Type 0 where
  pub token : Bytes
  pub client_secret : Bytes

-- The fields in which variables are expanded.
pub record ServerConfig : Type 0 where
  pub name : Bytes
  pub headers : Map Bytes
  pub env : List Bytes
  pub auth : Option AuthConfig

abbrev pub value_of : Bytes → Option Bytes → Bytes
value_of name none = ref_text name
value_of name (some value) = value

abbrev pub note : Bytes → Option Bytes → List Bytes → List Bytes
note name (some value) missing = missing
note name none missing = if contains missing name then missing else missing ++ name ∷ []

module _ (lookup_env : Bytes → Option Bytes) where
  unfoldable pub replaced : List Piece → Bytes
  replaced [] = []
  replaced (plain c ∷ ps) = c ∷ replaced ps
  replaced (reference name ∷ ps) = value_of name (lookup_env name) ++ replaced ps

  unfoldable pub missing_from : List Bytes → List Piece → List Bytes
  missing_from missing [] = missing
  missing_from missing (plain c ∷ ps) = missing_from missing ps
  missing_from missing (reference name ∷ ps) = missing_from (note name (lookup_env name) missing) ps

  unfoldable pub expand_env_value : Bytes → Bytes → Expanded Bytes
  expand_env_value field value =
      let missing = missing_from [] (pieces value) in
      if is_empty missing
      then ok (replaced (pieces value))
      else unset (record { field = field; names = missing })

  -- The range over the headers, in the order of the list.
  unfoldable pub expand_headers : Map Bytes → Expanded (Map Bytes)
  expand_headers [] = ok []
  expand_headers ((name, value) ∷ headers) =
      expand_env_value (codes "headers." ++ name) value >>= λ expanded.
      expand_headers headers >>= λ rest. ok ((name, expanded) ∷ rest)

  -- The environment from index i on.
  unfoldable pub expand_env_list : ℕ → List Bytes → Expanded (List Bytes)
  expand_env_list i [] = ok []
  expand_env_list i (value ∷ env) =
      expand_env_value (codes "env[" ++ decimal i ++ codes "]") value >>= λ expanded.
      expand_env_list (i + 1) env >>= λ rest. ok (expanded ∷ rest)

  abbrev expand_auth : Option AuthConfig → Expanded (Option AuthConfig)
  expand_auth none = ok none
  expand_auth (some auth) = expand_env_value (codes "auth.token") auth.token >>= λ token.
      expand_env_value (codes "auth.client_secret") auth.client_secret >>= λ secret.
      ok (some (record { token = token; client_secret = secret }))

  unfoldable pub expand_env_fields : ServerConfig → Expanded ServerConfig
  expand_env_fields sc = expand_headers sc.headers >>= λ headers.
      expand_env_list 0 sc.env >>= λ env. expand_auth sc.auth >>= λ auth.
      ok (record { name = sc.name; headers = headers; env = env; auth = auth })

  abbrev after_expansion :
      ServerConfig → Expanded ServerConfig → ServerConfig × Option UnsetEnvError
  after_expansion sc (ok expanded) = (expanded, none)
  after_expansion sc (unset e) = (sc, some e)

  -- expandServerEnv: the server with sc.UnsetEnv.
  unfoldable pub expand_server_env : ServerConfig → ServerConfig × Option UnsetEnvError
  expand_server_env sc = after_expansion sc (expand_env_fields sc)

-- envVarRef.FindString; an empty text is no match.
unfoldable pub find_ref : List Piece → Bytes
find_ref [] = []
find_ref (plain c ∷ ps) = find_ref ps
find_ref (reference name ∷ ps) = ref_text name

-- The fields that checkUnexpandedFields looks at, by name.
unfoldable pub arg_fields : ℕ → List Bytes → List (Bytes × Bytes)
arg_fields i [] = []
arg_fields i (arg ∷ args) = (codes "args[" ++ decimal i ++ codes "]", arg) ∷ arg_fields (i + 1) args

unfoldable pub first_unexpanded : List (Bytes × Bytes) → Option (Bytes × Bytes)
first_unexpanded [] = none
first_unexpanded ((name, value) ∷ fields) =
    let rest = first_unexpanded fields in
    let ref = find_ref (pieces value) in if is_empty ref then rest else some (name, ref)

-- The name of the first field with a reference, and the reference; `none` is a nil error.
unfoldable pub check_unexpanded_fields : Bytes → Bytes → List Bytes → Option (Bytes × Bytes)
check_unexpanded_fields url command args =
    first_unexpanded ((codes "url", url) ∷ (codes "command", command) ∷ arg_fields 0 args)
