-- ===== src/Tests/Env.antt =====
-- internal/config/env_expand.go at concrete values.
use mini.Prelude.{
  ◌≡◌, refl, Bytes, codes, [], ◌∷◌, Option, none, some, bytes_eq, contains, if◌then◌else◌,
}
use mini.Prelude.Decimal.{decimal, digits}
use mini.Config.Env.{
  up_to_brace, match_at, pieces_from, replaced, missing_from, expand_env_value, expand_headers,
  expand_env_list, expand_env_fields, expand_server_env, ServerConfig, ok, unset, find_ref,
  arg_fields, first_unexpanded, check_unexpanded_fields,
}
use mini.Config.Env.Exact.{IsExact, expand_env_value-IsExact}

abbrev home_only : Bytes → Option Bytes
home_only name = if bytes_eq name (codes "HOME") then some (codes "/root") else none

abbrev field_name : Bytes
field_name = codes "auth.token"

expand_env_value_runs :
    (expand_env_value home_only field_name (codes "a${HOME}/${}b$") ≡ ok (codes "a/root/${}b$"))
    × (expand_env_value home_only field_name (codes "${A}${B}${A}${HOME}")
        ≡ unset (record { field = field_name; names = codes "A" ∷ codes "B" ∷ [] }))
    × (check_unexpanded_fields (codes "http://a") (codes "run") (codes "x" ∷ codes "y${Z}" ∷ [])
        ≡ some (codes "args[1]", codes "${Z}"))
unfolding expand_env_value missing_from pieces_from match_at up_to_brace replaced bytes_eq contains
    check_unexpanded_fields first_unexpanded find_ref arg_fields decimal digits
expand_env_value_runs = (refl, refl, refl)

abbrev server : ServerConfig
server = record {
  name = codes "s";
  headers = (codes "X", codes "${HOME}") ∷ [];
  env = codes "A=${NONE}" ∷ [];
  auth = none;
}

expand_server_env_run :
    expand_server_env home_only server
    ≡ (server, some (record { field = codes "env[0]"; names = codes "NONE" ∷ [] }))
unfolding expand_server_env expand_env_fields expand_headers expand_env_list expand_env_value
    missing_from pieces_from match_at up_to_brace replaced bytes_eq contains decimal digits
expand_server_env_run = refl

expand_env_value-IsExact_example :
    IsExact home_only field_name
      (codes "${A}${B}${A}${HOME}")
      (expand_env_value home_only field_name (codes "${A}${B}${A}${HOME}"))
expand_env_value-IsExact_example =
    expand_env_value-IsExact home_only field_name (codes "${A}${B}${A}${HOME}")
