-- ===== src/Tests/Registry.antt =====
-- internal/registry at concrete servers and aliases.
use mini.Prelude.{
  ◌≡◌, ◌≢◌, refl, ◌&&◌, List, [], ◌∷◌, none, some, Bytes, bytes_eq, codes, contains, if◌then◌else◌,
  arith,
}
use mini.Prelude.Map.{Map, string_at}
use mini.Config.Names.{hides, valid_tool_name, is_tool_byte}
use mini.Registry.Types.{ToolDefinition, ToolEntry}
use mini.Registry.Aliases.{is_usable, was_dropped, resolve_aliases}
use mini.Registry.Aliases.Distinct.{agent_name, agent_name-distinct, was_dropped-exact}
use mini.Registry.Tools.{
  Registry, empty, ServerParams, replace_server, remove_server, tool_def_names, lookup_tool,
  lookup_with_hidden,
}
use mini.Registry.Tools.Invariant.{IsConsistent, empty-IsConsistent, replace_server-IsConsistent}
use mini.Registry.Tools.Replace.{
  full_name_of, replace_server_isolated, lookup_with_hidden-remove_server,
}
use mini.Registry.Tools.Served.{replace_server_serves}

abbrev issue_tools : List Bytes
issue_tools = codes "list_issues" ∷ codes "get_issue" ∷ []

-- Both tools ask for one alias, so neither gets it.
abbrev one_alias : Map Bytes
one_alias = (codes "list_issues", codes "issues") ∷ (codes "get_issue", codes "issues") ∷ []

agent_name-distinct_example :
    agent_name (resolve_aliases issue_tools one_alias) (codes "list_issues")
    ≢ agent_name (resolve_aliases issue_tools one_alias) (codes "get_issue")
unfolding contains bytes_eq
agent_name-distinct_example =
    agent_name-distinct issue_tools one_alias (codes "list_issues") (codes "get_issue") refl refl
      (ground arith)

was_dropped-exact_example :
    was_dropped (resolve_aliases issue_tools one_alias) (codes "get_issue") ≡ (
      is_usable (string_at one_alias (codes "get_issue"))
      && bytes_eq
          (agent_name (resolve_aliases issue_tools one_alias) (codes "get_issue"))
          (codes "get_issue"))
unfolding contains bytes_eq
was_dropped-exact_example = was_dropped-exact issue_tools one_alias (codes "get_issue") refl

abbrev tool : Bytes → ToolDefinition
tool name = record {
  name = name;
  description = [];
  input_schema = [];
  annotations = [];
  title = [];
  output_schema = [];
  meta = [];
  icons = [];
  execution = [];
}

abbrev github : ServerParams
github = record {
  name = codes "github";
  defs = tool (codes "list_issues") ∷ tool (codes "get_issue") ∷ [];
  perm = some (record { hidden = codes "Get_Issue" ∷ [] });
  alias_by_tool_name = (codes "list_issues", codes "issues") ∷ [];
}

abbrev linear : ServerParams
linear = record {
  name = codes "linear";
  defs = tool (codes "issues") ∷ [];
  perm = none;
  alias_by_tool_name = [];
}

abbrev registered : Registry
registered = replace_server github empty

registered-IsConsistent : IsConsistent registered
registered-IsConsistent = replace_server-IsConsistent github empty refl empty-IsConsistent

replace_server-IsConsistent_example : IsConsistent (replace_server linear registered)
replace_server-IsConsistent_example =
    replace_server-IsConsistent linear registered refl registered-IsConsistent

replace_server_isolated_example :
    (lookup_tool (replace_server linear registered) (full_name_of (codes "github") (codes "issues"))
      ≡ lookup_tool registered (full_name_of (codes "github") (codes "issues")))
    × (lookup_with_hidden
          (replace_server linear registered)
          (full_name_of (codes "github") (codes "issues"))
        ≡ lookup_with_hidden registered (full_name_of (codes "github") (codes "issues")))
replace_server_isolated_example =
    replace_server_isolated linear registered (codes "github") (codes "issues")
      registered-IsConsistent refl refl (ground arith)

lookup_with_hidden-remove_server_example :
    lookup_with_hidden
      (remove_server (codes "github") registered)
      (full_name_of (codes "github") (codes "get_issue"))
    ≡ none
lookup_with_hidden-remove_server_example =
    lookup_with_hidden-remove_server (codes "github") (codes "get_issue") registered
      registered-IsConsistent refl

replace_server_serves_example :
    (e : ToolEntry) × (lookup_with_hidden registered (
        full_name_of (codes "github") (
          agent_name
            (resolve_aliases (tool_def_names github.defs) github.alias_by_tool_name)
            (codes "get_issue")))
      ≡ some e)
    × (lookup_tool registered (
          full_name_of (codes "github") (
            agent_name
              (resolve_aliases (tool_def_names github.defs) github.alias_by_tool_name)
              (codes "get_issue")))
        ≡ (if hides github.perm (codes "get_issue") then none else some e))
    × (e.tool_name.upstream_name ≡ codes "get_issue")
unfolding contains bytes_eq valid_tool_name is_tool_byte
replace_server_serves_example =
    replace_server_serves github empty (codes "get_issue") empty-IsConsistent refl refl refl
