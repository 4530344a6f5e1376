-- ===== src/Registry/Tools.antt =====
-- internal/registry/registry.go: the tools of every server. Each operation runs under the
-- registry's mutex, so it is one step.
mod Maps
pub mod Invariant
pub mod Replace
pub mod Served
use mini.Prelude.{
  ℕ, Bool, true, not, List, [], ◌∷◌, ◌++◌, Option, none, some, Bytes, bytes_eq, length, sort_by,
  if◌then◌else◌,
}
use mini.Prelude.Map
use mini.Prelude.Map.{Map, flag_at, list_at}
use mini.Config.Names.{PermissionsConfig, hides, valid_tool_name}
use mini.Registry.Types.{ToolDefinition, ToolName, ToolEntry, visible_name}
use mini.Registry.Aliases.{AliasResolution, alias_for, resolve_aliases}

pub record Registry : Type 0 where
  pub tools : Map ToolEntry
  pub hidden : Map ToolEntry
  pub by_server : Map (List ToolEntry)

-- New
abbrev pub empty : Registry
empty = record { tools = []; hidden = []; by_server = [] }

pub record ServerParams : Type 0 where
  pub name : Bytes
  pub defs : List ToolDefinition
  pub perm : Option PermissionsConfig
  pub alias_by_tool_name : Map Bytes

abbrev pub tool_def_names : List ToolDefinition → List Bytes
tool_def_names [] = []
tool_def_names (def ∷ defs) = def.name ∷ tool_def_names defs

pub build_entry : Bytes → ToolDefinition → Bytes → ToolEntry
build_entry server def alias =
    let name : ToolName = record { upstream_name = def.name; alias = alias } in
    record {
      server = server;
      tool_name = name;
      full_name = server ++ (b'.' ∷ visible_name name);
      def = def;
    }

-- insertEntryLocked
pub insert_entry : Registry → Bytes → ToolEntry → Bool → Registry
insert_entry r server entry is_hidden =
    if is_hidden
    then record r { hidden = Map.insert r.hidden entry.full_name entry }
    else record r {
      tools = Map.insert r.tools entry.full_name entry;
      by_server = Map.insert r.by_server server (list_at r.by_server server ++ entry ∷ []);
    }

-- One round of the loop of addServerLocked, over the names seen so far and the registry.
pub add_def :
    ServerParams → AliasResolution → ToolDefinition → Map Bool × Registry → Map Bool × Registry
add_def p resolution def (seen, r) =
    let entry = build_entry p.name def (alias_for resolution def.name) in
    if not (valid_tool_name def.name)
    then (seen, r)
    else if flag_at seen entry.full_name
    then (seen, r)
    else (Map.insert seen entry.full_name true, insert_entry r p.name entry (hides p.perm def.name))

pub add_each :
    ServerParams → AliasResolution → List ToolDefinition → Map Bool × Registry → Map Bool × Registry
add_each p resolution [] s = s
add_each p resolution (def ∷ defs) s = add_each p resolution defs (add_def p resolution def s)

pub add_server : ServerParams → Registry → Registry
add_server p r =
    let resolution = resolve_aliases (tool_def_names p.defs) p.alias_by_tool_name in
    (add_each p resolution p.defs ([], r)).1

-- The two loops of removeServerLocked.
pub erase_entries : Map ToolEntry → List ToolEntry → Map ToolEntry
erase_entries tools [] = tools
erase_entries tools (e ∷ es) = erase_entries (Map.erase tools e.full_name) es

pub drop_server : Map ToolEntry → Bytes → Map ToolEntry
drop_server [] server = []
drop_server ((k, e) ∷ m) server =
    let rest = drop_server m server in if bytes_eq e.server server then rest else (k, e) ∷ rest

pub remove_server : Bytes → Registry → Registry
remove_server server r = record {
  tools = erase_entries r.tools (list_at r.by_server server);
  hidden = drop_server r.hidden server;
  by_server = Map.erase r.by_server server;
}

pub replace_server : ServerParams → Registry → Registry
replace_server p r = add_server p (remove_server p.name r)

-- Lookup; `none` is the error "tool not found".
pub lookup_tool : Registry → Bytes → Option ToolEntry
lookup_tool r full_name = Map.lookup r.tools full_name

-- LookupWithHidden
pub lookup_with_hidden : Registry → Bytes → Option ToolEntry
lookup_with_hidden r full_name = elim (Map.lookup r.tools full_name) [
  | some e ↦ some e
  | none ↦ Map.lookup r.hidden full_name
]

abbrev entries_of : Map ToolEntry → List ToolEntry
entries_of [] = []
entries_of ((k, e) ∷ m) = e ∷ entries_of m

-- AllFull
pub all_full : Registry → List ToolEntry
all_full r = sort_by (λ e. e.full_name) (entries_of r.tools)

pub server_names : Registry → List Bytes
server_names r = Map.keys r.by_server

pub tool_count : Registry → Bytes → ℕ
tool_count r server = length (list_at r.by_server server)
