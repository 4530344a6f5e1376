-- ===== src/Registry/Types.antt =====
-- internal/registry/types.go, and the tool definitions of internal/transport/connection.go.
use mini.Prelude.{[], ◌∷◌, Bytes}

pub record ToolDefinition : Type 0 where
  pub name : Bytes
  pub description : Bytes
  pub input_schema : Bytes
  pub annotations : Bytes
  pub title : Bytes
  pub output_schema : Bytes
  pub meta : Bytes
  pub icons : Bytes
  pub execution : Bytes

pub record ToolName : Type 0 where
  pub upstream_name : Bytes
  pub alias : Bytes

abbrev choose_name : Bytes → Bytes → Bytes
choose_name upstream [] = upstream
choose_name upstream (c ∷ cs) = c ∷ cs

-- ToolName.Name
unfoldable pub visible_name : ToolName → Bytes
visible_name n = choose_name n.upstream_name n.alias

pub record ToolEntry : Type 0 where
  pub server : Bytes
  pub tool_name : ToolName
  pub full_name : Bytes
  pub def : ToolDefinition
