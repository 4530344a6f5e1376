-- ===== src/Jq/Path/Wildcards.antt =====
-- CollapseIndex after FormatPath, both of internal/jq/path.go.
use mini.Prelude.{Bool, [], ◌∷◌, Bytes, if◌then◌else◌}

module _ (first : Bool) (rest : Bytes) where
  abbrev dot : Bytes
  dot = if first then b'.' ∷ [] else []
