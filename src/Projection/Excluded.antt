-- ===== src/Projection/Excluded.antt =====
-- internal/projection/excluded.go: the excluded paths, one for all the items of an array, sorted.
pub mod Set
use mini.Prelude.{Bool, true, false, List, [], ◌∷◌, Bytes, contains, sort_by, if◌then◌else◌}
use mini.Jq.Path.{collapse_index}

-- The loop over the paths; `seen` holds the collapsed paths so far.
unfoldable pub collapse_each : List Bytes → List Bytes → List Bytes
collapse_each seen [] = []
collapse_each seen (p ∷ paths) =
    let wk = collapse_index p in
    let known = contains seen wk in
    let rest = collapse_each (if known then seen else wk ∷ seen) paths in
    if known then rest else wk ∷ rest

unfoldable pub collapse_excluded : List Bytes → List Bytes
collapse_excluded paths = sort_by (λ p. p) (collapse_each [] paths)
