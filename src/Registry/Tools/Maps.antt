-- ===== src/Registry/Tools/Maps.antt =====
-- What the loops of registry.go do to a map, key by key.
use mini.Prelude.{
  ◌≡◌, refl, ◌||◌, List, [], ◌∷◌, ◌++◌, Option, none, some, Bytes, bytes_eq, bytes_eq_iff, contains,
  if◌then◌else◌, Bool-cases, inl, inr, arith,
}
use mini.Prelude.Map
use mini.Prelude.Map.{Map, IsUnique}
use mini.Registry.Types.{ToolEntry}
use mini.Registry.Tools.{erase_entries, drop_server}

abbrev pub full_names : List ToolEntry → List Bytes
full_names [] = []
full_names (e ∷ es) = e.full_name ∷ full_names es

pub contains-full_names-append :
    (l : List ToolEntry) (e : ToolEntry) (k : Bytes)
    → contains (full_names (l ++ e ∷ [])) k ≡ (contains (full_names l) k || bytes_eq e.full_name k)
unfolding contains
contains-full_names-append [] e k = ground arith
contains-full_names-append (x ∷ l) e k = ground (arith, contains-full_names-append l e k)

pub lookup-erase_entries :
    (l : List ToolEntry) (tools : Map ToolEntry) (k : Bytes)
    → Map.lookup (erase_entries tools l) k
      ≡ (if contains (full_names l) k then none else Map.lookup tools k)
unfolding erase_entries contains
lookup-erase_entries [] tools k = refl
lookup-erase_entries (e ∷ l) tools k = ground (
  arith,
  lookup-erase_entries l (Map.erase tools e.full_name) k,
  Map.lookup-erase tools e.full_name k,
)

-- The entry found, unless it is the server's.
abbrev pub unless_of : Bytes → Option ToolEntry → Option ToolEntry
unless_of server none = none
unless_of server (some e) = if bytes_eq e.server server then none else some e

lookup-drop_server-none :
    (m : Map ToolEntry) (server k : Bytes)
    → Map.lookup m k ≡ none
    → Map.lookup (drop_server m server) k ≡ none
unfolding drop_server Map.lookup
lookup-drop_server-none [] server k h = refl
lookup-drop_server-none ((j, e) ∷ m) server k h = ground (arith, lookup-drop_server-none m server k)

pub lookup-drop_server :
    (m : Map ToolEntry) (server k : Bytes)
    → IsUnique m
    → Map.lookup (drop_server m server) k ≡ unless_of server (Map.lookup m k)
unfolding drop_server Map.lookup
lookup-drop_server [] server k u = refl
lookup-drop_server ((j, e) ∷ m) server k u = ground (
  arith,
  bytes_eq_iff j k,
  lookup-drop_server m server k u.1,
  lookup-drop_server-none m server j u.0,
)

pub drop_server-IsUnique :
    (m : Map ToolEntry) (server : Bytes) → IsUnique m → IsUnique (drop_server m server)
unfolding drop_server
drop_server-IsUnique [] server u = tt
drop_server-IsUnique ((j, e) ∷ m) server u = elim (Bool-cases (bytes_eq e.server server)) [
  | inl h ↦ rw h (drop_server-IsUnique m server u.1)
  | inr h ↦ rw h (lookup-drop_server-none m server j u.0, drop_server-IsUnique m server u.1)
]
