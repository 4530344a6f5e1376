-- ===== src/Registry/Tools/Replace.antt =====
-- RemoveServer and ReplaceServer of registry.go: what they take away, and what they leave alone.
use mini.Prelude.{
  ◌≡◌, ◌≢◌, refl, sym, ap, ◌∙◌, Bool, true, false, List, [], ◌∷◌, ◌++◌, Option, none, some, Bytes,
  bytes_eq_iff, contains, All, if◌then◌else◌, Bool-cases, Option-cases, inl, inr, arith,
}
use mini.Prelude.Map
use mini.Prelude.Map.{Map, list_at, flag_at}
use mini.Config.Names.{is_dotless, dotless_split, valid_tool_name, hides}
use mini.Registry.Types.{ToolDefinition, ToolEntry, visible_name}
use mini.Registry.Aliases.{AliasResolution, alias_for, resolve_aliases}
use mini.Registry.Tools.{
  Registry, ServerParams, build_entry, insert_entry, add_def, add_each, add_server, remove_server,
  replace_server, tool_def_names, lookup_tool, lookup_with_hidden,
}
use mini.Registry.Tools.Maps.{full_names, lookup-erase_entries, unless_of, lookup-drop_server}
use mini.Registry.Tools.Invariant.{IsWellNamed, IsOwn, IsConsistent}

abbrev pub full_name_of : Bytes → Bytes → Bytes
full_name_of server tool = server ++ (b'.' ∷ tool)

-- What an agent's lookup and the hidden tools give at one key.
abbrev pub found_at : Registry → Bytes → Option ToolEntry × Option ToolEntry
found_at r k = (Map.lookup r.tools k, Map.lookup r.hidden k)

server_of_key :
    (e : ToolEntry) (server tool : Bytes)
    → IsWellNamed e
    → is_dotless server ≡ true
    → e.full_name ≡ full_name_of server tool
    → e.server ≡ server
server_of_key e server tool w h k =
    dotless_split e.server server (visible_name e.tool_name) tool w.dotless h (sym w.named ∙ k)

module _ (server : Bytes) (r : Registry) (c : IsConsistent r) (h : is_dotless server ≡ true) where
  contains-own :
      (other tool : Bytes) (l : List ToolEntry)
      → is_dotless other ≡ true
      → server ≢ other
      → All (IsOwn server) l
      → contains (full_names l) (full_name_of other tool) ≡ false
  unfolding contains
  contains-own other tool [] o ne a = refl
  contains-own other tool (e ∷ l) o ne a = ground (
    arith,
    contains-own other tool l o ne a.1,
    a.0.server_is,
    bytes_eq_iff e.full_name (full_name_of other tool),
    server_of_key e other tool a.0.well_named o,
  )

  -- The tools of another server stay.
  found_at-remove_server_ne :
      (other tool : Bytes)
      → is_dotless other ≡ true
      → server ≢ other
      → found_at (remove_server server r) (full_name_of other tool)
        ≡ found_at r (full_name_of other tool)
  unfolding remove_server
  found_at-remove_server_ne other tool o ne =
      let k = full_name_of other tool in
      rw (lookup-erase_entries (list_at r.by_server server) r.tools k) (
        rw (contains-own other tool (list_at r.by_server server) o ne (c.listed_own server)) (
          rw (lookup-drop_server r.hidden server k c.hidden_unique)
            (elim (Option-cases (Map.lookup r.hidden k)) [
              | inl e ↦ rw e refl
              | inr (x, e) ↦ rw e (
                  ground (
                    arith,
                    bytes_eq_iff x.server server,
                    server_of_key x other tool (c.hidden_named k x e) o (c.hidden_key k x e),
                  ))
            ])))

  visible_gone :
      (tool : Bytes)
      → (if contains (full_names (list_at r.by_server server)) (full_name_of server tool)
          then none
          else Map.lookup r.tools (full_name_of server tool))
        ≡ none
  visible_gone tool =
      let k = full_name_of server tool in
      elim (Option-cases (Map.lookup r.tools k)) [
        | inl e ↦ ground arith
        | inr (x, e) ↦
            let s = server_of_key x server tool (c.tools_named k x e) h (c.tools_key k x e) in
            rw (rw s at (c.tools_listed k x e)) refl
      ]

  hidden_gone :
      (tool : Bytes) → unless_of server (Map.lookup r.hidden (full_name_of server tool)) ≡ none
  hidden_gone tool =
      let k = full_name_of server tool in
      elim (Option-cases (Map.lookup r.hidden k)) [
        | inl e ↦ rw e refl
        | inr (x, e) ↦ rw e (
            ground (
              arith,
              bytes_eq_iff x.server server,
              server_of_key x server tool (c.hidden_named k x e) h (c.hidden_key k x e),
            ))
      ]

  -- Nothing of the removed server stays.
  pub found_at-remove_server :
      (tool : Bytes) → found_at (remove_server server r) (full_name_of server tool) ≡ (none, none)
  unfolding remove_server
  found_at-remove_server tool =
      let k = full_name_of server tool in
      rw (lookup-erase_entries (list_at r.by_server server) r.tools k) (
        rw (lookup-drop_server r.hidden server k c.hidden_unique)
          (λ i. (visible_gone tool i, hidden_gone tool i)))

pub found_at-insert_entry_ne :
    (r : Registry) (server : Bytes) (e : ToolEntry) (b : Bool) (k : Bytes)
    → e.full_name ≢ k
    → found_at (insert_entry r server e b) k ≡ found_at r k
unfolding insert_entry
found_at-insert_entry_ne r server e true k ne =
    rw Map.lookup-insert (ground (arith, bytes_eq_iff e.full_name k))
found_at-insert_entry_ne r server e false k ne =
    rw Map.lookup-insert (ground (arith, bytes_eq_iff e.full_name k))

-- Registering a server leaves every key of another server as it was.
module _ (p : ServerParams) (resolution : AliasResolution) (other tool : Bytes)
    (h : is_dotless p.name ≡ true) (o : is_dotless other ≡ true) (ne : p.name ≢ other) where
  full_name-build_entry_ne :
      (def : ToolDefinition) (alias : Bytes)
      → (build_entry p.name def alias).full_name ≢ full_name_of other tool
  unfolding build_entry
  full_name-build_entry_ne def alias e = ne (dotless_split p.name other _ tool h o e)

  found_at-add_def :
      (def : ToolDefinition) (s : Map Bool × Registry)
      → found_at (add_def p resolution def s).1 (full_name_of other tool)
        ≡ found_at s.1 (full_name_of other tool)
  unfolding add_def
  found_at-add_def def (seen, r) =
      let e = build_entry p.name def (alias_for resolution def.name) in
      elim (Bool-cases (valid_tool_name def.name)) [
        | inr bad ↦ rw bad refl
        | inl fine ↦ rw fine (elim (Bool-cases (flag_at seen e.full_name)) [
          | inl old ↦ rw old refl
          | inr new ↦ rw new (
              found_at-insert_entry_ne r p.name e (hides p.perm def.name) _
                (full_name-build_entry_ne def (alias_for resolution def.name)))
        ])
      ]

  found_at-add_each :
      (defs : List ToolDefinition) (s : Map Bool × Registry)
      → found_at (add_each p resolution defs s).1 (full_name_of other tool)
        ≡ found_at s.1 (full_name_of other tool)
  unfolding add_each
  found_at-add_each [] s = refl
  found_at-add_each (def ∷ defs) s =
      found_at-add_each defs (add_def p resolution def s) ∙ found_at-add_def def s

-- Replacing the tools of one server of a consistent registry changes no lookup, visible or
-- hidden, of a tool of another server, for two different server names without dots.
pub replace_server_isolated :
    (p : ServerParams) (r : Registry) (other tool : Bytes)
    → IsConsistent r
    → is_dotless p.name ≡ true
    → is_dotless other ≡ true
    → p.name ≢ other
    → (lookup_tool (replace_server p r) (full_name_of other tool)
        ≡ lookup_tool r (full_name_of other tool))
      × (lookup_with_hidden (replace_server p r) (full_name_of other tool)
          ≡ lookup_with_hidden r (full_name_of other tool))
unfolding replace_server add_server lookup_tool lookup_with_hidden
replace_server_isolated p r other tool c h o ne =
    let e =
      found_at-add_each p (resolve_aliases (tool_def_names p.defs) p.alias_by_tool_name) other tool
        h o ne p.defs ([], remove_server p.name r)
      ∙ found_at-remove_server_ne p.name r c h other tool o ne in
    (
      ap (λ (x : Option ToolEntry × Option ToolEntry). x.0) e,
      ap
          (λ (x : Option ToolEntry × Option ToolEntry). elim x.0 as (λ _. Option ToolEntry) [
            | some v ↦ some v
            | none ↦ x.1
          ])
          e,
    )

-- After RemoveServer on a consistent registry no lookup finds a tool of that server, hidden
-- tools included, if the server's name has no dot.
pub lookup_with_hidden-remove_server :
    (server tool : Bytes) (r : Registry)
    → IsConsistent r
    → is_dotless server ≡ true
    → lookup_with_hidden (remove_server server r) (full_name_of server tool) ≡ none
unfolding lookup_with_hidden
lookup_with_hidden-remove_server server tool r c h =
    ap
      (λ (x : Option ToolEntry × Option ToolEntry). elim x.0 as (λ _. Option ToolEntry) [
        | some v ↦ some v
        | none ↦ x.1
      ])
      (found_at-remove_server server r c h tool)
