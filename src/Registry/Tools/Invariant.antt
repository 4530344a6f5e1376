-- ===== src/Registry/Tools/Invariant.antt =====
-- The invariant of the registry of registry.go, kept by every operation.
use mini.Prelude.{
  ◌≡◌, refl, sym, subst, Bool, true, false, List, [], ◌∷◌, ◌++◌, some, Bytes, bytes_eq,
  bytes_eq_iff, bytes_eq_refl, contains, All, Bool-cases, inl, inr, arith,
}
use mini.Prelude.Map
use mini.Prelude.Map.{Map, IsUnique, list_at, flag_at}
use mini.Config.Names.{is_dotless, valid_tool_name, hides}
use mini.Registry.Types.{ToolDefinition, ToolEntry, visible_name}
use mini.Registry.Aliases.{AliasResolution, alias_for, resolve_aliases}
use mini.Registry.Tools.{
  Registry, empty, ServerParams, build_entry, insert_entry, add_def, add_each, add_server,
  remove_server, replace_server, erase_entries, drop_server, tool_def_names,
}
use mini.Registry.Tools.Maps.{
  full_names, contains-full_names-append, lookup-erase_entries, lookup-drop_server,
  drop_server-IsUnique,
}

-- The full name is the server's name, a dot and the visible name, and only the second part may
-- hold dots.
pub record IsWellNamed (e : ToolEntry) : Type 0 where
  pub dotless : is_dotless e.server ≡ true
  pub named : e.full_name ≡ e.server ++ (b'.' ∷ visible_name e.tool_name)

pub record IsOwn (server : Bytes) (e : ToolEntry) : Type 0 where
  pub server_is : e.server ≡ server
  pub well_named : IsWellNamed e

pub record IsConsistent (r : Registry) : Type 0 where
  pub tools_key : (k : Bytes) (e : ToolEntry) → Map.lookup r.tools k ≡ some e → e.full_name ≡ k
  pub tools_named : (k : Bytes) (e : ToolEntry) → Map.lookup r.tools k ≡ some e → IsWellNamed e
  pub hidden_key : (k : Bytes) (e : ToolEntry) → Map.lookup r.hidden k ≡ some e → e.full_name ≡ k
  pub hidden_named : (k : Bytes) (e : ToolEntry) → Map.lookup r.hidden k ≡ some e → IsWellNamed e
  pub hidden_unique : IsUnique r.hidden
  -- What is visible is in its server's list, so that removing the server finds it.
  pub tools_listed :
      (k : Bytes) (e : ToolEntry)
      → Map.lookup r.tools k ≡ some e
      → contains (full_names (list_at r.by_server e.server)) k ≡ true
  pub listed_own : (server : Bytes) → All (IsOwn server) (list_at r.by_server server)

pub empty-IsConsistent : IsConsistent empty
unfolding Map.lookup
empty-IsConsistent = record {
  tools_key = λ k e h. cc;
  tools_named = λ k e h. cc;
  hidden_key = λ k e h. cc;
  hidden_named = λ k e h. cc;
  hidden_unique = tt;
  tools_listed = λ k e h. cc;
  listed_own = λ s. tt;
}

All-concat :
    (server : Bytes) (l : List ToolEntry) (e : ToolEntry)
    → All (IsOwn server) l
    → IsOwn server e
    → All (IsOwn server) (l ++ e ∷ [])
All-concat server [] e h o = (o, tt)
All-concat server (x ∷ l) e h o = (h.0, All-concat server l e h.1 o)

module _ (r : Registry) (e : ToolEntry) (w : IsWellNamed e) (c : IsConsistent r) where
  insert_hidden-IsConsistent : IsConsistent (insert_entry r e.server e true)
  unfolding insert_entry
  insert_hidden-IsConsistent = record {
    tools_key = c.tools_key;
    tools_named = c.tools_named;
    hidden_key = λ k x h. ground (
      arith,
      Map.lookup-insert r.hidden e.full_name k e,
      c.hidden_key k x,
      bytes_eq_iff e.full_name k,
    );
    hidden_named = λ k x. rw Map.lookup-insert (elim (Bool-cases (bytes_eq e.full_name k)) [
      | inl t ↦ rw t (λ h. subst IsWellNamed (cc) w)
      | inr t ↦ rw t (c.hidden_named k x)
    ]);
    hidden_unique = Map.insert-IsUnique r.hidden e.full_name e c.hidden_unique;
    tools_listed = c.tools_listed;
    listed_own = c.listed_own;
  }

  insert_visible-IsConsistent : IsConsistent (insert_entry r e.server e false)
  unfolding insert_entry
  insert_visible-IsConsistent = record {
    tools_key = λ k x h. ground (
      arith,
      Map.lookup-insert r.tools e.full_name k e,
      c.tools_key k x,
      bytes_eq_iff e.full_name k,
    );
    tools_named = λ k x. rw Map.lookup-insert (elim (Bool-cases (bytes_eq e.full_name k)) [
      | inl t ↦ rw t (λ h. subst IsWellNamed (cc) w)
      | inr t ↦ rw t (c.tools_named k x)
    ]);
    hidden_key = c.hidden_key;
    hidden_named = c.hidden_named;
    hidden_unique = c.hidden_unique;
    tools_listed = λ k x h. ground (
      arith,
      Map.lookup-insert r.tools e.full_name k e,
      c.tools_listed k x,
      bytes_eq_iff e.full_name k,
      bytes_eq_iff e.server x.server,
      bytes_eq_refl e.server,
      Map.lookup-insert r.by_server e.server x.server (list_at r.by_server e.server ++ e ∷ []),
      contains-full_names-append (list_at r.by_server e.server) e k,
    );
    listed_own = λ s.
        subst (All (IsOwn s))
          (sym (Map.list_at-insert r.by_server e.server s (list_at r.by_server e.server ++ e ∷ [])))
          (elim (Bool-cases (bytes_eq e.server s)) [
            | inl t ↦ rw t (
                subst (λ z. All (IsOwn z) (list_at r.by_server e.server ++ e ∷ []))
                  ((bytes_eq_iff e.server s).0 t)
                  (All-concat e.server (list_at r.by_server e.server) e (c.listed_own e.server)
                    (record { server_is = refl; well_named = w })))
            | inr t ↦ rw t (c.listed_own s)
          ]);
  }

  pub insert_entry-IsConsistent : (b : Bool) → IsConsistent (insert_entry r e.server e b)
  insert_entry-IsConsistent true = insert_hidden-IsConsistent
  insert_entry-IsConsistent false = insert_visible-IsConsistent

build_entry-IsWellNamed :
    (server : Bytes) (def : ToolDefinition) (alias : Bytes)
    → is_dotless server ≡ true
    → IsWellNamed (build_entry server def alias)
unfolding build_entry
build_entry-IsWellNamed server def alias h = record { dotless = h; named = refl }

server-build_entry :
    (server : Bytes) (def : ToolDefinition) (alias : Bytes)
    → (build_entry server def alias).server ≡ server
unfolding build_entry
server-build_entry server def alias = refl

module _ (p : ServerParams) (resolution : AliasResolution) (h : is_dotless p.name ≡ true) where
  insert_built-IsConsistent :
      (def : ToolDefinition) (r : Registry) (b : Bool)
      → IsConsistent r
      → IsConsistent
          (insert_entry r p.name (build_entry p.name def (alias_for resolution def.name)) b)
  insert_built-IsConsistent def r b c =
      let e = build_entry p.name def (alias_for resolution def.name) in
      subst (λ s. IsConsistent (insert_entry r s e b))
        (server-build_entry p.name def (alias_for resolution def.name))
        (insert_entry-IsConsistent r e
          (build_entry-IsWellNamed p.name def (alias_for resolution def.name) h) c b)

  add_def-IsConsistent :
      (def : ToolDefinition) (s : Map Bool × Registry)
      → IsConsistent s.1
      → IsConsistent (add_def p resolution def s).1
  unfolding add_def
  add_def-IsConsistent def (seen, r) c =
      let full = (build_entry p.name def (alias_for resolution def.name)).full_name in
      elim (Bool-cases (valid_tool_name def.name)) [
        | inr bad ↦ rw bad c
        | inl fine ↦ rw fine (elim (Bool-cases (flag_at seen full)) [
          | inl old ↦ rw old c
          | inr new ↦ rw new (insert_built-IsConsistent def r (hides p.perm def.name) c)
        ])
      ]

  add_each-IsConsistent :
      (defs : List ToolDefinition) (s : Map Bool × Registry)
      → IsConsistent s.1
      → IsConsistent (add_each p resolution defs s).1
  unfolding add_each
  add_each-IsConsistent [] s c = c
  add_each-IsConsistent (def ∷ defs) s c =
      add_each-IsConsistent defs (add_def p resolution def s) (add_def-IsConsistent def s c)

pub add_server-IsConsistent :
    (p : ServerParams) (r : Registry)
    → is_dotless p.name ≡ true
    → IsConsistent r
    → IsConsistent (add_server p r)
unfolding add_server
add_server-IsConsistent p r h c =
    add_each-IsConsistent p (resolve_aliases (tool_def_names p.defs) p.alias_by_tool_name) h p.defs
      ([], r) c

-- An entry that stays when a server is removed keeps its place in its own server's list.
module _ (server : Bytes) (r : Registry) (c : IsConsistent r) where
  abbrev gone : List ToolEntry
  gone = list_at r.by_server server

  lookup_stays :
      (k : Bytes) (e : ToolEntry)
      → Map.lookup (erase_entries r.tools gone) k ≡ some e
      → (Map.lookup r.tools k ≡ some e) × (contains (full_names gone) k ≡ false)
  lookup_stays k e h = ground (arith, lookup-erase_entries gone r.tools k)

  hidden_stays :
      (k : Bytes) (e : ToolEntry)
      → Map.lookup (drop_server r.hidden server) k ≡ some e
      → Map.lookup r.hidden k ≡ some e
  hidden_stays k e h = ground (arith, lookup-drop_server r.hidden server k c.hidden_unique)

  pub remove_server-IsConsistent : IsConsistent (remove_server server r)
  unfolding remove_server
  remove_server-IsConsistent = record {
    tools_key = λ k e h. c.tools_key k e (lookup_stays k e h).0;
    tools_named = λ k e h. c.tools_named k e (lookup_stays k e h).0;
    hidden_key = λ k e h. c.hidden_key k e (hidden_stays k e h);
    hidden_named = λ k e h. c.hidden_named k e (hidden_stays k e h);
    hidden_unique = drop_server-IsUnique r.hidden server c.hidden_unique;
    tools_listed = λ k e h. ground (
      arith,
      lookup_stays k e h,
      c.tools_listed k e,
      bytes_eq_iff server e.server,
      Map.list_at-erase r.by_server server e.server,
    );
    listed_own = λ s.
        subst (All (IsOwn s)) (sym (Map.list_at-erase r.by_server server s))
          (elim (Bool-cases (bytes_eq server s)) [
            | inl t ↦ rw t tt
            | inr t ↦ rw t (c.listed_own s)
          ]);
  }

-- ReplaceServer, for a server name without dots, keeps the registry consistent: keys are full
-- names, full names are server, dot and visible name, every visible tool is in its server's
-- list, and a server's list holds only its own tools.
pub replace_server-IsConsistent :
    (p : ServerParams) (r : Registry)
    → is_dotless p.name ≡ true
    → IsConsistent r
    → IsConsistent (replace_server p r)
unfolding replace_server
replace_server-IsConsistent p r h c =
    add_server-IsConsistent p (remove_server p.name r) h (remove_server-IsConsistent p.name r c)
