-- ===== src/Registry/Tools/Served.antt =====
-- ReplaceServer of registry.go: every valid tool of the new set is registered under its visible
-- name, and dispatches to its own upstream name.
use mini.Prelude.{
  ◌≡◌, ◌≢◌, refl, sym, ◌∙◌, ◌⊎◌, inl, inr, Bool, true, false, List, [], ◌∷◌, none, some, Bytes,
  bytes_eq, bytes_eq_iff, bytes_eq_refl, contains, if◌then◌else◌, Bool-cases, false≢true, arith,
}
use mini.Prelude.Map
use mini.Prelude.Map.{Map, flag_at}
use mini.Config.Names.{is_dotless, valid_tool_name, hides}
use mini.Registry.Types.{ToolDefinition, ToolEntry}
use mini.Registry.Aliases.{AliasResolution, alias_for, resolve_aliases}
use mini.Registry.Aliases.Distinct.{agent_name, agent_name-distinct}
use mini.Registry.Tools.{
  Registry, ServerParams, build_entry, insert_entry, add_def, add_each, add_server, remove_server,
  replace_server, tool_def_names, lookup_tool, lookup_with_hidden,
}
use mini.Registry.Tools.Invariant.{IsConsistent}
use mini.Registry.Tools.Replace.{
  full_name_of, found_at, found_at-remove_server, found_at-insert_entry_ne,
}

full_name_of-injective :
    (server a b : Bytes) → full_name_of server a ≡ full_name_of server b → a ≡ b
full_name_of-injective [] a b e = ground arith
full_name_of-injective (c ∷ s) a b e = full_name_of-injective s a b (ground arith)

found_at-insert_entry_self :
    (r : Registry) (server : Bytes) (e : ToolEntry) (b : Bool)
    → found_at r e.full_name ≡ (none, none)
    → found_at (insert_entry r server e b) e.full_name
      ≡ (if b then (none, some e) else (some e, none))
unfolding insert_entry
found_at-insert_entry_self r server e true free =
    rw Map.lookup-insert (rw bytes_eq_refl (ground arith))
found_at-insert_entry_self r server e false free =
    rw Map.lookup-insert (rw bytes_eq_refl (ground arith))

-- The tool `name` is registered at key `k`: among the visible tools unless the permissions hide
-- it, and then among the hidden ones; its entry names it upstream.
abbrev pub IsRegistered : Registry → Bytes → Bytes → Bool → Type 0
IsRegistered r k name is_hidden =
    (e : ToolEntry) × (found_at r k ≡ (if is_hidden then (none, some e) else (some e, none)))
    × (e.tool_name.upstream_name ≡ name)

module _ (p : ServerParams) (resolution : AliasResolution)
    (distinct : (a b : Bytes)
      → contains (tool_def_names p.defs) a ≡ true
      → contains (tool_def_names p.defs) b ≡ true
      → a ≢ b
      → agent_name resolution a ≢ agent_name resolution b) where
  abbrev key : Bytes → Bytes
  key name = full_name_of p.name (agent_name resolution name)

  -- A name seen is registered, and what is not seen is free.
  abbrev Keeps : Map Bool × Registry → Bytes → Type 0
  Keeps (seen, r) name =
      (flag_at seen (key name) ≡ true → IsRegistered r (key name) name (hides p.perm name))
      × (flag_at seen (key name) ≡ false → found_at r (key name) ≡ (none, none))

  insert-IsRegistered :
      (r : Registry) (def : ToolDefinition)
      → found_at r (key def.name) ≡ (none, none)
      → IsRegistered
          (insert_entry r p.name
            (build_entry p.name def (alias_for resolution def.name))
            (hides p.perm def.name))
          (key def.name)
          def.name
          (hides p.perm def.name)
  unfolding build_entry
  insert-IsRegistered r def free =
      let e = build_entry p.name def (alias_for resolution def.name) in
      (e, found_at-insert_entry_self r p.name e (hides p.perm def.name) free, refl)

  key-ne :
      (a b : Bytes)
      → contains (tool_def_names p.defs) a ≡ true
      → contains (tool_def_names p.defs) b ≡ true
      → a ≢ b
      → key a ≢ key b
  key-ne a b ha hb ne e = distinct a b ha hb ne (full_name_of-injective p.name _ _ e)

  full_name-build_entry :
      (def : ToolDefinition)
      → (build_entry p.name def (alias_for resolution def.name)).full_name ≡ key def.name
  unfolding build_entry
  full_name-build_entry def = refl

  -- What the insertion of a tool not seen before does to the tool `n`.
  insert-Keeps :
      (seen : Map Bool) (r : Registry) (def : ToolDefinition) (n : Bytes)
      → contains (tool_def_names p.defs) def.name ≡ true
      → contains (tool_def_names p.defs) n ≡ true
      → flag_at seen (key def.name) ≡ false
      → Keeps (seen, r) def.name
      → Keeps (seen, r) n
      → Keeps
          (
            Map.insert seen (key def.name) true,
            insert_entry r p.name
                (build_entry p.name def (alias_for resolution def.name))
                (hides p.perm def.name),
          )
          n
  insert-Keeps seen r def n hd hn new kd kn = elim (Bool-cases (bytes_eq def.name n)) [
    | inl same ↦
        let e = (bytes_eq_iff def.name n).0 same in
        rw (← e) (
          λ _. insert-IsRegistered r def (kd.1 new),
          λ f. absurd (false≢true (sym f ∙ rw Map.flag_at-insert (rw bytes_eq_refl refl))),
        )
    | inr other ↦
        let ne =
          key-ne def.name n hd hn (λ e. false≢true (sym other ∙ (bytes_eq_iff def.name n).1 e)) in
        let keeps =
          found_at-insert_entry_ne r p.name (build_entry p.name def (alias_for resolution def.name))
            (hides p.perm def.name) (key n) (λ e. ne (sym (full_name-build_entry def) ∙ e)) in
        let flags : flag_at (Map.insert seen (key def.name) true) (key n) ≡ flag_at seen (key n) =
          ground (
            arith,
            Map.flag_at-insert seen (key def.name) (key n) true,
            bytes_eq_iff (key def.name) (key n),
            ne,
          ) in
        (
          λ f. let (x, at, up) = kn.0 (sym flags ∙ f) in (x, keeps ∙ at, up),
          λ f. keeps ∙ kn.1 (sym flags ∙ f),
        )
  ]

  add_def-Keeps :
      (def : ToolDefinition) (s : Map Bool × Registry) (n : Bytes)
      → contains (tool_def_names p.defs) def.name ≡ true
      → contains (tool_def_names p.defs) n ≡ true
      → Keeps s def.name
      → Keeps s n
      → Keeps (add_def p resolution def s) n
  unfolding add_def build_entry
  add_def-Keeps def (seen, r) n hd hn kd kn = elim (Bool-cases (valid_tool_name def.name)) [
    | inr bad ↦ rw bad kn
    | inl fine ↦ rw fine (
        rw (full_name-build_entry def) (elim (Bool-cases (flag_at seen (key def.name))) [
          | inl old ↦ rw old kn
          | inr new ↦ rw new (insert-Keeps seen r def n hd hn new kd kn)
        ]))
  ]

  -- A valid tool is seen in its round, and stays seen.
  add_def-seen :
      (def : ToolDefinition) (s : Map Bool × Registry) (n : Bytes)
      → ((bytes_eq def.name n ≡ true) × (valid_tool_name n ≡ true)) ⊎ (flag_at s.0 (key n) ≡ true)
      → flag_at (add_def p resolution def s).0 (key n) ≡ true
  unfolding add_def
  add_def-seen def (seen, r) n h = ground (
    arith,
    bytes_eq_iff def.name n,
    full_name-build_entry def,
    Map.flag_at-insert seen (key def.name) (key n) true,
    bytes_eq_refl (key n),
  )

  add_each-seen :
      (defs : List ToolDefinition) (s : Map Bool × Registry) (n : Bytes)
      → ((contains (tool_def_names defs) n ≡ true) × (valid_tool_name n ≡ true))
        ⊎ (flag_at s.0 (key n) ≡ true)
      → flag_at (add_each p resolution defs s).0 (key n) ≡ true
  unfolding add_each contains
  add_each-seen [] s n h = ground arith
  add_each-seen (def ∷ defs) s n h = add_each-seen defs (add_def p resolution def s) n (elim h [
    | inr f ↦ inr (add_def-seen def s n (inr f))
    | inl (c, v) ↦ elim (Bool-cases (bytes_eq def.name n)) [
      | inl e ↦ inr (add_def-seen def s n (inl (e, v)))
      | inr e ↦ inl (ground arith, v)
    ]
  ])

  add_each-Keeps :
      (defs : List ToolDefinition) (s : Map Bool × Registry)
      → ((n : Bytes)
          → contains (tool_def_names defs) n ≡ true
          → contains (tool_def_names p.defs) n ≡ true)
      → ((n : Bytes) → contains (tool_def_names p.defs) n ≡ true → Keeps s n)
      → (n : Bytes) → contains (tool_def_names p.defs) n ≡ true
      → Keeps (add_each p resolution defs s) n
  unfolding add_each contains
  add_each-Keeps [] s sub k n hn = k n hn
  add_each-Keeps (def ∷ defs) s sub k n hn =
      let here = sub def.name (rw bytes_eq_refl refl) in
      add_each-Keeps defs (add_def p resolution def s) (λ m hm. sub m (ground arith))
        (λ m hm. add_def-Keeps def s m here hm (k def.name here) (k m hm)) n hn

lookups-IsRegistered :
    (r : Registry) (k : Bytes) (e : ToolEntry) (b : Bool)
    → found_at r k ≡ (if b then (none, some e) else (some e, none))
    → (lookup_with_hidden r k ≡ some e) × (lookup_tool r k ≡ (if b then none else some e))
unfolding lookup_with_hidden lookup_tool
lookups-IsRegistered r k e true h = (ground arith, ground arith)
lookups-IsRegistered r k e false h = (ground arith, ground arith)

-- After ReplaceServer on a consistent registry, under a server name without dots, every tool of
-- the new set with a valid name is found under the server's name, a dot and its visible name:
-- with hidden tools always, by Lookup exactly if the permissions do not hide it, and its entry
-- calls it upstream by its own name.
pub replace_server_serves :
    (p : ServerParams) (r : Registry) (name : Bytes)
    → IsConsistent r
    → is_dotless p.name ≡ true
    → contains (tool_def_names p.defs) name ≡ true
    → valid_tool_name name ≡ true
    → (e : ToolEntry) × (lookup_with_hidden (replace_server p r) (
          full_name_of p.name
            (agent_name (resolve_aliases (tool_def_names p.defs) p.alias_by_tool_name) name))
        ≡ some e)
      × (lookup_tool (replace_server p r) (
            full_name_of p.name
              (agent_name (resolve_aliases (tool_def_names p.defs) p.alias_by_tool_name) name))
          ≡ (if hides p.perm name then none else some e))
      × (e.tool_name.upstream_name ≡ name)
unfolding replace_server add_server Map.lookup
replace_server_serves p r name c h hn v =
    let resolution = resolve_aliases (tool_def_names p.defs) p.alias_by_tool_name in
    let distinct = agent_name-distinct (tool_def_names p.defs) p.alias_by_tool_name in
    let start : Map Bool × Registry = ([], remove_server p.name r) in
    let free = λ (m : Bytes). found_at-remove_server p.name r c h (agent_name resolution m) in
    let (e, at, up) =
      (add_each-Keeps p resolution distinct p.defs start (λ m hm. hm)
          (λ m hm. (λ f. absurd (false≢true f), λ f. free m)) name hn).0
        (add_each-seen p resolution distinct p.defs start name (inl (hn, v))) in
    let (both, visible) = lookups-IsRegistered _ _ e (hides p.perm name) at in
    (e, both, visible, up)
