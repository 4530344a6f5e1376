-- ===== src/Registry/Aliases/Distinct.antt =====
-- The names that agents see: properties of ResolveAliases in internal/registry/aliases.go.
use mini.Prelude.{
  ◌≡◌, ◌≢◌, refl, ◌⊎◌, Bool, true, false, ◌&&◌, ◌||◌, not, List, [], some, Bytes, bytes_eq,
  bytes_eq_iff, bytes_eq_refl, contains, length, ltb, if◌then◌else◌, arith,
}
use mini.Prelude.Map
use mini.Prelude.Map.{Map, string_at}
use mini.Registry.Types.{visible_name}
use mini.Registry.Aliases.{
  AliasResolution, alias_for, was_dropped, is_usable, claimed_name, collides, build_alias_claims,
  clashes, resolve_aliases,
}
use mini.Registry.Aliases.Claims.{
  claimants, lookup-claim_each, dropped-claim_each, claim-claim_each, visible-IsUnique,
  length-claimants_two, lookup-revert, dropped-revert,
}

-- The name under which an agent sees a tool, as buildEntry makes it.
abbrev pub agent_name : AliasResolution → Bytes → Bytes
agent_name r n = visible_name (record { upstream_name = n; alias = alias_for r n })

module _ (names : List Bytes) (aliases : Map Bytes) where
  abbrev is_contested : Bytes → Bool
  is_contested n =
      let shown = claimed_name names aliases n in
      not (bytes_eq shown n) && ltb 1 (length (claimants names aliases shown names))

  granted_name : Bytes → Bytes
  granted_name n = if is_contested n then n else claimed_name names aliases n

  lookup-visible :
      (n : Bytes)
      → contains names n ≡ true
      → Map.lookup (resolve_aliases names aliases).visible n ≡ some (granted_name n)
  unfolding resolve_aliases build_alias_claims clashes granted_name Map.lookup
  lookup-visible n h = rw lookup-revert (rw lookup-claim_each (rw h (rw claim-claim_each refl)))

  dropped-visible :
      (n : Bytes)
      → contains names n ≡ true
      → was_dropped (resolve_aliases names aliases) n ≡ (collides names aliases n || is_contested n)
  unfolding resolve_aliases was_dropped build_alias_claims clashes Map.lookup
  dropped-visible n h =
      let c = build_alias_claims names aliases in
      rw (dropped-revert c.claim c.visible c.dropped n (visible-IsUnique names aliases names _ tt))
        (rw lookup-claim_each (rw h (rw claim-claim_each (rw dropped-claim_each (rw h refl)))))

  claimed_name-cases :
      (n : Bytes)
      → (claimed_name names aliases n ≡ n) ⊎ (contains names (claimed_name names aliases n) ≡ false)
  unfolding claimed_name
  claimed_name-cases n = ground arith

  claimed_name-ne-nil : (n : Bytes) → claimed_name names aliases n ≡ [] → n ≡ []
  unfolding claimed_name bytes_eq
  claimed_name-ne-nil n h = ground arith

  granted_name-cases :
      (n : Bytes)
      → (granted_name n ≡ n)
        ⊎ ((granted_name n ≡ claimed_name names aliases n)
            × (is_contested n ≡ false)
            × (contains names (granted_name n) ≡ false))
  unfolding granted_name
  granted_name-cases n = ground (arith, claimed_name-cases n)

  agent_name-granted_name :
      (n : Bytes)
      → contains names n ≡ true
      → agent_name (resolve_aliases names aliases) n ≡ granted_name n
  unfolding alias_for visible_name granted_name
  agent_name-granted_name n h =
      ground (arith, lookup-visible n h, bytes_eq_iff (granted_name n) n, claimed_name-ne-nil n)

  granted_name-ne :
      (a b : Bytes)
      → contains names a ≡ true
      → contains names b ≡ true
      → a ≢ b
      → granted_name a ≢ granted_name b
  granted_name-ne a b ha hb ne = ground (
    arith,
    granted_name-cases a,
    granted_name-cases b,
    bytes_eq_iff (claimed_name names aliases a) a,
    bytes_eq_iff (claimed_name names aliases b) b,
    length-claimants_two names aliases names a b (claimed_name names aliases a),
  )

  -- Two different tools of a server never get the same visible name, whatever aliases are asked
  -- for.
  pub agent_name-distinct :
      (a b : Bytes)
      → contains names a ≡ true
      → contains names b ≡ true
      → a ≢ b
      → agent_name (resolve_aliases names aliases) a ≢ agent_name (resolve_aliases names aliases) b
  agent_name-distinct a b ha hb ne e =
      granted_name-ne a b ha hb ne (cc (agent_name-granted_name a ha, agent_name-granted_name b hb))

  -- A tool of the server is reported as having lost its alias exactly when a usable alias was
  -- asked for and the tool still shows its own name.
  pub was_dropped-exact :
      (n : Bytes)
      → contains names n ≡ true
      → was_dropped (resolve_aliases names aliases) n ≡ (
          is_usable (string_at aliases n)
          && bytes_eq (agent_name (resolve_aliases names aliases) n) n)
  unfolding collides granted_name claimed_name
  was_dropped-exact n h = rw (dropped-visible n h) (
      rw (agent_name-granted_name n h)
        (ground (arith, bytes_eq_iff (string_at aliases n) n, bytes_eq_refl n)))
