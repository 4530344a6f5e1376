-- ===== src/Registry/Aliases.antt =====
-- internal/registry/aliases.go: the visible name of each tool of a server.
mod Claims
pub mod Distinct
use mini.Prelude.{
  ◌≡◌, Bool, true, false, ◌&&◌, not, List, [], ◌∷◌, ◌++◌, Bytes, bytes_eq, contains, length, ltb,
  if◌then◌else◌,
}
use mini.Prelude.Map
use mini.Prelude.Map.{Map, string_at, flag_at, list_at}
use mini.Config.Names.{valid_tool_name}

pub record AliasResolution : Type 0 where
  pub visible : Map Bytes
  pub dropped : Map Bool

-- AliasResolution.AliasFor
unfoldable pub alias_for : AliasResolution → Bytes → Bytes
alias_for r real_name =
    let shown = string_at r.visible real_name in
    if not (bytes_eq shown real_name) then shown else []

-- AliasResolution.WasDropped
unfoldable pub was_dropped : AliasResolution → Bytes → Bool
was_dropped r real_name = flag_at r.dropped real_name

-- The three maps that buildAliasClaims fills.
pub record AliasClaims : Type 0 where
  pub visible : Map Bytes
  pub dropped : Map Bool
  pub claim : Map (List Bytes)

abbrev pub is_usable : Bytes → Bool
is_usable alias = not (bytes_eq alias []) && valid_tool_name alias

-- The name that a tool asks for; nameSet[alias] is `contains names alias`.
pub claimed_name : List Bytes → Map Bytes → Bytes → Bytes
claimed_name names aliases name =
    let alias = string_at aliases name in
    if is_usable alias then (if contains names alias then name else alias) else name

pub collides : List Bytes → Map Bytes → Bytes → Bool
collides names aliases name =
    let alias = string_at aliases name in is_usable alias && contains names alias

-- The body of the loop of buildAliasClaims.
pub claim_name : List Bytes → Map Bytes → AliasClaims → Bytes → AliasClaims
unfolding claimed_name collides
claim_name names aliases c name =
    let shown = claimed_name names aliases name in
    record {
      visible = Map.insert c.visible name shown;
      dropped = if collides names aliases name then Map.insert c.dropped name true else c.dropped;
      claim = Map.insert c.claim shown (list_at c.claim shown ++ name ∷ []);
    }

pub claim_each : List Bytes → Map Bytes → AliasClaims → List Bytes → AliasClaims
claim_each names aliases c [] = c
claim_each names aliases c (n ∷ ns) = claim_each names aliases (claim_name names aliases c n) ns

pub build_alias_claims : List Bytes → Map Bytes → AliasClaims
build_alias_claims names aliases =
    claim_each names aliases (record { visible = []; dropped = []; claim = [] }) names

-- revertClashingAliases, one entry of `visible` after the other.
pub clashes : Map (List Bytes) → Bytes → Bytes → Bool
clashes claim real_name shown =
    not (bytes_eq shown real_name) && ltb 1 (length (list_at claim shown))

pub revert_clashing_aliases : Map Bytes → Map (List Bytes) → Map Bool → Map Bytes × Map Bool
revert_clashing_aliases [] claim dropped = ([], dropped)
revert_clashing_aliases ((real_name, shown) ∷ m) claim dropped =
    let clash = clashes claim real_name shown in
    let (rest, dropped') =
      revert_clashing_aliases m claim
        (if clash then Map.insert dropped real_name true else dropped) in
    ((real_name, if clash then real_name else shown) ∷ rest, dropped')

pub resolve_aliases : List Bytes → Map Bytes → AliasResolution
resolve_aliases names aliases =
    let c = build_alias_claims names aliases in
    let (visible, dropped) = revert_clashing_aliases c.visible c.claim c.dropped in
    record { visible = visible; dropped = dropped }
