-- ===== src/Registry/Aliases/Claims.antt =====
-- What the loops of aliases.go leave in each map.
use mini.Prelude.{
  ◌≤◌, ◌≡◌, ◌≢◌, refl, sym, Bool, true, false, ◌&&◌, ◌||◌, List, [], ◌∷◌, ◌++◌, Option, none, some,
  Bytes, bytes_eq, bytes_eq_iff, contains, length, if◌then◌else◌, arith, append_assoc, append-nil,
}
use mini.Prelude.Map
use mini.Prelude.Map.{Map, string_at, flag_at, list_at, IsUnique}
use mini.Registry.Aliases.{
  AliasClaims, claimed_name, collides, claim_name, claim_each, clashes, revert_clashing_aliases,
}

module _ (names : List Bytes) (aliases : Map Bytes) where
  -- The names of a list that ask for `shown`, in order.
  pub claimants : Bytes → List Bytes → List Bytes
  claimants shown [] = []
  claimants shown (n ∷ ns) =
      let rest = claimants shown ns in
      if bytes_eq (claimed_name names aliases n) shown then n ∷ rest else rest

  pub lookup-claim_each :
      (ns : List Bytes) (c : AliasClaims) (k : Bytes)
      → Map.lookup (claim_each names aliases c ns).visible k
        ≡ (if contains ns k then some (claimed_name names aliases k) else Map.lookup c.visible k)
  unfolding claim_each claim_name contains
  lookup-claim_each [] c k = refl
  lookup-claim_each (n ∷ ns) c k = ground (
    arith,
    lookup-claim_each ns (claim_name names aliases c n) k,
    bytes_eq_iff n k,
    Map.lookup-insert c.visible n k (claimed_name names aliases n),
  )

  pub dropped-claim_each :
      (ns : List Bytes) (c : AliasClaims) (k : Bytes)
      → flag_at (claim_each names aliases c ns).dropped k
        ≡ (flag_at c.dropped k || (contains ns k && collides names aliases k))
  unfolding claim_each claim_name contains
  dropped-claim_each [] c k = ground arith
  dropped-claim_each (n ∷ ns) c k = ground (
    arith,
    dropped-claim_each ns (claim_name names aliases c n) k,
    bytes_eq_iff n k,
    Map.lookup-insert c.dropped n k true,
  )

  pub claim-claim_each :
      (ns : List Bytes) (c : AliasClaims) (w : Bytes)
      → list_at (claim_each names aliases c ns).claim w ≡ list_at c.claim w ++ claimants w ns
  unfolding claim_each claim_name claimants
  claim-claim_each [] c w = sym (append-nil (list_at c.claim w))
  claim-claim_each (n ∷ ns) c w = ground (
    arith,
    claim-claim_each ns (claim_name names aliases c n) w,
    bytes_eq_iff (claimed_name names aliases n) w,
    append_assoc (list_at c.claim w) (n ∷ []) (claimants w ns),
    Map.lookup-insert c.claim (claimed_name names aliases n) w
        (list_at c.claim (claimed_name names aliases n) ++ n ∷ []),
  )

  pub visible-IsUnique :
      (ns : List Bytes) (c : AliasClaims)
      → IsUnique c.visible
      → IsUnique (claim_each names aliases c ns).visible
  unfolding claim_each claim_name
  visible-IsUnique [] c u = u
  visible-IsUnique (n ∷ ns) c u =
      visible-IsUnique ns (claim_name names aliases c n)
        (Map.insert-IsUnique c.visible n (claimed_name names aliases n) u)

  length-claimants_one :
      (ns : List Bytes) (a w : Bytes)
      → contains ns a ≡ true
      → claimed_name names aliases a ≡ w
      → 1 ≤ length (claimants w ns)
  unfolding claimants contains
  length-claimants_one [] a w h e = cc
  length-claimants_one (n ∷ ns) a w h e = ground (
    arith,
    length-claimants_one ns a w,
    bytes_eq_iff n a,
    bytes_eq_iff (claimed_name names aliases n) w,
  )

  -- Two names that ask for one name are two claimants.
  pub length-claimants_two :
      (ns : List Bytes) (a b w : Bytes)
      → contains ns a ≡ true
      → contains ns b ≡ true
      → a ≢ b
      → claimed_name names aliases a ≡ w
      → claimed_name names aliases b ≡ w
      → 2 ≤ length (claimants w ns)
  unfolding claimants contains
  length-claimants_two [] a b w ha hb ne ea eb = cc
  length-claimants_two (n ∷ ns) a b w ha hb ne ea eb = ground (
    arith,
    length-claimants_two ns a b w,
    length-claimants_one ns a w,
    length-claimants_one ns b w,
    bytes_eq_iff n a,
    bytes_eq_iff n b,
    bytes_eq_iff (claimed_name names aliases n) w,
  )

module _ (claim : Map (List Bytes)) where
  abbrev pub reverted : Bytes → Option Bytes → Option Bytes
  reverted k none = none
  reverted k (some shown) = some (if clashes claim k shown then k else shown)

  abbrev pub clash_of : Bytes → Option Bytes → Bool
  clash_of k none = false
  clash_of k (some shown) = clashes claim k shown

  pub lookup-revert :
      (m : Map Bytes) (dropped : Map Bool) (k : Bytes)
      → Map.lookup (revert_clashing_aliases m claim dropped).0 k ≡ reverted k (Map.lookup m k)
  unfolding revert_clashing_aliases Map.lookup
  lookup-revert [] dropped k = refl
  lookup-revert ((j, shown) ∷ m) dropped k = ground (
    arith,
    bytes_eq_iff j k,
    lookup-revert m (if clashes claim j shown then Map.insert dropped j true else dropped) k,
  )

  pub dropped-revert :
      (m : Map Bytes) (dropped : Map Bool) (k : Bytes)
      → IsUnique m
      → flag_at (revert_clashing_aliases m claim dropped).1 k
        ≡ (flag_at dropped k || clash_of k (Map.lookup m k))
  unfolding revert_clashing_aliases Map.lookup
  dropped-revert [] dropped k u = ground arith
  dropped-revert ((j, shown) ∷ m) dropped k u = ground (
    arith,
    bytes_eq_iff j k,
    Map.lookup-insert dropped j k true,
    dropped-revert m (if clashes claim j shown then Map.insert dropped j true else dropped) k u.1,
  )
