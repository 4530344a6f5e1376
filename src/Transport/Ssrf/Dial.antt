-- ===== src/Transport/Ssrf/Dial.antt =====
-- internal/transport/ssrf.go: the dialer connects to addresses that it has validated.
use mini.Prelude.{
  ℕ, ◌≡◌, ◌<◌, sym, ap, ◌∙◌, ◌⊎◌, ◌++◌, not, subst, Bool, true, false, List, [], ◌∷◌, Option, none,
  some, Bytes, all, if-elim, inl, inr, arith,
}
use mini.Transport.Ssrf.{
  Ip, mapped_prefix, SsrfPolicy, validate_ip, Dialed, connects, first_address, resolve, dial_host,
  dial_split, dial_ssrf_safe,
}
use mini.Transport.Ssrf.Ranges.{number, is_blocked, nat64, validate_ip-IsExact}

-- A connection is to an address that the policy accepts.
abbrev pub IsSafe : SsrfPolicy → Dialed → Type 0
IsSafe p (connects ip port) = validate_ip p ip ≡ true
IsSafe p _ = Unit

resolve-IsSafe :
    (p : SsrfPolicy) (ips : Option (List Ip)) (port : Bytes) → IsSafe p (resolve p ips port)
unfolding resolve
resolve-IsSafe p none port = tt
resolve-IsSafe p (some ips) port =
    if-elim (λ (d : Dialed). IsSafe p d) (all (validate_ip p) ips) _ _ (first ips) (λ _. tt)
  where
    first : (ips : List Ip) → all (validate_ip p) ips ≡ true → IsSafe p (first_address ips port)
    first [] h = tt
    first (ip ∷ ips) h = ground arith

dial_host-IsSafe :
    (p : SsrfPolicy) (parsed : Option Ip) (resolved : Option (List Ip)) (port : Bytes)
    → IsSafe p (dial_host p parsed resolved port)
dial_host-IsSafe p none resolved port = resolve-IsSafe p resolved port
dial_host-IsSafe p (some ip) resolved port =
    if-elim (λ (d : Dialed). IsSafe p d) (validate_ip p ip) _ _ (λ h. h) (λ _. tt)

pub dial_ssrf_safe-IsSafe :
    (split_host_port : Bytes → Option (Bytes × Bytes)) (parse_ip : Bytes → Option Ip)
    (lookup_host : Bytes → Option (List Ip)) (p : SsrfPolicy) (address : Bytes)
    → IsSafe p (dial_ssrf_safe split_host_port parse_ip lookup_host p address)
unfolding dial_ssrf_safe
dial_ssrf_safe-IsSafe split_host_port parse_ip lookup_host p address =
    split (split_host_port address)
  where
    split :
        (o : Option (Bytes × Bytes))
        → IsSafe p (dial_split split_host_port parse_ip lookup_host p o)
    split none = tt
    split (some (host, port)) = dial_host-IsSafe p (parse_ip host) (lookup_host host) port

-- The forms of the IPv4 address a.b.c.d: plain, mapped into IPv6, and behind the prefix of NAT64.
abbrev pub IsForm : Ip → ℕ → ℕ → ℕ → ℕ → Type 0
IsForm ip a b c d =
    (ip ≡ a ∷ b ∷ c ∷ d ∷ []) ⊎ ((ip ≡ mapped_prefix ++ a ∷ b ∷ c ∷ d ∷ []) ⊎ (ip ≡ nat64 a b c d))

safe-public :
    (p : SsrfPolicy) (ip : Ip) (a b c d : ℕ)
    → a < 256
    → b < 256
    → c < 256
    → d < 256
    → IsForm ip a b c d
    → validate_ip p ip ≡ true
    → is_blocked p (number a b c d) ≡ false
safe-public p ip a b c d la lb lc ld form h =
    let (plain, mapped, translated) = validate_ip-IsExact a b c d la lb lc ld p in
    elim form [
      | inl e ↦ not_true _ (sym plain ∙ ap (validate_ip p) (sym e) ∙ h)
      | inr (inl e) ↦ not_true _ (sym mapped ∙ ap (validate_ip p) (sym e) ∙ h)
      | inr (inr e) ↦ not_true _ (sym translated ∙ ap (validate_ip p) (sym e) ∙ h)
    ]
  where
    not_true : (x : Bool) → not x ≡ true → x ≡ false
    not_true x e = ground arith

-- Whatever the resolver answers, if the dialer connects, and the address that it connects to is
-- an IPv4 address, plain, mapped into IPv6 or behind the prefix of NAT64, then this address is
-- in none of the blocked ranges: neither the special ones nor, unless the policy allows private
-- networks, the private, loopback and CGNAT ones.
pub dial_ssrf_safe-public :
    (split_host_port : Bytes → Option (Bytes × Bytes)) (parse_ip : Bytes → Option Ip)
    (lookup_host : Bytes → Option (List Ip)) (p : SsrfPolicy) (address : Bytes) (ip : Ip)
    (port : Bytes) (a b c d : ℕ)
    → dial_ssrf_safe split_host_port parse_ip lookup_host p address ≡ connects ip port
    → a < 256
    → b < 256
    → c < 256
    → d < 256
    → IsForm ip a b c d
    → is_blocked p (number a b c d) ≡ false
dial_ssrf_safe-public split_host_port parse_ip lookup_host p address ip port a b c d e la lb lc ld
      form =
    safe-public p ip a b c d la lb lc ld form
      (subst (IsSafe p) e (dial_ssrf_safe-IsSafe split_host_port parse_ip lookup_host p address))
