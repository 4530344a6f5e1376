-- ===== src/Transport/Ssrf.antt =====
-- internal/transport/ssrf.go: which hosts and addresses may be called. A net.IP is its 4 or 16 bytes.
-- Of the standard library, url.Parse, net.ParseIP, net.SplitHostPort and the resolver are parameters.
pub mod Ranges
pub mod Dial
use mini.Prelude.{
  ℕ, zero, suc, ◌-◌, ◌/◌, ◌^◌, Bool, true, false, not, ◌&&◌, ◌||◌, List, [], ◌∷◌, ◌++◌, Option,
  none, some, Bytes, bytes_eq, codes, ◌==◌, leb, ltb, length, drop, all, any, if◌then◌else◌,
}

abbrev pub Ip : Type 0
Ip = List ℕ

-- The first twelve bytes of an IPv4 address that is mapped into IPv6.
abbrev pub mapped_prefix : Ip
mapped_prefix = 0 ∷ 0 ∷ 0 ∷ 0 ∷ 0 ∷ 0 ∷ 0 ∷ 0 ∷ 0 ∷ 0 ∷ 0xff ∷ 0xff ∷ []

-- The four bytes behind a prefix of twelve.
unfoldable pub behind : Ip → Ip → Option Ip
behind [] (a ∷ b ∷ c ∷ d ∷ []) = some (a ∷ b ∷ c ∷ d ∷ [])
behind [] _ = none
behind (p ∷ ps) [] = none
behind (p ∷ ps) (x ∷ xs) = let rest = behind ps xs in if p == x then rest else none

-- net.IP.To4 and To16.
unfoldable pub to_4 : Ip → Option Ip
to_4 ip = if length ip == 4 then some ip else behind mapped_prefix ip

unfoldable pub to_16 : Ip → Option Ip
to_16 ip =
    if length ip == 4 then some (mapped_prefix ++ ip) else if length ip == 16 then some ip else none

abbrev pub or_else : Ip → Option Ip → Ip
or_else ip none = ip
or_else ip (some v4) = v4

-- A network: its first address and the length of its prefix in bits.
abbrev pub Cidr : Type 0
Cidr = Ip × ℕ

-- The addresses, of the same length, agree in the first bits.
unfoldable pub same_bits : ℕ → Ip → Ip → Bool
same_bits bits [] [] = true
same_bits bits (n ∷ ns) (x ∷ xs) =
    let rest = same_bits (bits - 8) ns xs in
    if leb 8 bits then n == x && rest else n / 2 ^ (8 - bits) == x / 2 ^ (8 - bits)
same_bits bits _ _ = false

-- net.IPNet.Contains, for an address in its shorter form and at first.
abbrev pub contains_shortest : Cidr → Ip → Bool
contains_shortest (network, bits) ip =
    if length ip == length network then same_bits bits network ip else false

unfoldable pub contains_ip : Ip → Cidr → Bool
contains_ip ip cidr = contains_shortest cidr (or_else ip (to_4 ip))

-- net.IP.IsPrivate and IsLoopback.
abbrev is_private_v4 : Ip → Bool
is_private_v4 (a ∷ b ∷ _) = a == 10 || (a == 172 && b / 16 == 1) || (a == 192 && b == 168)
is_private_v4 _ = false

abbrev is_private_v6 : Ip → Bool
is_private_v6 [] = false
is_private_v6 (a ∷ ip) = length ip == 15 && a / 2 == 126

abbrev private_of : Ip → Option Ip → Bool
private_of ip none = is_private_v6 ip
private_of ip (some v4) = is_private_v4 v4

unfoldable pub is_private : Ip → Bool
is_private ip = private_of ip (to_4 ip)

abbrev first_is : ℕ → Ip → Bool
first_is n [] = false
first_is n (a ∷ _) = a == n

abbrev pub loopback_v6 : Ip
loopback_v6 = 0 ∷ 0 ∷ 0 ∷ 0 ∷ 0 ∷ 0 ∷ 0 ∷ 0 ∷ 0 ∷ 0 ∷ 0 ∷ 0 ∷ 0 ∷ 0 ∷ 0 ∷ 1 ∷ []

abbrev loopback_of : Ip → Option Ip → Bool
loopback_of ip none = bytes_eq ip loopback_v6
loopback_of ip (some v4) = first_is 127 v4

unfoldable pub is_loopback : Ip → Bool
is_loopback ip = loopback_of ip (to_4 ip)

abbrev pub cgnat_range : Cidr
cgnat_range = (100 ∷ 64 ∷ 0 ∷ 0 ∷ [], 10)

unfoldable pub is_private_network_ip : Ip → Bool
is_private_network_ip ip = is_private ip || is_loopback ip || contains_ip ip cgnat_range

abbrev v6 : ℕ → ℕ → ℕ → ℕ → Ip
v6 a b c d = a ∷ b ∷ c ∷ d ∷ 0 ∷ 0 ∷ 0 ∷ 0 ∷ 0 ∷ 0 ∷ 0 ∷ 0 ∷ 0 ∷ 0 ∷ 0 ∷ 0 ∷ []

abbrev pub ssrf_private_ranges : List Cidr
ssrf_private_ranges =
    (0 ∷ 0 ∷ 0 ∷ 0 ∷ [], 8)
    ∷ (169 ∷ 254 ∷ 0 ∷ 0 ∷ [], 16)
    ∷ (224 ∷ 0 ∷ 0 ∷ 0 ∷ [], 4)
    ∷ (198 ∷ 18 ∷ 0 ∷ 0 ∷ [], 15)
    ∷ (240 ∷ 0 ∷ 0 ∷ 0 ∷ [], 4)
    ∷ (v6 0 0 0 0, 128)
    ∷ (v6 0xfe 0x80 0 0, 10)
    ∷ (v6 0xff 0 0 0, 8)
    ∷ []

abbrev pub nat64_prefix : Cidr
nat64_prefix = (v6 0 0x64 0xff 0x9b, 96)

pub record SsrfPolicy : Type 0 where
  pub allow_private_networks : Bool

unfoldable pub blocks_ip : SsrfPolicy → Ip → Bool
blocks_ip p ip =
    if not p.allow_private_networks && is_private_network_ip ip
    then true
    else any (contains_ip ip) ssrf_private_ranges

-- ip16 != nil && nat64Prefix.Contains(ip16) && p.blocksIP(ip16[12:16])
abbrev pub blocks_nat64 : SsrfPolicy → Option Ip → Bool
blocks_nat64 p none = false
blocks_nat64 p (some ip16) =
    if contains_ip ip16 nat64_prefix then blocks_ip p (drop 12 ip16) else false

-- `true` is a nil error.
unfoldable pub validate_ip : SsrfPolicy → Ip → Bool
validate_ip p ip =
    let ip = or_else ip (to_4 ip) in
    if blocks_nat64 p (to_16 ip) then false else if blocks_ip p ip then false else true

abbrev pub localhost : Bytes
localhost = codes "localhost"

-- strings.HasSuffix
unfoldable pub has_suffix : Bytes → Bytes → Bool
has_suffix [] suffix = bytes_eq [] suffix
has_suffix (c ∷ s) suffix =
    let rest = has_suffix s suffix in if bytes_eq (c ∷ s) suffix then true else rest

unfoldable pub is_private_hostname : Bytes → Bool
is_private_hostname host =
    bytes_eq host localhost
    || has_suffix host (codes ".localhost")
    || has_suffix host (codes ".local")
    || has_suffix host (codes ".internal")

module _ (parse_ip : Bytes → Option Ip) where
  abbrev validate_parsed : SsrfPolicy → Option Ip → Bool
  validate_parsed p none = true
  validate_parsed p (some ip) = validate_ip p ip

  unfoldable pub validate_host : SsrfPolicy → Bytes → Bool
  validate_host p host =
      if not p.allow_private_networks && is_private_hostname host
      then false
      else validate_parsed p (parse_ip host)

  -- The URL as url.Parse gives it, a scheme and a hostname.
  unfoldable pub validate_url : SsrfPolicy → Option (Bytes × Bytes) → Bool
  validate_url p none = false
  validate_url p (some (scheme, hostname)) =
      if not (bytes_eq scheme (codes "http")) && not (bytes_eq scheme (codes "https"))
      then false
      else validate_host p hostname

-- What dialSSRFSafe comes to: a connection to an address at a port, or an error.
pub data Dialed : Type 0 where
  connects : Ip → Bytes → Dialed
  bad_address lookup_failed no_addresses blocked : Dialed

abbrev pub first_address : List Ip → Bytes → Dialed
first_address [] port = no_addresses
first_address (ip ∷ ips) port = connects ip port

-- The answer of the resolver; `none` if it failed.
unfoldable pub resolve : SsrfPolicy → Option (List Ip) → Bytes → Dialed
resolve p none port = lookup_failed
resolve p (some ips) port = if all (validate_ip p) ips then first_address ips port else blocked

abbrev dial_host : SsrfPolicy → Option Ip → Option (List Ip) → Bytes → Dialed
dial_host p (some ip) resolved port = if validate_ip p ip then connects ip port else blocked
dial_host p none resolved port = resolve p resolved port

module _ (split_host_port : Bytes → Option (Bytes × Bytes)) (parse_ip : Bytes → Option Ip)
    (lookup_host : Bytes → Option (List Ip)) where
  abbrev dial_split : SsrfPolicy → Option (Bytes × Bytes) → Dialed
  dial_split p none = bad_address
  dial_split p (some (host, port)) = dial_host p (parse_ip host) (lookup_host host) port

  unfoldable pub dial_ssrf_safe : SsrfPolicy → Bytes → Dialed
  dial_ssrf_safe p address = dial_split p (split_host_port address)
