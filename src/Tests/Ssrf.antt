-- ===== src/Tests/Ssrf.antt =====
-- internal/transport/ssrf.go at concrete addresses.
use mini.Prelude.{
  ◌≡◌, refl, Bytes, codes, Option, none, some, List, [], ◌∷◌, ◌++◌, true, false, bytes_eq, not, inl,
  arith,
}
use mini.Transport.Ssrf.{
  Ip, mapped_prefix, behind, to_4, to_16, same_bits, contains_ip, is_private, is_loopback,
  is_private_network_ip, blocks_ip, validate_ip, validate_host, validate_url, has_suffix,
  is_private_hostname, SsrfPolicy, connects, blocked, resolve, dial_ssrf_safe,
}
use mini.Transport.Ssrf.Ranges.{number, is_blocked, nat64, validate_ip-IsExact}
use mini.Transport.Ssrf.Dial.{dial_ssrf_safe-public}

abbrev strict : SsrfPolicy
strict = record { allow_private_networks = false }

abbrev private_allowed : SsrfPolicy
private_allowed = record { allow_private_networks = true }

abbrev split_host_port : Bytes → Option (Bytes × Bytes)
split_host_port address = some (address, codes "443")

abbrev no_literal : Bytes → Option Ip
no_literal host = none

abbrev public_host : Bytes → Option (List Ip)
public_host host = some ((93 ∷ 184 ∷ 215 ∷ 14 ∷ []) ∷ [])

abbrev rebound_host : Bytes → Option (List Ip)
rebound_host host = some ((93 ∷ 184 ∷ 215 ∷ 14 ∷ []) ∷ (mapped_prefix ++ 127 ∷ 0 ∷ 0 ∷ 1 ∷ []) ∷ [])

validate_ip-IsExact_example :
    (validate_ip strict (10 ∷ 1 ∷ 2 ∷ 3 ∷ []) ≡ not (is_blocked strict (number 10 1 2 3)))
    × (validate_ip strict (mapped_prefix ++ 10 ∷ 1 ∷ 2 ∷ 3 ∷ [])
        ≡ not (is_blocked strict (number 10 1 2 3)))
    × (validate_ip strict (nat64 10 1 2 3) ≡ not (is_blocked strict (number 10 1 2 3)))
validate_ip-IsExact_example =
    validate_ip-IsExact 10 1 2 3 (omega arith) (omega arith) (omega arith) (omega arith) strict

dial_runs :
    (dial_ssrf_safe split_host_port no_literal public_host strict (codes "a")
      ≡ connects (93 ∷ 184 ∷ 215 ∷ 14 ∷ []) (codes "443"))
    × (dial_ssrf_safe split_host_port no_literal rebound_host strict (codes "a") ≡ blocked)
    × (validate_ip private_allowed (10 ∷ 1 ∷ 2 ∷ 3 ∷ []) ≡ true)
    × (validate_ip private_allowed (169 ∷ 254 ∷ 169 ∷ 254 ∷ []) ≡ false)
    × (validate_url no_literal strict (some (codes "http", codes "db.internal")) ≡ false)
unfolding dial_ssrf_safe resolve validate_ip blocks_ip is_private_network_ip is_private is_loopback
    contains_ip to_4 to_16 same_bits behind bytes_eq validate_url validate_host is_private_hostname
    has_suffix
dial_runs = (refl, refl, refl, refl, refl)

dial_ssrf_safe-public_example : is_blocked strict (number 93 184 215 14) ≡ false
dial_ssrf_safe-public_example =
    dial_ssrf_safe-public split_host_port no_literal public_host strict (codes "a")
      (93 ∷ 184 ∷ 215 ∷ 14 ∷ []) (codes "443") 93 184 215 14 dial_runs.0 (omega arith) (omega arith)
      (omega arith) (omega arith) (inl refl)
