-- ===== src/Transport/Ssrf/Ranges.antt =====
-- internal/transport/ssrf.go: the blocked IPv4 addresses as ranges of numbers.
use mini.Prelude.{
  ℕ, ◌+◌, ◌*◌, ◌/◌, ◌<◌, ◌≡◌, refl, Bool, true, false, not, bytes_eq, ◌&&◌, ◌||◌, [], ◌∷◌, ◌++◌,
  ◌==◌, leb, any, if◌then◌else◌, arith,
}
use mini.Transport.Ssrf.{
  Ip, mapped_prefix, behind, to_4, to_16, same_bits, contains_ip, is_private, is_loopback,
  is_private_network_ip, ssrf_private_ranges, SsrfPolicy, blocks_ip, validate_ip,
}

-- The address a.b.c.d as a number, and the numbers from one address to another.
abbrev pub number : ℕ → ℕ → ℕ → ℕ → ℕ
number a b c d = a * 16777216 + b * 65536 + c * 256 + d

abbrev pub from_to : ℕ → ℕ → ℕ → Bool
from_to low high n = leb low n && leb n high

-- 10.0.0.0/8, 172.16.0.0/12, 192.168.0.0/16, 127.0.0.0/8 and 100.64.0.0/10.
unfoldable pub is_local : ℕ → Bool
is_local n =
    from_to 167772160 184549375 n
    || from_to 2886729728 2887778303 n
    || from_to 3232235520 3232301055 n
    || from_to 2130706432 2147483647 n
    || from_to 1681915904 1686110207 n

-- 0.0.0.0/8, 169.254.0.0/16, 198.18.0.0/15, and all from 224.0.0.0 on.
unfoldable pub is_special : ℕ → Bool
is_special n =
    from_to 0 16777215 n
    || (from_to 2851995648 2852061183 n || (from_to 3323068416 3323199487 n || leb 3758096384 n))

abbrev pub is_blocked : SsrfPolicy → ℕ → Bool
is_blocked p n = (not p.allow_private_networks && is_local n) || is_special n

-- 64:ff9b:: with an IPv4 address behind it.
abbrev pub nat64 : ℕ → ℕ → ℕ → ℕ → Ip
nat64 a b c d = 0 ∷ 0x64 ∷ 0xff ∷ 0x9b ∷ 0 ∷ 0 ∷ 0 ∷ 0 ∷ 0 ∷ 0 ∷ 0 ∷ 0 ∷ a ∷ b ∷ c ∷ d ∷ []

module _ (a b c d : ℕ) (la : a < 256) (lb : b < 256) (lc : c < 256) (ld : d < 256) where
  -- One byte, the upper bits of the second one, or both bytes are given.
  one_byte : (x : ℕ) → (a == x) ≡ from_to (x * 16777216) (x * 16777216 + 16777215) (number a b c d)
  one_byte x = ground arith

  two_bytes :
      (x y : ℕ)
      → y < 256
      → (a == x && b == y)
        ≡ from_to (x * 16777216 + y * 65536) (x * 16777216 + y * 65536 + 65535) (number a b c d)
  two_bytes x y h = ground arith

  upper_4 :
      (x y : ℕ)
      → y < 16
      → (a == x && b / 16 == y)
        ≡ from_to
            (x * 16777216 + y * 1048576)
            (x * 16777216 + y * 1048576 + 1048575)
            (number a b c d)
  upper_4 x y h = ground arith

  upper_2 :
      (x y : ℕ)
      → y < 4
      → (x == a && y == b / 64)
        ≡ from_to
            (x * 16777216 + y * 4194304)
            (x * 16777216 + y * 4194304 + 4194303)
            (number a b c d)
  upper_2 x y h = ground arith

  upper_7 :
      (x y : ℕ)
      → y < 128
      → (x == a && y == b / 2)
        ≡ from_to (x * 16777216 + y * 131072) (x * 16777216 + y * 131072 + 131071) (number a b c d)
  upper_7 x y h = ground arith

  local-v4 : is_private_network_ip (a ∷ b ∷ c ∷ d ∷ []) ≡ is_local (number a b c d)
  unfolding is_private_network_ip is_private is_loopback is_local contains_ip to_4 same_bits
  local-v4 =
      let p = one_byte 10 in
      let q = upper_4 172 1 (omega arith) in
      let r = two_bytes 192 168 (omega arith) in
      let s = one_byte 127 in
      let t = upper_2 100 1 (omega arith) in rw p (rw q (rw r (rw s (rw t refl))))

  last_bits :
      (x : ℕ)
      → x < 256
      → (x == a && 0 == b / 256) ≡ from_to (x * 16777216) (x * 16777216 + 16777215) (number a b c d)
  last_bits x h = ground arith

  two_and_last :
      (x y : ℕ)
      → y < 256
      → (x == a && (y == b && 0 == c / 256))
        ≡ from_to (x * 16777216 + y * 65536) (x * 16777216 + y * 65536 + 65535) (number a b c d)
  two_and_last x y h = ground arith

  multicast_or_reserved :
      (p : Bool)
      → (14 == a / 16 || (p || (15 == a / 16 || false))) ≡ p || leb 3758096384 (number a b c d)
  multicast_or_reserved true = ground arith
  multicast_or_reserved false = ground arith

  special-v4 :
      any (contains_ip (a ∷ b ∷ c ∷ d ∷ [])) ssrf_private_ranges ≡ is_special (number a b c d)
  unfolding is_special contains_ip to_4 same_bits
  special-v4 =
      let p = last_bits 0 (omega arith) in
      let q = two_and_last 169 254 (omega arith) in
      let r = upper_7 198 9 (omega arith) in
      let s = multicast_or_reserved (198 == a && 9 == b / 2) in rw p (rw q (rw s (rw r refl)))

  blocks_ip-v4 : (p : SsrfPolicy) → blocks_ip p (a ∷ b ∷ c ∷ d ∷ []) ≡ is_blocked p (number a b c d)
  unfolding blocks_ip
  blocks_ip-v4 p =
      rw local-v4
        (rw special-v4 (either (not p.allow_private_networks && is_local (number a b c d)) _))
    where
      either : (x y : Bool) → (if x then true else y) ≡ x || y
      either true y = refl
      either false y = refl

  negated : (x : Bool) → (if x then false else true) ≡ not x
  negated true = refl
  negated false = refl

  plain-IsExact :
      (p : SsrfPolicy) → validate_ip p (a ∷ b ∷ c ∷ d ∷ []) ≡ not (is_blocked p (number a b c d))
  unfolding validate_ip to_4 to_16 contains_ip same_bits behind
  plain-IsExact p = rw (blocks_ip-v4 p) (negated (is_blocked p (number a b c d)))

  nat64_itself : (p : SsrfPolicy) → blocks_ip p (nat64 a b c d) ≡ false
  unfolding blocks_ip is_private_network_ip is_private is_loopback contains_ip to_4 same_bits behind
      bytes_eq
  nat64_itself p = itself p.allow_private_networks
    where
      itself : (x : Bool) → (if not x && false then true else false) ≡ false
      itself true = refl
      itself false = refl

  nat64-IsExact :
      (p : SsrfPolicy) → validate_ip p (nat64 a b c d) ≡ not (is_blocked p (number a b c d))
  unfolding validate_ip to_4 to_16 contains_ip same_bits behind
  nat64-IsExact p =
      let whole : (0 == a / 256) ≡ true = ground arith in
      rw whole (rw (blocks_ip-v4 p) (rw (nat64_itself p) (negated (is_blocked p (number a b c d)))))

  -- The tests on prefixes of bits accept an IPv4 address just when its number is outside of the
  -- blocked ranges, and so they do with the same address mapped into IPv6 or behind the prefix
  -- of NAT64.
  pub validate_ip-IsExact :
      (p : SsrfPolicy)
      → (validate_ip p (a ∷ b ∷ c ∷ d ∷ []) ≡ not (is_blocked p (number a b c d)))
        × (validate_ip p (mapped_prefix ++ a ∷ b ∷ c ∷ d ∷ [])
            ≡ not (is_blocked p (number a b c d)))
        × (validate_ip p (nat64 a b c d) ≡ not (is_blocked p (number a b c d)))
  unfolding validate_ip to_4 behind
  validate_ip-IsExact p = (plain-IsExact p, plain-IsExact p, nat64-IsExact p)
