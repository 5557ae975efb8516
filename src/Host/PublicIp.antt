-- ===== src/Host/PublicIp.antt =====
-- `is_public_ip` and its two cases of host/src/main.rs, with the tests of Rust's `Ipv4Addr` and `Ipv6Addr`
-- that they call.
use onedrive_davfs.Base.{ℕ, ◌-◌, ◌%◌, Bool, true, not, ◌&&◌, ◌||◌, List, [], ◌∷◌, ◌==◌, leb}

-- The four octets.
pub record Ipv4Addr : Type 0 where
  pub a : ℕ
  pub b : ℕ
  pub c : ℕ
  pub d : ℕ

-- The first segment, those between, and the last one.
pub record Ipv6Addr : Type 0 where
  pub first : ℕ
  pub middle : List ℕ
  pub last : ℕ

pub data IpAddr : Type 0 where
  v4 : Ipv4Addr → IpAddr
  v6 : Ipv6Addr → IpAddr

abbrev pub is_private : Ipv4Addr → Bool
is_private ip =
    ip.a == 10 || (ip.a == 172 && leb 16 ip.b && leb ip.b 31) || (ip.a == 192 && ip.b == 168)

abbrev pub is_documentation : Ipv4Addr → Bool
is_documentation ip =
    (ip.a == 192 && ip.b == 0 && ip.c == 2)
    || (ip.a == 198 && ip.b == 51 && ip.c == 100)
    || (ip.a == 203 && ip.b == 0 && ip.c == 113)

abbrev pub is_broadcast : Ipv4Addr → Bool
is_broadcast ip = ip.a == 255 && ip.b == 255 && ip.c == 255 && ip.d == 255

abbrev pub is_unspecified : Ipv4Addr → Bool
is_unspecified ip = ip.a == 0 && ip.b == 0 && ip.c == 0 && ip.d == 0

unfoldable pub is_public_ipv4 : Ipv4Addr → Bool
is_public_ipv4 ip = not (
    is_private ip
    || ip.a == 127
    || (ip.a == 169 && ip.b == 254)
    || is_broadcast ip
    || is_documentation ip
    || (leb 224 ip.a && leb ip.a 239)
    || is_unspecified ip
    || ip.a == 0
    || (ip.a == 100 && leb 64 ip.b && leb ip.b 127)
    || (ip.a == 198 && ip.b == 18)
    || (ip.a == 198 && ip.b == 19)
    || ip.a == 240)

abbrev pub all_zero : List ℕ → Bool
all_zero [] = true
all_zero (s ∷ segments) = s == 0 && all_zero segments

-- A mask that keeps the bits from `2 ^ k` on takes away the remainder of `2 ^ k`.
unfoldable pub is_public_ipv6 : Ipv6Addr → Bool
is_public_ipv6 ip = not (
    (ip.first == 0 && all_zero ip.middle && ip.last == 1)
    || ip.first - ip.first % 256 == 0xff00
    || (ip.first == 0 && all_zero ip.middle && ip.last == 0)
    || ip.first - ip.first % 512 == 0xfc00
    || ip.first - ip.first % 64 == 0xfe80
    || ip.first - ip.first % 64 == 0xfec0)

unfoldable pub is_public_ip : IpAddr → Bool
unfolding is_public_ipv4 is_public_ipv6
is_public_ip (v4 ip) = is_public_ipv4 ip
is_public_ip (v6 ip) = is_public_ipv6 ip
