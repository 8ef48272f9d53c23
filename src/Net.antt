-- ===== src/Net.antt =====
-- Addresses: union sockaddr_u of params.h, with what the code does to one in proxy.c. The IPv4 and
-- the IPv6 address lie at different offsets of the union, so both fields are always there. Ports
-- are kept as the two bytes of the network order, read as a number of the host.
pub mod Mapped
use byedpi.Prelude.{
  ℕ, ◌+◌, ◌*◌, ◌/◌, ◌%◌, ◌&&◌, not, Bool, true, false, Option, none, some, List, [], ◌∷◌, ◌++◌,
  Bytes, length, take, drop, byte_at, ◌==◌, if◌then◌else◌,
}

pub data Family : Type 0 where
  inet inet6 : Family

abbrev pub is_inet : Family → Bool
is_inet inet = true
is_inet inet6 = false

pub record Addr : Type 0 where
  pub family : Family
  pub port : ℕ
  pub v4 : Bytes
  pub v6 : Bytes

-- htons on a little-endian host.
unfoldable pub htons : ℕ → ℕ
htons x = x % 256 * 256 + x / 256 % 256

unfoldable pub same_list : Bytes → Bytes → Bool
same_list [] [] = true
same_list (x ∷ xs) (y ∷ ys) = x == y && same_list xs ys
same_list [] (y ∷ ys) = false
same_list (x ∷ xs) [] = false

-- The ten zeros and two ones in front of an IPv4 address that is mapped into IPv6.
abbrev pub mapped_prefix : Bytes
mapped_prefix = 0 ∷ 0 ∷ 0 ∷ 0 ∷ 0 ∷ 0 ∷ 0 ∷ 0 ∷ 0 ∷ 0 ∷ 0xff ∷ 0xff ∷ []

abbrev pub is_mapped : Addr → Bool
is_mapped a = same_list (take 12 a.v6) mapped_prefix

unfoldable pub map_fix : Addr → Bool → Addr
unfolding same_list
map_fix a f6 =
    if is_inet a.family && f6
    then record a { family = inet6; v6 = mapped_prefix ++ a.v4 }
    else if is_mapped a && not f6
    then record a { family = inet; v4 = drop 12 a.v6 }
    else a

unfoldable pub addr_equ : Addr → Addr → Bool
unfolding same_list
addr_equ a b = if is_inet a.family then same_list a.v4 b.v4 else same_list a.v6 b.v6
