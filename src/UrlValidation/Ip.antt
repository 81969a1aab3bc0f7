-- ===== src/UrlValidation/Ip.antt =====
-- The address block list of url_validation.rs.
pub mod Blocked
mod Masks
pub mod Ranges
use Prim.Native.Nat.{bit_and}
use beanstream.Prelude.{
  ℕ, zero, suc, ◌+◌, ◌-◌, ◌*◌, ◌/◌, ◌%◌, ◌^◌, ◌≤◌, ◌<◌, min, max, code, String, ◌≡◌, refl, sym, ap,
  subst, ◌∙◌, ◌≢◌, ◌↔◌, ◌⊎◌, inl, inr, Bool, true, false, not, ◌&&◌, ◌||◌, Option, none, some, List,
  [], ◌∷◌, ◌++◌, map, reverse, arith, ltb, leb, ◌==◌, if◌then◌else◌, between, ==_iff, Bool-cases,
  Option-cases, length, any, all, find, keep, length-append, any-append, all-append, All, all_iff,
  All-keep, keep_of_All, keep_idempotent, All-append, All-map,
}
use beanstream.Net.{
  Ipv4Addr, Ipv6Addr, IpAddr, v4, v6, ipv4, to_ipv4, is_unspecified, is_loopback, is_multicast,
}
use beanstream.Crates.{Crates}

unfoldable pub embedded_ipv4 : Ipv6Addr → Option Ipv4Addr
unfolding to_ipv4
embedded_ipv4 address = to_ipv4 address

module _ (crates : Crates) where
  open crates use {Ipv4Net, new_net, net_contains}

  unfoldable pub ipv4_in_network : Ipv4Addr → Ipv4Addr → ℕ → Bool
  ipv4_in_network address network prefix = elim (new_net network prefix) [
    | none ↦ false
    | some n ↦ net_contains n address
  ]

  unfoldable pub is_private_or_loopback : Ipv4Addr → Bool
  is_private_or_loopback address =
      ipv4_in_network address (ipv4 0 0 0 0) 8
      || ipv4_in_network address (ipv4 10 0 0 0) 8
      || ipv4_in_network address (ipv4 100 64 0 0) 10
      || ipv4_in_network address (ipv4 127 0 0 0) 8
      || ipv4_in_network address (ipv4 169 254 0 0) 16
      || ipv4_in_network address (ipv4 172 16 0 0) 12
      || ipv4_in_network address (ipv4 192 0 0 0) 24
      || ipv4_in_network address (ipv4 192 0 2 0) 24
      || ipv4_in_network address (ipv4 192 168 0 0) 16
      || ipv4_in_network address (ipv4 198 18 0 0) 15
      || ipv4_in_network address (ipv4 198 51 100 0) 24
      || ipv4_in_network address (ipv4 203 0 113 0) 24
      || ipv4_in_network address (ipv4 224 0 0 0) 4
      || ipv4_in_network address (ipv4 240 0 0 0) 4

  -- The tests after the early return for an embedded address.
  unfoldable pub is_blocked_native : Ipv6Addr → Bool
  is_blocked_native address =
      let is_unique_local = bit_and address.s0 0xfe00 == 0xfc00 in
      let is_link_local = bit_and address.s0 0xffc0 == 0xfe80 in
      let is_documentation = address.s0 == 0x2001 && address.s1 == 0x0db8 in
      let is_6to4 = address.s0 == 0x2002 in
      let is_6to4_private =
        is_6to4
        && is_private_or_loopback
            (ipv4 (address.s1 / 256) (address.s1 % 256) (address.s2 / 256) (address.s2 % 256)) in
      is_unspecified address
      || is_loopback address
      || is_multicast address
      || is_unique_local
      || is_link_local
      || is_documentation
      || is_6to4_private

  unfoldable pub is_ipv6_loopback_or_multicast : Ipv6Addr → Bool
  is_ipv6_loopback_or_multicast address = elim (embedded_ipv4 address) [
    | some embedded ↦ is_private_or_loopback embedded
    | none ↦ is_blocked_native address
  ]

  unfoldable pub is_blocked_ip : IpAddr → Bool
  is_blocked_ip (v4 address) = is_private_or_loopback address
  is_blocked_ip (v6 address) = is_ipv6_loopback_or_multicast address
