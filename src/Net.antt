-- ===== src/Net.antt =====
-- std::net: addresses of both families, as octets and as 16-bit segments, and their text.
pub mod Display
use beanstream.Prelude.{
  ℕ, zero, suc, ◌+◌, ◌-◌, ◌*◌, ◌/◌, ◌%◌, ◌^◌, ◌≤◌, ◌<◌, min, max, code, String, ◌≡◌, refl, sym, ap,
  subst, ◌∙◌, ◌≢◌, ◌↔◌, ◌⊎◌, inl, inr, Bool, true, false, not, ◌&&◌, ◌||◌, Option, none, some, List,
  [], ◌∷◌, ◌++◌, map, reverse, arith, ltb, leb, ◌==◌, if◌then◌else◌, between, ==_iff, Bool-cases,
  Option-cases, length, any, all, find, keep, length-append, any-append, all-append, All, all_iff,
  All-keep, keep_of_All, keep_idempotent, All-append, All-map,
}
use Prim.Native.Nat.{bit_and}

-- Four octets, most significant first.
pub record Ipv4Addr : Type 0 where
  pub a : ℕ
  pub b : ℕ
  pub c : ℕ
  pub d : ℕ

abbrev pub ipv4 : ℕ → ℕ → ℕ → ℕ → Ipv4Addr
ipv4 a b c d = record { a = a; b = b; c = c; d = d }

-- Eight segments, most significant first.
pub record Ipv6Addr : Type 0 where
  pub s0 : ℕ
  pub s1 : ℕ
  pub s2 : ℕ
  pub s3 : ℕ
  pub s4 : ℕ
  pub s5 : ℕ
  pub s6 : ℕ
  pub s7 : ℕ

abbrev pub ipv6 : ℕ → ℕ → ℕ → ℕ → ℕ → ℕ → ℕ → ℕ → Ipv6Addr
ipv6 s0 s1 s2 s3 s4 s5 s6 s7 = record {
  s0 = s0;
  s1 = s1;
  s2 = s2;
  s3 = s3;
  s4 = s4;
  s5 = s5;
  s6 = s6;
  s7 = s7;
}

pub data IpAddr : Type 0 where
  v4 : Ipv4Addr → IpAddr
  v6 : Ipv6Addr → IpAddr

-- The ranges of `u8` and `u16`.
pub record IsIpv4 (x : Ipv4Addr) : Type 0 where
  pub a_lt : x.a < 256
  pub b_lt : x.b < 256
  pub c_lt : x.c < 256
  pub d_lt : x.d < 256

pub record IsIpv6 (x : Ipv6Addr) : Type 0 where
  pub s0_lt : x.s0 < 65536
  pub s1_lt : x.s1 < 65536
  pub s2_lt : x.s2 < 65536
  pub s3_lt : x.s3 < 65536
  pub s4_lt : x.s4 < 65536
  pub s5_lt : x.s5 < 65536
  pub s6_lt : x.s6 < 65536
  pub s7_lt : x.s7 < 65536

abbrev pub IsIp : IpAddr → Type 0
IsIp (v4 x) = IsIpv4 x
IsIp (v6 x) = IsIpv6 x

-- `u32::from(address)`
abbrev pub to_bits : Ipv4Addr → ℕ
to_bits x = ((x.a * 256 + x.b) * 256 + x.c) * 256 + x.d

all_zero_up_to : Ipv6Addr → ℕ → Bool
all_zero_up_to x s7 =
    x.s0 == 0
    && x.s1 == 0
    && x.s2 == 0
    && x.s3 == 0
    && x.s4 == 0
    && x.s5 == 0
    && x.s6 == 0
    && x.s7 == s7

-- `Ipv6Addr::is_unspecified`, `is_loopback` and `is_multicast`
unfoldable pub is_unspecified : Ipv6Addr → Bool
unfolding all_zero_up_to
is_unspecified x = all_zero_up_to x 0

unfoldable pub is_loopback : Ipv6Addr → Bool
unfolding all_zero_up_to
is_loopback x = all_zero_up_to x 1

unfoldable pub is_multicast : Ipv6Addr → Bool
is_multicast x = bit_and x.s0 0xff00 == 0xff00

-- `Ipv6Addr::to_ipv4`: of `::a.b.c.d` and `::ffff:a.b.c.d` the last four bytes
unfoldable pub to_ipv4 : Ipv6Addr → Option Ipv4Addr
to_ipv4 x =
    if x.s0 == 0
      && x.s1 == 0
      && x.s2 == 0
      && x.s3 == 0
      && x.s4 == 0
      && (x.s5 == 0 || x.s5 == 0xffff)
    then some (ipv4 (x.s6 / 256) (x.s6 % 256) (x.s7 / 256) (x.s7 % 256))
    else none

unfoldable pub ipv4_eq : Ipv4Addr → Ipv4Addr → Bool
ipv4_eq x y = x.a == y.a && x.b == y.b && x.c == y.c && x.d == y.d

unfoldable pub ip_eq : IpAddr → IpAddr → Bool
unfolding ipv4_eq
ip_eq (v4 x) (v4 y) = ipv4_eq x y
ip_eq (v6 x) (v6 y) =
    x.s0 == y.s0
    && x.s1 == y.s1
    && x.s2 == y.s2
    && x.s3 == y.s3
    && x.s4 == y.s4
    && x.s5 == y.s5
    && x.s6 == y.s6
    && x.s7 == y.s7
ip_eq _ _ = false

pub ip_eq_iff : (x y : IpAddr) → (ip_eq x y ≡ true) ↔ (x ≡ y)
unfolding ip_eq
ip_eq_iff (v4 x) (v4 y) = ground arith
ip_eq_iff (v6 x) (v6 y) = ground arith
ip_eq_iff (v4 x) (v6 y) = ground arith
ip_eq_iff (v6 x) (v4 y) = ground arith
