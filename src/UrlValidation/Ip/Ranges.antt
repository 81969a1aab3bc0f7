-- ===== src/UrlValidation/Ip/Ranges.antt =====
-- The block list as ranges of numbers, stated without networks and masks.
use beanstream.Prelude.{
  ℕ, ◌-◌, ◌/◌, ◌^◌, ◌≤◌, ◌<◌, ◌≡◌, ◌↔◌, ◌⊎◌, true, ◌&&◌, ◌||◌, arith, leb, ◌==◌, between,
}
use beanstream.Net.{Ipv4Addr, IsIpv4, ipv4, to_bits}
use beanstream.Crates.{Crates, IpNetLaws}
use beanstream.UrlValidation.Ip.{ipv4_in_network, is_private_or_loopback}

-- The IPv4 ranges, octet by octet.
abbrev pub IsReservedIpv4 : Ipv4Addr → Type 0
IsReservedIpv4 x =
    (x.a ≡ 0)
    ⊎ (x.a ≡ 10)
    ⊎ ((x.a ≡ 100) × (64 ≤ x.b) × (x.b ≤ 127))
    ⊎ (x.a ≡ 127)
    ⊎ ((x.a ≡ 169) × (x.b ≡ 254))
    ⊎ ((x.a ≡ 172) × (16 ≤ x.b) × (x.b ≤ 31))
    ⊎ ((x.a ≡ 192) × (x.b ≡ 0) × (x.c ≡ 0))
    ⊎ ((x.a ≡ 192) × (x.b ≡ 0) × (x.c ≡ 2))
    ⊎ ((x.a ≡ 192) × (x.b ≡ 168))
    ⊎ ((x.a ≡ 198) × (18 ≤ x.b) × (x.b ≤ 19))
    ⊎ ((x.a ≡ 198) × (x.b ≡ 51) × (x.c ≡ 100))
    ⊎ ((x.a ≡ 203) × (x.b ≡ 0) × (x.c ≡ 113))
    ⊎ (224 ≤ x.a)

module _ (crates : Crates) (laws : IpNetLaws crates) where
  ipv4_in_network-eq :
      (x n : Ipv4Addr) (prefix : ℕ)
      → prefix ≤ 32
      → ipv4_in_network crates x n prefix
        ≡ (to_bits x / 2 ^ (32 - prefix) == to_bits n / 2 ^ (32 - prefix))
  unfolding ipv4_in_network
  ipv4_in_network-eq x n prefix h =
      rw (laws.new_net-eq n prefix h, ipv4_in_network) (laws.net_contains-eq n x prefix h)

  module _ (x : Ipv4Addr) (v : IsIpv4 x) where
    slash_8 : (a : ℕ) → a < 256 → ipv4_in_network crates x (ipv4 a 0 0 0) 8 ≡ (x.a == a)
    slash_8 a h = rw (ipv4_in_network-eq x (ipv4 a 0 0 0) 8 (omega arith)) (ground arith)

    slash_16 :
        (a b : ℕ)
        → a < 256
        → b < 256
        → ipv4_in_network crates x (ipv4 a b 0 0) 16 ≡ (x.a == a && x.b == b)
    slash_16 a b h k = rw (ipv4_in_network-eq x (ipv4 a b 0 0) 16 (omega arith)) (ground arith)

    slash_24 :
        (a b c : ℕ)
        → a < 256
        → b < 256
        → c < 256
        → ipv4_in_network crates x (ipv4 a b c 0) 24 ≡ (x.a == a && x.b == b && x.c == c)
    slash_24 a b c h k l = rw (ipv4_in_network-eq x (ipv4 a b c 0) 24 (omega arith)) (ground arith)

    slash_10 : ipv4_in_network crates x (ipv4 100 64 0 0) 10 ≡ (x.a == 100 && between 64 127 x.b)
    slash_10 = rw (ipv4_in_network-eq x (ipv4 100 64 0 0) 10 (omega arith)) (ground arith)

    slash_12 : ipv4_in_network crates x (ipv4 172 16 0 0) 12 ≡ (x.a == 172 && between 16 31 x.b)
    slash_12 = rw (ipv4_in_network-eq x (ipv4 172 16 0 0) 12 (omega arith)) (ground arith)

    slash_15 : ipv4_in_network crates x (ipv4 198 18 0 0) 15 ≡ (x.a == 198 && between 18 19 x.b)
    slash_15 = rw (ipv4_in_network-eq x (ipv4 198 18 0 0) 15 (omega arith)) (ground arith)

    slash_4 : ipv4_in_network crates x (ipv4 224 0 0 0) 4 ≡ between 224 239 x.a
    slash_4 = rw (ipv4_in_network-eq x (ipv4 224 0 0 0) 4 (omega arith)) (ground arith)

    slash_4_reserved : ipv4_in_network crates x (ipv4 240 0 0 0) 4 ≡ leb 240 x.a
    slash_4_reserved = rw (ipv4_in_network-eq x (ipv4 240 0 0 0) 4 (omega arith)) (ground arith)

    is_private_or_loopback-eq : is_private_or_loopback crates x ≡ (
        x.a == 0
        || x.a == 10
        || x.a == 100 && between 64 127 x.b
        || x.a == 127
        || x.a == 169 && x.b == 254
        || x.a == 172 && between 16 31 x.b
        || x.a == 192 && x.b == 0 && x.c == 0
        || x.a == 192 && x.b == 0 && x.c == 2
        || x.a == 192 && x.b == 168
        || x.a == 198 && between 18 19 x.b
        || x.a == 198 && x.b == 51 && x.c == 100
        || x.a == 203 && x.b == 0 && x.c == 113
        || between 224 239 x.a
        || leb 240 x.a)
    unfolding is_private_or_loopback
    is_private_or_loopback-eq = cc (
      slash_8 0 (omega arith),
      slash_8 10 (omega arith),
      slash_10,
      slash_8 127 (omega arith),
      slash_16 169 254 (omega arith) (omega arith),
      slash_12,
      slash_24 192 0 0 (omega arith) (omega arith) (omega arith),
      slash_24 192 0 2 (omega arith) (omega arith) (omega arith),
      slash_16 192 168 (omega arith) (omega arith),
      slash_15,
      slash_24 198 51 100 (omega arith) (omega arith) (omega arith),
      slash_24 203 0 113 (omega arith) (omega arith) (omega arith),
      slash_4,
      slash_4_reserved,
    )

    -- An IPv4 address is refused exactly when it lies in one of the documented ranges.
    pub is_private_or_loopback_iff : (is_private_or_loopback crates x ≡ true) ↔ IsReservedIpv4 x
    is_private_or_loopback_iff = (
      λ h. ground (arith, is_private_or_loopback-eq),
      λ h. rw is_private_or_loopback-eq (ground arith),
    )
