-- ===== src/UrlValidation/Ip/Blocked.antt =====
-- The block list for both families: IPv6 ranges, and the IPv4 rules on an embedded address.
use beanstream.Prelude.{
  ℕ, ◌/◌, ◌%◌, ◌≤◌, ◌<◌, ◌≡◌, refl, ◌↔◌, ◌⊎◌, inl, inr, Bool, true, false, ◌&&◌, ◌||◌, none, some,
  arith, leb, ◌==◌, between, Option-cases,
}
use beanstream.Net.{
  Ipv4Addr, Ipv6Addr, IpAddr, v4, v6, IsIpv4, IsIpv6, IsIp, ipv4, is_unspecified, is_loopback,
  is_multicast,
}
use beanstream.Crates.{Crates, IpNetLaws}
use beanstream.UrlValidation.Ip.{
  is_private_or_loopback, embedded_ipv4, is_blocked_native, is_ipv6_loopback_or_multicast,
  is_blocked_ip,
}
use beanstream.UrlValidation.Ip.Ranges.{IsReservedIpv4, is_private_or_loopback_iff}
use beanstream.UrlValidation.Ip.Masks.{unique_local-eq, link_local-eq, multicast-eq}

-- `::a.b.c.d` and `::ffff:a.b.c.d`
abbrev pub IsEmbedding : Ipv6Addr → Type 0
IsEmbedding x =
    (x.s0 ≡ 0) × (x.s1 ≡ 0) × (x.s2 ≡ 0) × (x.s3 ≡ 0) × (x.s4 ≡ 0) × ((x.s5 ≡ 0) ⊎ (x.s5 ≡ 0xffff))

-- The IPv4 address in two segments.
abbrev pub join_segments : ℕ → ℕ → Ipv4Addr
join_segments hi lo = ipv4 (hi / 256) (hi % 256) (lo / 256) (lo % 256)

-- Unique-local, link-local, multicast, documentation, and 6to4 with a reserved address in it.
abbrev pub IsReservedNative : Ipv6Addr → Type 0
IsReservedNative x =
    ((0xfc00 ≤ x.s0) × (x.s0 ≤ 0xfdff))
    ⊎ ((0xfe80 ≤ x.s0) × (x.s0 ≤ 0xfebf))
    ⊎ (0xff00 ≤ x.s0)
    ⊎ ((x.s0 ≡ 0x2001) × (x.s1 ≡ 0xdb8))
    ⊎ ((x.s0 ≡ 0x2002) × IsReservedIpv4 (join_segments x.s1 x.s2))

abbrev pub IsReservedIpv6 : Ipv6Addr → Type 0
IsReservedIpv6 x =
    (IsEmbedding x × IsReservedIpv4 (join_segments x.s6 x.s7))
    ⊎ ((¬ IsEmbedding x) × IsReservedNative x)

abbrev pub IsReserved : IpAddr → Type 0
IsReserved (v4 x) = IsReservedIpv4 x
IsReserved (v6 x) = IsReservedIpv6 x

join_segments-IsIpv4 : (hi lo : ℕ) → hi < 65536 → lo < 65536 → IsIpv4 (join_segments hi lo)
join_segments-IsIpv4 hi lo h l = omega arith

embedded_ipv4-cases :
    (x : Ipv6Addr)
    → (IsEmbedding x × (embedded_ipv4 x ≡ some (join_segments x.s6 x.s7)))
      ⊎ ((¬ IsEmbedding x) × (embedded_ipv4 x ≡ none))
unfolding embedded_ipv4
embedded_ipv4-cases x = elim (Option-cases (embedded_ipv4 x)) [
  | inl e ↦ inr (λ h. ground arith, e)
  | inr (y, e) ↦ inl (ground arith, ground arith)
]

-- The ranges by tests, for any rule on the address inside a 6to4 address.
ranges_iff :
    (s0 s1 : ℕ) (b : Bool) {P : Type 0}
    → (b ≡ true) ↔ P
    → ((between 0xfc00 0xfdff s0
          || between 0xfe80 0xfebf s0
          || leb 0xff00 s0
          || s0 == 0x2001 && s1 == 0xdb8
          || s0 == 0x2002 && b)
        ≡ true)
      ↔ (((0xfc00 ≤ s0) × (s0 ≤ 0xfdff))
          ⊎ ((0xfe80 ≤ s0) × (s0 ≤ 0xfebf))
          ⊎ (0xff00 ≤ s0)
          ⊎ ((s0 ≡ 0x2001) × (s1 ≡ 0xdb8))
          ⊎ ((s0 ≡ 0x2002) × P))
ranges_iff s0 s1 true p = let q = p.0 refl in (λ h. ground arith, λ h. ground arith)
ranges_iff s0 s1 false p = (
  λ h. ground arith,
  λ h. elim h [
    | inl r ↦ ground arith
    | inr (inl r) ↦ ground arith
    | inr (inr (inl r)) ↦ ground arith
    | inr (inr (inr (inl r))) ↦ ground arith
    | inr (inr (inr (inr r))) ↦ cc (p.1 r.1)
  ],
)

module _ (crates : Crates) (laws : IpNetLaws crates) where
  native-eq :
      (x : Ipv6Addr)
      → IsIpv6 x
      → ¬ IsEmbedding x
      → is_blocked_native crates x ≡ (
          between 0xfc00 0xfdff x.s0
          || between 0xfe80 0xfebf x.s0
          || leb 0xff00 x.s0
          || x.s0 == 0x2001 && x.s1 == 0xdb8
          || x.s0 == 0x2002 && is_private_or_loopback crates (join_segments x.s1 x.s2))
  unfolding is_blocked_native is_unspecified is_loopback is_multicast
  native-eq x v n =
      ground
        (arith, unique_local-eq x.s0 v.s0_lt, link_local-eq x.s0 v.s0_lt, multicast-eq x.s0 v.s0_lt)

  native_iff :
      (x : Ipv6Addr)
      → IsIpv6 x
      → ¬ IsEmbedding x
      → (is_blocked_native crates x ≡ true) ↔ IsReservedNative x
  native_iff x v n = rw (native-eq x v n) (
      ranges_iff x.s0 x.s1 _ (
        is_private_or_loopback_iff crates laws (join_segments x.s1 x.s2)
          (join_segments-IsIpv4 x.s1 x.s2 v.s1_lt v.s2_lt)))

  is_ipv6_loopback_or_multicast_iff :
      (x : Ipv6Addr) → IsIpv6 x → (is_ipv6_loopback_or_multicast crates x ≡ true) ↔ IsReservedIpv6 x
  unfolding is_ipv6_loopback_or_multicast
  is_ipv6_loopback_or_multicast_iff x v = elim (embedded_ipv4-cases x) [
    | inl (emb, e) ↦
        let (to, from) =
          is_private_or_loopback_iff crates laws (join_segments x.s6 x.s7)
            (join_segments-IsIpv4 x.s6 x.s7 v.s6_lt v.s7_lt) in
        (
          λ h. inl (emb, to (ground arith)),
          elim [
            | inl r ↦ (rw (e, is_ipv6_loopback_or_multicast) (from r.1))
            | inr r ↦ absurd (r.0 emb)
          ],
        )
    | inr (n, e) ↦ (
      λ h. inr (n, (native_iff x v n).0 (ground arith)),
      elim [
        | inl r ↦ absurd (n r.0)
        | inr r ↦ rw (e, is_ipv6_loopback_or_multicast) ((native_iff x v n).1 r.1)
      ],
    )
  ]

  -- Where `ipnet` behaves as documented and the parts of an address are in range, it is refused
  -- exactly when it lies in a documented range: an IPv6 address that embeds
  -- an IPv4 address by the rules for that, and a 6to4 address by those for the address in it.
  pub is_blocked_ip_iff : (x : IpAddr) → IsIp x → (is_blocked_ip crates x ≡ true) ↔ IsReserved x
  unfolding is_blocked_ip
  is_blocked_ip_iff (v4 x) v = is_private_or_loopback_iff crates laws x v
  is_blocked_ip_iff (v6 x) v = is_ipv6_loopback_or_multicast_iff x v
