-- ===== src/Net/Display.antt =====
-- The text of an address: `Display` of std's `Ipv4Addr` and `Ipv6Addr`.
use beanstream.Prelude.{
  ℕ, zero, suc, ◌+◌, ◌-◌, ◌/◌, ◌%◌, ◌≡◌, refl, Bool, ◌&&◌, List, [], ◌∷◌, ◌++◌, ltb, ◌==◌,
  if◌then◌else◌,
}
use beanstream.Text.{Str, codes}
use beanstream.Net.{Ipv4Addr, Ipv6Addr, IpAddr, v4, v6, ipv4, ipv6}

abbrev hex_digit : ℕ → ℕ
hex_digit n = if ltb n 10 then b'0' + n else b'a' + (n - 10)

-- A `u8` in decimal and a `u16` in hexadecimal, without leading zeros.
show_u8 : ℕ → Str
show_u8 n =
    if ltb n 10
    then (b'0' + n) ∷ []
    else if ltb n 100
    then (b'0' + n / 10) ∷ (b'0' + n % 10) ∷ []
    else (b'0' + n / 100) ∷ (b'0' + n / 10 % 10) ∷ (b'0' + n % 10) ∷ []

-- A `u16` in decimal.
unfoldable pub show_decimal : ℕ → Str
unfolding show_u8
show_decimal n =
    if ltb n 1000
    then show_u8 n
    else if ltb n 10000
    then (b'0' + n / 1000) ∷ (b'0' + n / 100 % 10) ∷ (b'0' + n / 10 % 10) ∷ (b'0' + n % 10) ∷ []
    else (b'0' + n / 10000)
      ∷ (b'0' + n / 1000 % 10)
      ∷ (b'0' + n / 100 % 10)
      ∷ (b'0' + n / 10 % 10)
      ∷ (b'0' + n % 10)
      ∷ []

show_hex : ℕ → Str
show_hex n =
    if ltb n 16
    then hex_digit n ∷ []
    else if ltb n 256
    then hex_digit (n / 16) ∷ hex_digit (n % 16) ∷ []
    else if ltb n 4096
    then hex_digit (n / 256) ∷ hex_digit (n / 16 % 16) ∷ hex_digit (n % 16) ∷ []
    else hex_digit (n / 4096)
      ∷ hex_digit (n / 256 % 16)
      ∷ hex_digit (n / 16 % 16)
      ∷ hex_digit (n % 16)
      ∷ []

unfoldable pub show_ipv4 : Ipv4Addr → Str
unfolding show_u8
show_ipv4 x = show_u8 x.a ++ b'.' ∷ (show_u8 x.b ++ b'.' ∷ (show_u8 x.c ++ b'.' ∷ show_u8 x.d))

abbrev segments : Ipv6Addr → List ℕ
segments x = x.s0 ∷ x.s1 ∷ x.s2 ∷ x.s3 ∷ x.s4 ∷ x.s5 ∷ x.s6 ∷ x.s7 ∷ []

-- The first longest run of zero segments, as its start and its length.
abbrev Span : Type 0
Span = ℕ × ℕ

longest_run : ℕ → Span → Span → List ℕ → Span
longest_run i current longest [] = longest
longest_run i current longest (s ∷ ss) =
    let run : Span = if current.1 == 0 then (i, 1) else (current.0, current.1 + 1) in
    let current' : Span = if s == 0 then run else (0, 0) in
    let longest' : Span = if ltb longest.1 current'.1 then current' else longest in
    longest_run (i + 1) current' longest' ss

join_hex : List ℕ → Str
unfolding show_hex
join_hex [] = []
join_hex (s ∷ []) = show_hex s
join_hex (s ∷ ss) = show_hex s ++ b':' ∷ join_hex ss

take_drop : ℕ → List ℕ → List ℕ × List ℕ
take_drop zero l = ([], l)
take_drop (suc n) [] = ([], [])
take_drop (suc n) (x ∷ l) = (x ∷ (take_drop n l).0, (take_drop n l).1)

show_segments : List ℕ → Str
unfolding longest_run join_hex take_drop
show_segments ss =
    let run = longest_run 0 (0, 0) (0, 0) ss in
    if ltb 1 run.1
    then join_hex (take_drop run.0 ss).0 ++ codes "::" ++ join_hex (take_drop (run.0 + run.1) ss).1
    else join_hex ss

-- `::ffff:a.b.c.d` is written with the dotted quad.
abbrev is_mapped : Ipv6Addr → Bool
is_mapped x = x.s0 == 0 && x.s1 == 0 && x.s2 == 0 && x.s3 == 0 && x.s4 == 0 && x.s5 == 0xffff

unfoldable pub show_ipv6 : Ipv6Addr → Str
unfolding show_segments show_ipv4
show_ipv6 x =
    if is_mapped x
    then codes "::ffff:" ++ show_ipv4 (ipv4 (x.s6 / 256) (x.s6 % 256) (x.s7 / 256) (x.s7 % 256))
    else show_segments (segments x)

unfoldable pub show_ip : IpAddr → Str
unfolding show_ipv4 show_ipv6
show_ip (v4 x) = show_ipv4 x
show_ip (v6 x) = show_ipv6 x

display_tests :
    (show_ip (v4 (ipv4 8 80 0 255)) ≡ codes "8.80.0.255")
    × (show_ip (v6 (ipv6 0 0 0 0 0 0 0 1)) ≡ codes "::1")
    × (show_ip (v6 (ipv6 0x2001 0xdb8 0 0 1 0 0 0)) ≡ codes "2001:db8:0:0:1::")
    × (show_ip (v6 (ipv6 0 0 0 0 0 0xffff 0x7f00 1)) ≡ codes "::ffff:127.0.0.1")
    × (show_ip (v6 (ipv6 1 2 3 4 5 6 7 0)) ≡ codes "1:2:3:4:5:6:7:0")
unfolding show_ip
display_tests = (refl, refl, refl, refl, refl)
