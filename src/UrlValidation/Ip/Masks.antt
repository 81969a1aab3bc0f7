-- ===== src/UrlValidation/Ip/Masks.antt =====
-- The masks of `is_ipv6_loopback_or_multicast` as ranges, by evaluation over all 16-bit segments.
use Prim.Native.Nat.{bit_and}
use beanstream.Prelude.{
  ℕ, zero, suc, ◌<◌, ◌≡◌, refl, Bool, true, false, not, ◌&&◌, arith, ◌==◌, between,
}

-- The test holds of each segment under the limit.
holds_under : (test : ℕ → Bool) → ℕ → Bool
holds_under test zero = true
holds_under test (suc limit) = holds_under test limit && test limit

test_of_holds_under :
    (test : ℕ → Bool) (limit segment : ℕ)
    → segment < limit
    → holds_under test limit ≡ true
    → test segment ≡ true
unfolding holds_under
test_of_holds_under test zero segment below held = absurd (omega arith)
test_of_holds_under test (suc limit) segment below held =
    ground (arith, test_of_holds_under test limit segment)

same : Bool → Bool → Bool
same true b = b
same false b = not b

eq_of_same : (a b : Bool) → same a b ≡ true → a ≡ b
unfolding same
eq_of_same true b h = ground arith
eq_of_same false b h = ground arith

-- A segment with the bits `mask` equal to `top` lies in a range.
abbrev agrees : ℕ → ℕ → ℕ → ℕ → ℕ → Bool
agrees mask top lo hi x = same (bit_and x mask == top) (between lo hi x)

mask_table :
    (holds_under (agrees 0xfe00 0xfc00 0xfc00 0xfdff) 65536 ≡ true)
    × (holds_under (agrees 0xffc0 0xfe80 0xfe80 0xfebf) 65536 ≡ true)
    × (holds_under (agrees 0xff00 0xff00 0xff00 0xffff) 65536 ≡ true)
unfolding holds_under same
mask_table = (refl, refl, refl)

module _ (x : ℕ) (h : x < 65536) where
  pub unique_local-eq : (bit_and x 0xfe00 == 0xfc00) ≡ between 0xfc00 0xfdff x
  unique_local-eq =
      eq_of_same _ _
        (test_of_holds_under (agrees 0xfe00 0xfc00 0xfc00 0xfdff) 65536 x h mask_table.0)

  pub link_local-eq : (bit_and x 0xffc0 == 0xfe80) ≡ between 0xfe80 0xfebf x
  link_local-eq =
      eq_of_same _ _
        (test_of_holds_under (agrees 0xffc0 0xfe80 0xfe80 0xfebf) 65536 x h mask_table.1)

  pub multicast-eq : (bit_and x 0xff00 == 0xff00) ≡ between 0xff00 0xffff x
  multicast-eq =
      eq_of_same _ _
        (test_of_holds_under (agrees 0xff00 0xff00 0xff00 0xffff) 65536 x h mask_table.2)
