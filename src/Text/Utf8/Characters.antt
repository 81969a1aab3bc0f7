-- ===== src/Text/Utf8/Characters.antt =====
-- The characters that two, three and four bytes encode.
use beanstream.Prelude.{
  ℕ, ◌+◌, ◌-◌, ◌*◌, ◌/◌, ◌%◌, ◌≤◌, ◌<◌, ◌≡◌, inl, inr, true, false, [], ◌∷◌, arith, ltb, ◌==◌,
  if◌then◌else◌, Bool-cases,
}
use beanstream.Text.{utf8_char}
use beanstream.Text.Utf8.{IsScalar}

pub two_encoded :
    (a b : ℕ)
    → 0xc2 ≤ a
    → a ≤ 0xdf
    → 0x80 ≤ b
    → b ≤ 0xbf
    → utf8_char ((a - 0xc0) * 64 + (b - 0x80)) ≡ a ∷ b ∷ []
unfolding utf8_char
two_encoded a b h k l m =
    let c = (a - 0xc0) * 64 + (b - 0x80) in
    let big : ltb c 0x80 ≡ false = ground arith in
    let small : ltb c 0x800 ≡ true = ground arith in rw (big, small) (ground arith)

pub three_encoded :
    (a b d : ℕ)
    → 0xe0 ≤ a
    → a ≤ 0xef
    → (if a == 0xe0 then 0xa0 else 0x80) ≤ b
    → b ≤ (if a == 0xed then 0x9f else 0xbf)
    → 0x80 ≤ d
    → d ≤ 0xbf
    → (utf8_char (((a - 0xe0) * 64 + (b - 0x80)) * 64 + (d - 0x80)) ≡ a ∷ b ∷ d ∷ [])
      × IsScalar (((a - 0xe0) * 64 + (b - 0x80)) * 64 + (d - 0x80))
unfolding utf8_char
three_encoded a b d h k l m n o =
    let c = ((a - 0xe0) * 64 + (b - 0x80)) * 64 + (d - 0x80) in
    let low : 0x80 ≤ b = ground arith in
    let high : b ≤ 0xbf = ground arith in
    let big : 0x800 ≤ c = ground arith in
    let not_one : ltb c 0x80 ≡ false = ground arith in
    let not_two : ltb c 0x800 ≡ false = ground arith in
    let small : ltb c 0x10000 ≡ true = ground arith in
    let first : 0xe0 + c / 4096 ≡ a = omega arith in
    let second : 0x80 + c / 64 % 64 ≡ b = omega arith in
    let third : 0x80 + c % 64 ≡ d = omega arith in
    (
      rw (not_one, not_two, small) (cc (first, second, third)),
      elim (Bool-cases (ltb c 0xd800)) [
        | inl e ↦ inl (ground arith)
        | inr e ↦ inr (ground arith, ground arith)
      ],
    )

pub four_encoded :
    (a b d e : ℕ)
    → 0xf0 ≤ a
    → a ≤ 0xf4
    → (if a == 0xf0 then 0x90 else 0x80) ≤ b
    → b ≤ (if a == 0xf4 then 0x8f else 0xbf)
    → 0x80 ≤ d
    → d ≤ 0xbf
    → 0x80 ≤ e
    → e ≤ 0xbf
    → (utf8_char ((((a - 0xf0) * 64 + (b - 0x80)) * 64 + (d - 0x80)) * 64 + (e - 0x80))
        ≡ a ∷ b ∷ d ∷ e ∷ [])
      × IsScalar ((((a - 0xf0) * 64 + (b - 0x80)) * 64 + (d - 0x80)) * 64 + (e - 0x80))
unfolding utf8_char
four_encoded a b d e h k l m n o p q =
    let c = (((a - 0xf0) * 64 + (b - 0x80)) * 64 + (d - 0x80)) * 64 + (e - 0x80) in
    let low : 0x80 ≤ b = ground arith in
    let high : b ≤ 0xbf = ground arith in
    let big : 0x10000 ≤ c = ground arith in
    let bounded : c < 0x110000 = ground arith in
    let not_one : ltb c 0x80 ≡ false = ground arith in
    let not_two : ltb c 0x800 ≡ false = ground arith in
    let not_three : ltb c 0x10000 ≡ false = ground arith in
    let first : 0xf0 + c / 262144 ≡ a = omega arith in
    let second : 0x80 + c / 4096 % 64 ≡ b = omega arith in
    let third : 0x80 + c / 64 % 64 ≡ d = omega arith in
    let fourth : 0x80 + c % 64 ≡ e = omega arith in
    (
      rw (not_one, not_two, not_three) (cc (first, second, third, fourth)),
      inr (omega arith, bounded),
    )
