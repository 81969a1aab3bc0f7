-- ===== src/Text/Utf8/Encoded.antt =====
-- `from_utf8` gives back what was encoded.
use beanstream.Prelude.{
  ℕ, suc, ◌+◌, ◌-◌, ◌*◌, ◌/◌, ◌%◌, ◌≤◌, ◌<◌, ◌≡◌, refl, ap, ◌∙◌, ◌⊎◌, inl, inr, true, false, some,
  List, [], ◌∷◌, ◌++◌, arith, ltb, ◌==◌, if◌then◌else◌, between, Bool-cases, All,
}
use beanstream.Text.{Str, utf8_char, utf8}
use beanstream.Text.Utf8.{IsScalar, prepend, chars_from, from_utf8}

-- One byte at a time: the first byte of a character, the last one, and one between them.
module _ (b : ℕ) (bs : List ℕ) where
  ascii_byte : b < 0x80 → chars_from 0 0 0 0 (b ∷ bs) ≡ prepend b (chars_from 0 0 0 0 bs)
  unfolding chars_from
  ascii_byte h = ground arith

  lead_of_two :
      0xc2 ≤ b → b ≤ 0xdf → chars_from 0 0 0 0 (b ∷ bs) ≡ chars_from 1 (b - 0xc0) 0x80 0xbf bs
  unfolding chars_from
  lead_of_two h k = ground arith

  abbrev low_of_three : ℕ
  low_of_three = if b == 0xe0 then 0xa0 else 0x80

  abbrev high_of_three : ℕ
  high_of_three = if b == 0xed then 0x9f else 0xbf

  lead_of_three :
      0xe0 ≤ b
      → b ≤ 0xef
      → chars_from 0 0 0 0 (b ∷ bs) ≡ chars_from 2 (b - 0xe0) low_of_three high_of_three bs
  unfolding chars_from
  lead_of_three h k = ground arith

  abbrev low_of_four : ℕ
  low_of_four = if b == 0xf0 then 0x90 else 0x80

  abbrev high_of_four : ℕ
  high_of_four = if b == 0xf4 then 0x8f else 0xbf

  lead_of_four :
      0xf0 ≤ b
      → b ≤ 0xf4
      → chars_from 0 0 0 0 (b ∷ bs) ≡ chars_from 3 (b - 0xf0) low_of_four high_of_four bs
  unfolding chars_from
  lead_of_four h k =
      let a : ltb b 0x80 ≡ false = ground arith in
      let two : between 0xc2 0xdf b ≡ false = ground arith in
      let three : between 0xe0 0xef b ≡ false = ground arith in
      let four : between 0xf0 0xf4 b ≡ true = ground arith in rw (a, two, three, four) refl

  module _ (bits lo hi : ℕ) (low : lo ≤ b) (high : b ≤ hi) where
    last_byte :
        chars_from 1 bits lo hi (b ∷ bs) ≡ prepend (bits * 64 + (b - 0x80)) (chars_from 0 0 0 0 bs)
    unfolding chars_from
    last_byte = ground arith

    inner_byte :
        (missing : ℕ)
        → chars_from (suc (suc missing)) bits lo hi (b ∷ bs)
          ≡ chars_from (suc missing) (bits * 64 + (b - 0x80)) 0x80 0xbf bs
    unfolding chars_from
    inner_byte missing = ground arith

-- Completeness, a character at a time.
module _ (c : ℕ) (bs : List ℕ) where
  abbrev Decodes : List ℕ → Type 0
  Decodes bytes = chars_from 0 0 0 0 (bytes ++ bs) ≡ prepend c (chars_from 0 0 0 0 bs)

  two_bytes : 0x80 ≤ c → c < 0x800 → Decodes ((0xc0 + c / 64) ∷ (0x80 + c % 64) ∷ [])
  two_bytes h k =
      let same : (0xc0 + c / 64 - 0xc0) * 64 + (0x80 + c % 64 - 0x80) ≡ c = omega arith in
      lead_of_two _ _ (omega arith) (omega arith)
      ∙ last_byte _ _ _ _ _ (omega arith) (omega arith)
      ∙ ap (λ n. prepend n (chars_from 0 0 0 0 bs)) same

  three_bytes :
      0x800 ≤ c
      → c < 0x10000
      → (c < 0xd800) ⊎ (0xdfff < c)
      → Decodes ((0xe0 + c / 4096) ∷ (0x80 + c / 64 % 64) ∷ (0x80 + c % 64) ∷ [])
  three_bytes h k scalar =
      let same : ((0xe0 + c / 4096 - 0xe0) * 64 + (0x80 + c / 64 % 64 - 0x80)) * 64
            + (0x80 + c % 64 - 0x80)
          ≡ c =
        omega arith in
      lead_of_three _ _ (omega arith) (omega arith)
      ∙ inner_byte _ _ _ _ _ (ground arith) (ground arith) 0
      ∙ last_byte _ _ _ _ _ (omega arith) (omega arith)
      ∙ ap (λ n. prepend n (chars_from 0 0 0 0 bs)) same

  four_bytes :
      0x10000 ≤ c
      → c < 0x110000
      → Decodes (
          (0xf0 + c / 262144)
          ∷ (0x80 + c / 4096 % 64)
          ∷ (0x80 + c / 64 % 64)
          ∷ (0x80 + c % 64)
          ∷ [])
  four_bytes h k =
      let same : (((0xf0 + c / 262144 - 0xf0) * 64 + (0x80 + c / 4096 % 64 - 0x80)) * 64
                + (0x80 + c / 64 % 64 - 0x80))
              * 64
            + (0x80 + c % 64 - 0x80)
          ≡ c =
        omega arith in
      lead_of_four _ _ (omega arith) (omega arith)
      ∙ inner_byte _ _ _ _ _ (ground arith) (ground arith) 1
      ∙ inner_byte _ _ _ _ _ (omega arith) (omega arith) 0
      ∙ last_byte _ _ _ _ _ (omega arith) (omega arith)
      ∙ ap (λ n. prepend n (chars_from 0 0 0 0 bs)) same

  chars_from-utf8_char :
      IsScalar c → chars_from 0 0 0 0 (utf8_char c ++ bs) ≡ prepend c (chars_from 0 0 0 0 bs)
  unfolding utf8_char
  chars_from-utf8_char scalar = elim (Bool-cases (ltb c 0x80)) [
    | inl e ↦ rw e (ascii_byte c bs (ground arith))
    | inr e ↦ elim (Bool-cases (ltb c 0x800)) [
      | inl k ↦ rw (e, k) (two_bytes (ground arith) (ground arith))
      | inr k ↦ elim (Bool-cases (ltb c 0x10000)) [
        | inl l ↦ rw (e, k, l) (three_bytes (ground arith) (ground arith) (ground arith))
        | inr l ↦ rw (e, k, l) (four_bytes (ground arith) (ground arith))
      ]
    ]
  ]

pub from_utf8-utf8 : (s : Str) → All IsScalar s → from_utf8 (utf8 s) ≡ some s
unfolding from_utf8 utf8 prepend
from_utf8-utf8 [] h = refl
from_utf8-utf8 (c ∷ s) h = rw (chars_from-utf8_char c (utf8 s) h.0, from_utf8-utf8 s h.1) refl
