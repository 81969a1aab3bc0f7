-- ===== src/Text/Utf8/Lossy.antt =====
-- `from_utf8_lossy` on bytes that are UTF-8.
use beanstream.Prelude.{
  ℕ, zero, suc, ◌+◌, ◌-◌, ◌*◌, ◌≡◌, refl, ◌∙◌, inl, inr, true, false, Option, none, some, List, [],
  ◌∷◌, arith, ltb, ◌==◌, between, Bool-cases, All,
}
use beanstream.Text.{Str, utf8, from_utf8_lossy}
use beanstream.Text.Bytes.{expecting, next_byte, decode_from}
use beanstream.Text.Utf8.{IsScalar, prepend, chars_from, from_utf8}
use beanstream.Text.Utf8.Encoded.{from_utf8-utf8}

prepend-eq-some :
    (c : ℕ) (o : Option Str) (s : Str)
    → prepend c o ≡ some s
    → (t : Str) × (s ≡ c ∷ t) × (o ≡ some t)
unfolding prepend
prepend-eq-some c none s h = absurd (cc h)
prepend-eq-some c (some t) s h = (t, cc, refl)

-- At the start of a character nothing else counts.
chars_from-zero :
    (bits lo hi : ℕ) (bs : List ℕ) → chars_from 0 bits lo hi bs ≡ chars_from 0 0 0 0 bs
unfolding chars_from
chars_from-zero bits lo hi [] = refl
chars_from-zero bits lo hi (b ∷ bs) = refl

ne_zero : (m : ℕ) → (suc (suc m) == 0) ≡ false
ne_zero m = ground arith

ne_one : (m : ℕ) → (suc (suc m) == 1) ≡ false
ne_one m = ground arith

less_one : (m : ℕ) → suc (suc m) - 1 ≡ suc m
less_one m = omega arith

-- A continuation byte that is not the last one.
next_byte-between :
    (m bits lo hi b : ℕ)
    → between lo hi b ≡ true
    → next_byte (expecting (suc (suc m)) bits lo hi) b
      ≡ ([], expecting (suc m) (bits * 64 + (b - 0x80)) 0x80 0xbf)
unfolding next_byte
next_byte-between m bits lo hi b e = simp (e, ne_zero m, ne_one m, less_one m) refl

-- Where the strict decoder succeeds, the lossy one gives the same text.
decode_from-chars_from :
    (missing bits lo hi : ℕ) (bs : List ℕ) (s : Str)
    → chars_from missing bits lo hi bs ≡ some s
    → decode_from (expecting missing bits lo hi) bs ≡ s
unfolding chars_from decode_from
decode_from-chars_from zero bits lo hi [] s h = cc
decode_from-chars_from (suc missing) bits lo hi [] s h = absurd (cc h)
decode_from-chars_from (suc zero) bits lo hi (b ∷ bs) s h = elim (Bool-cases (between lo hi b)) [
  | inl e ↦
      let (t, whole, decoded) =
        prepend-eq-some (bits * 64 + (b - 0x80)) (chars_from 0 0 0 0 bs) s (rw e at h) in
      let rest =
        decode_from-chars_from 0 0 0x80 0xbf bs t (chars_from-zero 0 0x80 0xbf bs ∙ decoded) in
      rw (e, rest, whole) refl
  | inr e ↦ absurd (cc (rw e at h))
]
decode_from-chars_from (suc (suc missing)) bits lo hi (b ∷ bs) s h =
    elim (Bool-cases (between lo hi b)) [
      | inl e ↦
          let rest =
            decode_from-chars_from (suc missing) (bits * 64 + (b - 0x80)) 0x80 0xbf bs s
              (rw e at h) in
          rw (next_byte-between missing bits lo hi b e) rest
      | inr e ↦ absurd (cc (rw e at h))
    ]
decode_from-chars_from zero bits lo hi (b ∷ bs) s h = elim (Bool-cases (ltb b 0x80)) [
  | inl one ↦
      let (t, whole, decoded) = prepend-eq-some b (chars_from 0 0 0 0 bs) s (rw one at h) in
      let rest =
        decode_from-chars_from 0 0 0x80 0xbf bs t (chars_from-zero 0 0x80 0xbf bs ∙ decoded) in
      rw (one, rest, whole) refl
  | inr not_one ↦ elim (Bool-cases (between 0xc2 0xdf b)) [
    | inl two ↦
        let rest = decode_from-chars_from 1 (b - 0xc0) 0x80 0xbf bs s (rw (not_one, two) at h) in
        rw (not_one, two) rest
    | inr not_two ↦ elim (Bool-cases (between 0xe0 0xef b)) [
      | inl three ↦
          let rest =
            decode_from-chars_from 2 (b - 0xe0) _ _ bs s (rw (not_one, not_two, three) at h) in
          rw (not_one, not_two, three) rest
      | inr not_three ↦ elim (Bool-cases (between 0xf0 0xf4 b)) [
        | inl four ↦
            let rest =
              decode_from-chars_from 3 (b - 0xf0) _ _ bs s
                (rw (not_one, not_two, not_three, four) at h) in
            rw (not_one, not_two, not_three, four) rest
        | inr not_four ↦ absurd (cc (rw (not_one, not_two, not_three, not_four) at h))
      ]
    ]
  ]
]

pub from_utf8_lossy-utf8 : (s : Str) → All IsScalar s → from_utf8_lossy (utf8 s) ≡ s
unfolding from_utf8 from_utf8_lossy
from_utf8_lossy-utf8 s h =
    decode_from-chars_from 0 0 0x80 0xbf (utf8 s) s
      (chars_from-zero 0 0x80 0xbf (utf8 s) ∙ from_utf8-utf8 s h)
