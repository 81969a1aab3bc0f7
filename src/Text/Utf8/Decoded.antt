-- ===== src/Text/Utf8/Decoded.antt =====
-- What `from_utf8` accepts is the encoding of what it returns.
use beanstream.Prelude.{
  ℕ, zero, suc, ◌+◌, ◌-◌, ◌*◌, ◌≤◌, ◌<◌, ◌≡◌, refl, inl, inr, Option, none, some, List, [], ◌∷◌,
  ◌++◌, arith, ltb, ◌==◌, if◌then◌else◌, between, Bool-cases, length, All,
}
use beanstream.Text.{Str, utf8_char, utf8}
use beanstream.Text.Utf8.Characters.{two_encoded, three_encoded, four_encoded}
use beanstream.Text.Utf8.{IsScalar, prepend, chars_from, from_utf8}

-- Inversion, a byte at a time.
prepend-eq-some :
    (c : ℕ) (o : Option Str) (s : Str)
    → prepend c o ≡ some s
    → (t : Str) × (s ≡ c ∷ t) × (o ≡ some t)
unfolding prepend
prepend-eq-some c none s h = absurd (cc h)
prepend-eq-some c (some t) s h = (t, cc, refl)

last_byte_of :
    (bits lo hi : ℕ) (bs : List ℕ) (s : Str)
    → chars_from 1 bits lo hi bs ≡ some s
    → (b : ℕ) × (rest : List ℕ) × (t : Str) × (bs ≡ b ∷ rest)
      × (lo ≤ b)
      × (b ≤ hi)
      × (s ≡ (bits * 64 + (b - 0x80)) ∷ t)
      × (chars_from 0 0 0 0 rest ≡ some t)
unfolding chars_from
last_byte_of bits lo hi [] s h = absurd (cc h)
last_byte_of bits lo hi (b ∷ bs) s h = elim (Bool-cases (between lo hi b)) [
  | inl e ↦
      let (t, k, l) =
        prepend-eq-some (bits * 64 + (b - 0x80)) (chars_from 0 0 0 0 bs) s (ground arith) in
      (b, bs, t, refl, ground arith, ground arith, k, l)
  | inr e ↦ absurd (ground arith)
]

inner_byte_of :
    (missing bits lo hi : ℕ) (bs : List ℕ) (s : Str)
    → chars_from (suc (suc missing)) bits lo hi bs ≡ some s
    → (b : ℕ) × (rest : List ℕ) × (bs ≡ b ∷ rest)
      × (lo ≤ b)
      × (b ≤ hi)
      × (chars_from (suc missing) (bits * 64 + (b - 0x80)) 0x80 0xbf rest ≡ some s)
unfolding chars_from
inner_byte_of missing bits lo hi [] s h = absurd (cc h)
inner_byte_of missing bits lo hi (b ∷ bs) s h = elim (Bool-cases (between lo hi b)) [
  | inl e ↦ (b, bs, refl, ground arith, ground arith, ground arith)
  | inr e ↦ absurd (ground arith)
]

-- The bytes are those of a first character and those of the rest of the text.
record StartsText (bytes : List ℕ) (s : Str) : Type 0 where
  first : ℕ
  rest : List ℕ
  tail : Str
  scalar : IsScalar first
  encoded : bytes ≡ utf8_char first ++ rest
  whole : s ≡ first ∷ tail
  decoded : chars_from 0 0 0 0 rest ≡ some tail
  shorter : length rest < length bytes

from_two :
    (a : ℕ) (bs : List ℕ) (s : Str)
    → 0xc2 ≤ a
    → a ≤ 0xdf
    → chars_from 1 (a - 0xc0) 0x80 0xbf bs ≡ some s
    → StartsText (a ∷ bs) s
from_two a bs s h k e =
    let (b, rest, t, same, lo, hi, whole, decoded) = last_byte_of (a - 0xc0) 0x80 0xbf bs s e in
    record {
      first = (a - 0xc0) * 64 + (b - 0x80);
      rest = rest;
      tail = t;
      scalar = inl (omega arith);
      encoded = rw (two_encoded a b h k lo hi, same) refl;
      whole = whole;
      decoded = decoded;
      shorter = rw same (omega arith);
    }

from_three :
    (a : ℕ) (bs : List ℕ) (s : Str)
    → 0xe0 ≤ a
    → a ≤ 0xef
    → chars_from 2
        (a - 0xe0)
        (if a == 0xe0 then 0xa0 else 0x80)
        (if a == 0xed then 0x9f else 0xbf)
        bs
      ≡ some s
    → StartsText (a ∷ bs) s
from_three a bs s h k e =
    let (b, bs', same, lo, hi, e1) = inner_byte_of 0 (a - 0xe0) _ _ bs s e in
    let (d, rest, t, same', lo', hi', whole, decoded) = last_byte_of _ 0x80 0xbf bs' s e1 in
    let (encoded, scalar) = three_encoded a b d h k lo hi lo' hi' in
    record {
      first = ((a - 0xe0) * 64 + (b - 0x80)) * 64 + (d - 0x80);
      rest = rest;
      tail = t;
      scalar = scalar;
      encoded = rw (encoded, same, same') refl;
      whole = whole;
      decoded = decoded;
      shorter = rw (same, same') (omega arith);
    }

from_four :
    (a : ℕ) (bs : List ℕ) (s : Str)
    → 0xf0 ≤ a
    → a ≤ 0xf4
    → chars_from 3
        (a - 0xf0)
        (if a == 0xf0 then 0x90 else 0x80)
        (if a == 0xf4 then 0x8f else 0xbf)
        bs
      ≡ some s
    → StartsText (a ∷ bs) s
from_four a bs s h k e =
    let (b, bs', same, lo, hi, e1) = inner_byte_of 1 (a - 0xf0) _ _ bs s e in
    let (d, bs'', same', lo', hi', e2) = inner_byte_of 0 _ 0x80 0xbf bs' s e1 in
    let (f, rest, t, same'', lo'', hi'', whole, decoded) = last_byte_of _ 0x80 0xbf bs'' s e2 in
    let (encoded, scalar) = four_encoded a b d f h k lo hi lo' hi' lo'' hi'' in
    record {
      first = (((a - 0xf0) * 64 + (b - 0x80)) * 64 + (d - 0x80)) * 64 + (f - 0x80);
      rest = rest;
      tail = t;
      scalar = scalar;
      encoded = rw (encoded, same, same', same'') refl;
      whole = whole;
      decoded = decoded;
      shorter = rw (same, same', same'') (omega arith);
    }

first_character :
    (a : ℕ) (bs : List ℕ) (s : Str) → chars_from 0 0 0 0 (a ∷ bs) ≡ some s → StartsText (a ∷ bs) s
unfolding chars_from utf8_char
first_character a bs s h = elim (Bool-cases (ltb a 0x80)) [
  | inl one ↦
      let (t, whole, decoded) = prepend-eq-some a (chars_from 0 0 0 0 bs) s (rw one at h) in
      record {
        first = a;
        rest = bs;
        tail = t;
        scalar = inl (ground arith);
        encoded = ground arith;
        whole = whole;
        decoded = decoded;
        shorter = omega arith;
      }
  | inr not_one ↦ elim (Bool-cases (between 0xc2 0xdf a)) [
    | inl two ↦ from_two a bs s (ground arith) (ground arith) (rw (not_one, two) at h)
    | inr not_two ↦ elim (Bool-cases (between 0xe0 0xef a)) [
      | inl three ↦
          from_three a bs s (ground arith) (ground arith) (rw (not_one, not_two, three) at h)
      | inr not_three ↦ elim (Bool-cases (between 0xf0 0xf4 a)) [
        | inl four ↦
            from_four a bs s (ground arith) (ground arith)
              (rw (not_one, not_two, not_three, four) at h)
        | inr not_four ↦
            let stuck : none ≡ some s = rw (not_one, not_two, not_three, not_four) at h in
            absurd (cc stuck)
      ]
    ]
  ]
]

decoded_within :
    (n : ℕ) (bytes : List ℕ) (s : Str)
    → length bytes ≤ n
    → chars_from 0 0 0 0 bytes ≡ some s
    → (utf8 s ≡ bytes) × All IsScalar s
unfolding chars_from utf8
decoded_within n [] s bound h = let empty : s ≡ [] = cc in rw empty (refl, tt)
decoded_within zero (a ∷ bs) s bound h = absurd (omega arith)
decoded_within (suc n) (a ∷ bs) s bound h =
    let c = first_character a bs s h in
    let shorter = c.shorter in
    let (tail_encoded, scalars) =
      decoded_within n c.rest c.tail (omega (arith, shorter)) c.decoded in
    (rw (c.whole, c.encoded, tail_encoded) refl, rw c.whole (c.scalar, scalars))

pub from_utf8-eq-some :
    (bytes : List ℕ) (s : Str) → from_utf8 bytes ≡ some s → (utf8 s ≡ bytes) × All IsScalar s
unfolding from_utf8
from_utf8-eq-some bytes s h = decoded_within (length bytes) bytes s (omega arith) h
