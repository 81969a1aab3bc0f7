-- ===== src/Text/Utf8.antt =====
-- `String::from_utf8`: the text that bytes encode, or where they stop being UTF-8.
pub mod Encoded
pub mod Characters
pub mod Decoded
pub mod Errors
pub mod Lossy
use beanstream.Prelude.{
  ℕ, zero, suc, ◌+◌, ◌-◌, ◌*◌, ◌/◌, ◌%◌, ◌^◌, ◌≤◌, ◌<◌, min, max, code, String, ◌≡◌, refl, sym, ap,
  subst, ◌∙◌, ◌≢◌, ◌↔◌, ◌⊎◌, inl, inr, Bool, true, false, not, ◌&&◌, ◌||◌, Option, none, some, List,
  [], ◌∷◌, ◌++◌, map, reverse, arith, ltb, leb, ◌==◌, if◌then◌else◌, between, ==_iff, Bool-cases,
  Option-cases, length, any, all, find, keep, length-append, any-append, all-append, All, all_iff,
  All-keep, keep_of_All, keep_idempotent, All-append, All-map,
}
use beanstream.Text.{Str, codes, utf8_char, utf8}

-- `char`: a code point that is no surrogate.
abbrev pub IsScalar : ℕ → Type 0
IsScalar c = (c < 0xd800) ⊎ ((0xdfff < c) × (c < 0x110000))

pub prepend : ℕ → Option Str → Option Str
prepend c none = none
prepend c (some s) = some (c ∷ s)

-- The text of the bytes where so many continuation bytes are missing: the bits so far, and the range
-- in which the next byte must lie.
pub chars_from : ℕ → ℕ → ℕ → ℕ → List ℕ → Option Str
unfolding prepend
chars_from zero bits lo hi [] = some []
chars_from (suc missing) bits lo hi [] = none
chars_from zero bits lo hi (b ∷ bs) =
    let one = chars_from 0 0 0 0 bs in
    let two = chars_from 1 (b - 0xc0) 0x80 0xbf bs in
    let three =
      chars_from 2 (b - 0xe0) (if b == 0xe0 then 0xa0 else 0x80) (if b == 0xed then 0x9f else 0xbf)
        bs in
    let four =
      chars_from 3 (b - 0xf0) (if b == 0xf0 then 0x90 else 0x80) (if b == 0xf4 then 0x8f else 0xbf)
        bs in
    if ltb b 0x80
    then prepend b one
    else if between 0xc2 0xdf b
    then two
    else if between 0xe0 0xef b
    then three
    else if between 0xf0 0xf4 b
    then four
    else none
chars_from (suc zero) bits lo hi (b ∷ bs) =
    let rest = chars_from 0 0 0 0 bs in
    if between lo hi b then prepend (bits * 64 + (b - 0x80)) rest else none
chars_from (suc (suc missing)) bits lo hi (b ∷ bs) =
    let rest = chars_from (suc missing) (bits * 64 + (b - 0x80)) 0x80 0xbf bs in
    if between lo hi b then rest else none

unfoldable pub from_utf8 : List ℕ → Option Str
unfolding chars_from
from_utf8 bytes = chars_from 0 0 0 0 bytes

tests :
    (from_utf8 (utf8 (0x41 ∷ 0xe9 ∷ 0x20ac ∷ 0x1f600 ∷ []))
      ≡ some (0x41 ∷ 0xe9 ∷ 0x20ac ∷ 0x1f600 ∷ []))
    × (from_utf8 (0xed ∷ 0xa0 ∷ 0x80 ∷ []) ≡ none)
    × (from_utf8 (0xc0 ∷ 0x2e ∷ []) ≡ none)
unfolding utf8 from_utf8
tests = (refl, refl, refl)
