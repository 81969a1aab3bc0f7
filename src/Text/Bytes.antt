-- ===== src/Text/Bytes.antt =====
-- UTF-8: the bytes of a `str`, and `String::from_utf8_lossy`, which puts U+FFFD in place of each
-- maximal part that is not well formed.
use beanstream.Prelude.{
  ℕ, ◌+◌, ◌-◌, ◌*◌, ◌/◌, ◌%◌, ◌≡◌, refl, List, [], ◌∷◌, ◌++◌, ltb, ◌==◌, if◌then◌else◌, between,
}

unfoldable pub utf8_char : ℕ → List ℕ
utf8_char c =
    if ltb c 0x80
    then c ∷ []
    else if ltb c 0x800
    then (0xc0 + c / 64) ∷ (0x80 + c % 64) ∷ []
    else if ltb c 0x10000
    then (0xe0 + c / 4096) ∷ (0x80 + c / 64 % 64) ∷ (0x80 + c % 64) ∷ []
    else (0xf0 + c / 262144) ∷ (0x80 + c / 4096 % 64) ∷ (0x80 + c / 64 % 64) ∷ (0x80 + c % 64) ∷ []

unfoldable pub utf8 : List ℕ → List ℕ
unfolding utf8_char
utf8 [] = []
utf8 (c ∷ s) = utf8_char c ++ utf8 s

-- The decoder between two bytes: how many continuation bytes are missing, the bits so far, and the
-- range in which the next byte must lie.
pub record Decoder : Type 0 where
  pub missing : ℕ
  pub bits : ℕ
  pub lo : ℕ
  pub hi : ℕ

abbrev pub idle : Decoder
idle = record { missing = 0; bits = 0; lo = 0x80; hi = 0xbf }

abbrev pub expecting : ℕ → ℕ → ℕ → ℕ → Decoder
expecting missing bits lo hi = record { missing = missing; bits = bits; lo = lo; hi = hi }

-- A byte where a character may begin.
unfoldable pub first_byte : ℕ → List ℕ × Decoder
first_byte b =
    if ltb b 0x80
    then (b ∷ [], idle)
    else if between 0xc2 0xdf b
    then ([], expecting 1 (b - 0xc0) 0x80 0xbf)
    else if between 0xe0 0xef b
    then (
      [],
      expecting 2 (b - 0xe0) (if b == 0xe0 then 0xa0 else 0x80) (if b == 0xed then 0x9f else 0xbf),
    )
    else if between 0xf0 0xf4 b
    then (
      [],
      expecting 3 (b - 0xf0) (if b == 0xf0 then 0x90 else 0x80) (if b == 0xf4 then 0x8f else 0xbf),
    )
    else (0xfffd ∷ [], idle)

-- A continuation byte ends or continues the character; any other begins anew after U+FFFD.
unfoldable pub next_byte : Decoder → ℕ → List ℕ × Decoder
unfolding first_byte
next_byte d b =
    if d.missing == 0
    then first_byte b
    else if between d.lo d.hi b
    then (let bits = d.bits * 64 + (b - 0x80) in
        if d.missing == 1
        then (bits ∷ [], idle)
        else ([], expecting (d.missing - 1) bits 0x80 0xbf))
    else (let (out, d') = first_byte b in (0xfffd ∷ out, d'))

unfoldable pub decode_from : Decoder → List ℕ → List ℕ
unfolding next_byte
decode_from d [] = if d.missing == 0 then [] else 0xfffd ∷ []
decode_from d (b ∷ bs) = (next_byte d b).0 ++ decode_from (next_byte d b).1 bs

unfoldable pub from_utf8_lossy : List ℕ → List ℕ
unfolding decode_from
from_utf8_lossy = decode_from idle

-- Text survives its own encoding; a surrogate, an overlong form and a cut character do not.
lossy_tests :
    (from_utf8_lossy (utf8 (0x41 ∷ 0xe9 ∷ 0x20ac ∷ 0x1f600 ∷ []))
      ≡ 0x41 ∷ 0xe9 ∷ 0x20ac ∷ 0x1f600 ∷ [])
    × (from_utf8_lossy (0xed ∷ 0xa0 ∷ 0x80 ∷ []) ≡ 0xfffd ∷ 0xfffd ∷ 0xfffd ∷ [])
    × (from_utf8_lossy (0xc0 ∷ 0x2e ∷ []) ≡ 0xfffd ∷ 0x2e ∷ [])
    × (from_utf8_lossy (0xf0 ∷ 0x9f ∷ 0x98 ∷ 0x2e ∷ []) ≡ 0xfffd ∷ 0x2e ∷ [])
unfolding utf8 from_utf8_lossy
lossy_tests = (refl, refl, refl, refl)
