-- ===== src/Text/Utf8/Errors.antt =====
-- `Utf8Error`: where bytes stop being UTF-8, and its text.
use beanstream.Prelude.{
  ℕ, zero, suc, ◌-◌, ◌≡◌, refl, Option, none, some, List, [], ◌∷◌, ◌++◌, ltb, ◌==◌, if◌then◌else◌,
  between,
}
use beanstream.Text.{Str, codes}
use beanstream.Net.Display.{show_decimal}

-- The length is that of the bytes that are wrong; it is absent where the bytes end too early.
pub record Utf8Error : Type 0 where
  pub valid_up_to : ℕ
  pub error_len : Option ℕ

-- As `chars_from`: how many continuation bytes are missing and the range of the next one, where the
-- character starts, and where the next byte stands. The result is absent where all is well.
find_error : ℕ → ℕ → ℕ → ℕ → ℕ → List ℕ → Option Utf8Error
find_error zero lo hi start index [] = none
find_error (suc missing) lo hi start index [] =
    some (record { valid_up_to = start; error_len = none })
find_error zero lo hi start index (b ∷ bs) =
    let one = find_error 0 0 0 (suc index) (suc index) bs in
    let two = find_error 1 0x80 0xbf index (suc index) bs in
    let three =
      find_error 2 (if b == 0xe0 then 0xa0 else 0x80) (if b == 0xed then 0x9f else 0xbf) index
        (suc index) bs in
    let four =
      find_error 3 (if b == 0xf0 then 0x90 else 0x80) (if b == 0xf4 then 0x8f else 0xbf) index
        (suc index) bs in
    if ltb b 0x80
    then one
    else if between 0xc2 0xdf b
    then two
    else if between 0xe0 0xef b
    then three
    else if between 0xf0 0xf4 b
    then four
    else some (record { valid_up_to = index; error_len = some 1 })
find_error (suc zero) lo hi start index (b ∷ bs) =
    let next = find_error 0 0 0 (suc index) (suc index) bs in
    if between lo hi b
    then next
    else some (record { valid_up_to = start; error_len = some (index - start) })
find_error (suc (suc missing)) lo hi start index (b ∷ bs) =
    let next = find_error (suc missing) 0x80 0xbf start (suc index) bs in
    if between lo hi b
    then next
    else some (record { valid_up_to = start; error_len = some (index - start) })

unfoldable pub utf8_error : List ℕ → Option Utf8Error
unfolding find_error
utf8_error bytes = find_error 0 0 0 0 0 bytes

-- `Display` of the error
unfoldable pub show_utf8_error : Utf8Error → Str
show_utf8_error e = elim e.error_len [
  | some len ↦
      codes "invalid utf-8 sequence of "
      ++ show_decimal len
      ++ codes " bytes from index "
      ++ show_decimal e.valid_up_to
  | none ↦ codes "incomplete utf-8 byte sequence from index " ++ show_decimal e.valid_up_to
]

-- A lone continuation byte, a surrogate, and a character that is cut.
tests :
    (utf8_error (0x41 ∷ 0x80 ∷ []) ≡ some (record { valid_up_to = 1; error_len = some 1 }))
    × (utf8_error (0x41 ∷ 0xed ∷ 0xa0 ∷ []) ≡ some (record { valid_up_to = 1; error_len = some 1 }))
    × (utf8_error (0xe2 ∷ 0x82 ∷ 0x41 ∷ []) ≡ some (record { valid_up_to = 0; error_len = some 2 }))
    × (utf8_error (0xe2 ∷ 0x82 ∷ []) ≡ some (record { valid_up_to = 0; error_len = none }))
    × (utf8_error (0xe2 ∷ 0x82 ∷ 0xac ∷ []) ≡ none)
unfolding utf8_error
tests = (refl, refl, refl, refl, refl)
