-- ===== src/Cache/MaxAge.antt =====
-- `parse_max_age` of cache.rs.
use beanstream.Prelude.{
  ℕ, ◌+◌, ◌-◌, ◌*◌, ◌^◌, ◌≡◌, refl, ◌&&◌, Option, none, some, List, [], ◌∷◌, leb, ◌==◌,
  if◌then◌else◌,
}
use beanstream.Text.{
  Str, codes, split, trim, strip_prefix, is_ascii_digit, trim_end_matches, is_whitespace,
}

abbrev pub u64_max : ℕ
u64_max = 2 ^ 64 - 1

digits_from : ℕ → Str → Option ℕ
digits_from n [] = some n
digits_from n (c ∷ s) =
    let next = n * 10 + (c - b'0') in
    let rest = digits_from next s in if is_ascii_digit c && leb next u64_max then rest else none

-- `str::parse::<u64>`: an optional `+` and at least one digit, up to `u64::MAX`
unfoldable pub parse_u64 : Str → Option ℕ
unfolding digits_from is_ascii_digit
parse_u64 [] = none
parse_u64 (c ∷ []) = digits_from 0 (c ∷ [])
parse_u64 (c ∷ d ∷ s) = if c == b'+' then digits_from 0 (d ∷ s) else digits_from 0 (c ∷ d ∷ s)

max_age_of : List Str → Option ℕ
max_age_of [] = none
max_age_of (directive ∷ directives) =
    let rest = max_age_of directives in
    elim (strip_prefix (codes "max-age=") (trim directive)) [
      | none ↦ rest
      | some value ↦ elim (parse_u64 (trim value)) [ some seconds ↦ some seconds | none ↦ rest ]
    ]

unfoldable pub parse_max_age : Str → Option ℕ
unfolding max_age_of parse_u64
parse_max_age cache_control = max_age_of (split b',' cache_control)

max_age_tests :
    (parse_max_age (codes "public, max-age= 60 ,x") ≡ some 60)
    × (parse_max_age (codes "max-age=x, max-age=7") ≡ some 7)
    × (parse_max_age (codes "max-age=18446744073709551616") ≡ none)
    × (parse_max_age (codes "smax-age=1") ≡ none)
unfolding parse_max_age split trim strip_prefix trim_end_matches is_whitespace
max_age_tests = (refl, refl, refl, refl)
