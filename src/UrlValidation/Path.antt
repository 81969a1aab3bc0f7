-- ===== src/UrlValidation/Path.antt =====
-- The path checks of url_validation.rs, on the raw URL and on the parsed path.
pub mod Raw
pub mod Escaped
use beanstream.Prelude.{
  ℕ, zero, suc, ◌+◌, ◌-◌, ◌*◌, ◌/◌, ◌%◌, ◌^◌, ◌≤◌, ◌<◌, min, max, code, String, ◌≡◌, refl, sym, ap,
  subst, ◌∙◌, ◌≢◌, ◌↔◌, ◌⊎◌, inl, inr, Bool, true, false, not, ◌&&◌, ◌||◌, Option, none, some, List,
  [], ◌∷◌, ◌++◌, map, reverse, arith, ltb, leb, ◌==◌, if◌then◌else◌, between, ==_iff, Bool-cases,
  Option-cases, length, any, all, find, keep, length-append, any-append, all-append, All, all_iff,
  All-keep, keep_of_All, keep_idempotent, All-append, All-map,
}
use beanstream.Text.{
  Str, codes, utf8, from_utf8_lossy, is_ascii_hexdigit, to_ascii_lowercase, contains, strip_prefix,
}
use beanstream.Error.{Result, ok, err, url_error, lit}

-- `u8::from_str_radix(_, 16)` of one digit
hex_value : ℕ → ℕ
hex_value c =
    if between b'0' b'9' c then c - b'0' else if between b'A' b'F' c then c - 55 else c - 87

is_escape : ℕ → ℕ → ℕ → Bool
is_escape c h l = c == b'%' && is_ascii_hexdigit h && is_ascii_hexdigit l

-- One pass over the bytes: what it pushes to `decoded`, and `changed`.
unfoldable pub decode_round : List ℕ → List ℕ × Bool
unfolding is_escape hex_value is_ascii_hexdigit
decode_round [] = ([], false)
decode_round (c ∷ []) = (c ∷ [], false)
decode_round (c ∷ d ∷ []) = (c ∷ d ∷ [], false)
decode_round (c ∷ h ∷ l ∷ rest) =
    let after = decode_round rest in
    let kept = decode_round (h ∷ l ∷ rest) in
    if is_escape c h l
    then ((hex_value h * 16 + hex_value l) ∷ after.0, true)
    else (c ∷ kept.0, kept.1)

abbrev pub max_rounds : ℕ
max_rounds = 5

unfoldable pub decode_rounds : ℕ → Str → Str
decode_rounds zero current = current
decode_rounds (suc n) current =
    let round = decode_round (utf8 current) in
    let later = decode_rounds n (from_utf8_lossy round.0) in if round.1 then later else current

unfoldable pub decode_percent_encoded : Str → Str
unfolding decode_rounds decode_round
decode_percent_encoded value = decode_rounds max_rounds value

-- `".."`, `"\\"`, `"%2f"`, `"%5c"`, `"%2e"`, `"%00"`, `"\0"` and `"//"`
abbrev pub dangerous_sequences : List Str
dangerous_sequences =
    codes ".."
    ∷ (92 ∷ [])
    ∷ codes "%2f"
    ∷ codes "%5c"
    ∷ codes "%2e"
    ∷ codes "%00"
    ∷ (0 ∷ [])
    ∷ codes "//"
    ∷ []

unfoldable pub candidate_is_dangerous : Str → Bool
candidate_is_dangerous candidate =
    let lower = to_ascii_lowercase candidate in
    any (λ sequence. contains sequence lower) dangerous_sequences

unfoldable pub path_has_dangerous_sequence : Str → Bool
unfolding decode_percent_encoded candidate_is_dangerous
path_has_dangerous_sequence path =
    any candidate_is_dangerous (path ∷ decode_percent_encoded path ∷ [])

pub record SanitizedPath : Type 0 where
  pub text : Str

unfoldable pub contains_dangerous_sequences : SanitizedPath → Bool
contains_dangerous_sequences path = path_has_dangerous_sequence path.text

unfoldable pub validate_path : SanitizedPath → Result (Unit {0})
unfolding contains_dangerous_sequences
validate_path path =
    if contains_dangerous_sequences path
    then err (url_error (lit "URL path contains a dangerous sequence"))
    else ok tt

-- `split_once("://")`, the part behind it
unfoldable pub after_separator : Str → Option Str
after_separator [] = none
after_separator (c ∷ s) = elim (strip_prefix (codes "://") (c ∷ s)) [
  | some rest ↦ some rest
  | none ↦ after_separator s
]

unfoldable pub drop_until : (ℕ → Bool) → Str → Option Str
drop_until p [] = none
drop_until p (c ∷ s) = if p c then some (c ∷ s) else drop_until p s

unfoldable pub take_until : (ℕ → Bool) → Str → Str
take_until p [] = []
take_until p (c ∷ s) = if p c then [] else c ∷ take_until p s

-- The path in the raw text: from the first `/` behind the scheme to a `?`, a `#` or the end.
unfoldable pub raw_path : Str → Option Str
unfolding after_separator drop_until take_until strip_prefix
raw_path url =
    let after_scheme : Str = elim (after_separator url) [ none ↦ url | some rest ↦ rest ] in
    elim (drop_until (λ c. c == b'/') after_scheme) [
      | none ↦ none
      | some from_start ↦ some (take_until (λ c. c == b'?' || c == b'#') from_start)
    ]

unfoldable pub validate_raw_url_path : Str → Result (Unit {0})
unfolding raw_path
validate_raw_url_path url = elim (raw_path url) [
  | none ↦ ok tt
  | some path ↦
      if path_has_dangerous_sequence path
      then err (url_error (lit "URL path contains a dangerous sequence"))
      else ok tt
]
