-- ===== src/Text.antt =====
-- Rust's text: a `str` is the list of its code points. The methods of std that the source calls.
mod Bytes
pub mod Laws
pub mod Utf8
use beanstream.Prelude.{
  ℕ, zero, suc, ◌+◌, ◌-◌, ◌*◌, ◌/◌, ◌%◌, ◌^◌, ◌≤◌, ◌<◌, min, max, code, String, ◌≡◌, refl, sym, ap,
  subst, ◌∙◌, ◌≢◌, ◌↔◌, ◌⊎◌, inl, inr, Bool, true, false, not, ◌&&◌, ◌||◌, Option, none, some, List,
  [], ◌∷◌, ◌++◌, map, reverse, arith, ltb, leb, ◌==◌, if◌then◌else◌, between, ==_iff, Bool-cases,
  Option-cases, length, any, all, find, keep, length-append, any-append, all-append, All, all_iff,
  All-keep, keep_of_All, keep_idempotent, All-append, All-map,
}
unfoldable pub use Bytes.{utf8, utf8_char, from_utf8_lossy}

abbrev pub Str : Type 0
Str = List ℕ

-- A literal of the source. `String` has its own `[]` and `∷`.
abbrev pub codes : String → Str
codes String.[] = []
codes (String.◌∷◌ c s) = code c ∷ codes s

unfoldable pub str_eq : Str → Str → Bool
str_eq [] [] = true
str_eq [] (b ∷ bs) = false
str_eq (a ∷ as') [] = false
str_eq (a ∷ as') (b ∷ bs) = a == b && str_eq as' bs

-- `str::len`: the length in bytes
unfoldable pub byte_len : Str → ℕ
byte_len [] = 0
byte_len (c ∷ cs) = length (utf8_char c) + byte_len cs

unfoldable pub is_ascii_upper : ℕ → Bool
is_ascii_upper c = between b'A' b'Z' c

-- `u8::to_ascii_lowercase`
unfoldable pub lower_char : ℕ → ℕ
unfolding is_ascii_upper
lower_char c = if is_ascii_upper c then c + 32 else c

unfoldable pub to_ascii_lowercase : Str → Str
to_ascii_lowercase = map lower_char

unfoldable pub upper_char : ℕ → ℕ
upper_char c = if between b'a' b'z' c then c - 32 else c

unfoldable pub to_ascii_uppercase : Str → Str
to_ascii_uppercase = map upper_char

unfoldable pub eq_ignore_ascii_case : Str → Str → Bool
eq_ignore_ascii_case s t = str_eq (to_ascii_lowercase s) (to_ascii_lowercase t)

unfoldable pub is_ascii_digit : ℕ → Bool
is_ascii_digit c = between b'0' b'9' c

unfoldable pub is_ascii_alphanumeric : ℕ → Bool
unfolding is_ascii_digit is_ascii_upper
is_ascii_alphanumeric c = is_ascii_digit c || is_ascii_upper c || between b'a' b'z' c

unfoldable pub is_ascii_hexdigit : ℕ → Bool
unfolding is_ascii_digit
is_ascii_hexdigit c = is_ascii_digit c || between b'A' b'F' c || between b'a' b'f' c

-- `char::is_control`: the general category Cc
unfoldable pub is_control : ℕ → Bool
is_control c = ltb c 32 || between 127 159 c

-- `char::is_whitespace`: the property White_Space
unfoldable pub is_whitespace : ℕ → Bool
is_whitespace c =
    between 9 13 c
    || c == 32
    || c == 0x85
    || c == 0xa0
    || c == 0x1680
    || between 0x2000 0x200a c
    || c == 0x2028
    || c == 0x2029
    || c == 0x202f
    || c == 0x205f
    || c == 0x3000

-- `trim_start_matches` for one character, given as a test
unfoldable pub trim_start_matches : (ℕ → Bool) → Str → Str
trim_start_matches p [] = []
trim_start_matches p (c ∷ s) = if p c then trim_start_matches p s else c ∷ s

unfoldable pub trim_end_matches : (ℕ → Bool) → Str → Str
unfolding trim_start_matches
trim_end_matches p s = reverse (trim_start_matches p (reverse s))

unfoldable pub trim : Str → Str
trim s = trim_end_matches is_whitespace (trim_start_matches is_whitespace s)

unfoldable pub strip_prefix : Str → Str → Option Str
strip_prefix [] s = some s
strip_prefix (p ∷ ps) [] = none
strip_prefix (p ∷ ps) (c ∷ s) = if p == c then strip_prefix ps s else none

abbrev pub is_some {ℓ} : {A : Type ℓ} → Option A → Bool
is_some none = false
is_some (some a) = true

unfoldable pub starts_with : Str → Str → Bool
starts_with p s = is_some (strip_prefix p s)

-- `strip_suffix`: what stands before the suffix
unfoldable pub strip_suffix : Str → Str → Option Str
strip_suffix p s = elim (strip_prefix (reverse p) (reverse s)) [
  | none ↦ none
  | some rest ↦ some (reverse rest)
]

unfoldable pub ends_with : Str → Str → Bool
ends_with p s = starts_with (reverse p) (reverse s)

-- `s.contains(needle)`
unfoldable pub contains : Str → Str → Bool
contains needle [] = starts_with needle []
contains needle (c ∷ s) = starts_with needle (c ∷ s) || contains needle s

-- `split(sep)` for one character: at least one piece, and one more for each separator
cons_piece : Bool → ℕ → List Str → List Str
cons_piece true c pieces = [] ∷ pieces
cons_piece false c [] = (c ∷ []) ∷ []
cons_piece false c (piece ∷ pieces) = (c ∷ piece) ∷ pieces

unfoldable pub split : ℕ → Str → List Str
unfolding cons_piece
split sep [] = [] ∷ []
split sep (c ∷ s) = cons_piece (c == sep) c (split sep s)
