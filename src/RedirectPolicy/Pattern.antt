-- ===== src/RedirectPolicy/Pattern.antt =====
-- `normalize_host` and `matches_host_pattern` of redirect_policy.rs.
pub mod Matches
use beanstream.Prelude.{
  ℕ, zero, suc, ◌+◌, ◌-◌, ◌*◌, ◌/◌, ◌%◌, ◌^◌, ◌≤◌, ◌<◌, min, max, code, String, ◌≡◌, refl, sym, ap,
  subst, ◌∙◌, ◌≢◌, ◌↔◌, ◌⊎◌, inl, inr, Bool, true, false, not, ◌&&◌, ◌||◌, Option, none, some, List,
  [], ◌∷◌, ◌++◌, map, reverse, arith, ltb, leb, ◌==◌, if◌then◌else◌, between, ==_iff, Bool-cases,
  Option-cases, length, any, all, find, keep, length-append, any-append, all-append, All, all_iff,
  All-keep, keep_of_All, keep_idempotent, All-append, All-map,
}
use beanstream.Text.{
  Str, codes, str_eq, trim, trim_start_matches, trim_end_matches, to_ascii_lowercase, strip_prefix,
  strip_suffix, starts_with, ends_with, is_some,
}

unfoldable pub normalize_host : Str → Str
normalize_host host = to_ascii_lowercase (
    trim_end_matches (λ c. c == b'.')
      (trim_end_matches (λ c. c == b']') (trim_start_matches (λ c. c == b'[') (trim host))))

-- `host == suffix || host.strip_suffix(&format!(".{suffix}")).is_some()`
unfoldable pub is_within_domain : Str → Str → Bool
is_within_domain suffix host = str_eq host suffix || is_some (strip_suffix (b'.' ∷ suffix) host)

-- The rule for a leading `*` that no dot follows.
unfoldable pub has_dotted_suffix : Str → Str → Bool
has_dotted_suffix suffix host =
    str_eq host suffix
    || elim (strip_suffix suffix host) [ none ↦ false | some prefix ↦ ends_with (codes ".") prefix ]

-- The rule for a trailing `.*`.
unfoldable pub has_dotted_prefix : Str → Str → Bool
has_dotted_prefix prefix host = str_eq host prefix || elim (strip_prefix prefix host) [
  | none ↦ false
  | some suffix ↦ starts_with (codes ".") suffix
]

-- The pattern and the host are normalised already.
unfoldable pub matches_normalized : Str → Str → Bool
unfolding is_within_domain has_dotted_suffix has_dotted_prefix
matches_normalized pattern host =
    if str_eq pattern (codes "*") then true else elim (strip_prefix (codes "*.") pattern) [
      | some suffix ↦ is_within_domain suffix host
      | none ↦ elim (strip_prefix (codes "*") pattern) [
        | some suffix ↦ has_dotted_suffix suffix host
        | none ↦ elim (strip_suffix (codes ".*") pattern) [
          | some prefix ↦ has_dotted_prefix prefix host
          | none ↦ str_eq pattern host
        ]
      ]
    ]

unfoldable pub matches_host_pattern : Str → Str → Bool
matches_host_pattern given_pattern given_host =
    let pattern = normalize_host given_pattern in
    let host = normalize_host given_host in matches_normalized pattern host
