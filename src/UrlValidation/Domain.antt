-- ===== src/UrlValidation/Domain.antt =====
-- `validate_domain` of url_validation.rs: the shape of a name, and the names that are refused.
pub mod Names
use beanstream.Prelude.{
  ℕ, zero, suc, ◌+◌, ◌-◌, ◌*◌, ◌/◌, ◌%◌, ◌^◌, ◌≤◌, ◌<◌, min, max, code, String, ◌≡◌, refl, sym, ap,
  subst, ◌∙◌, ◌≢◌, ◌↔◌, ◌⊎◌, inl, inr, Bool, true, false, not, ◌&&◌, ◌||◌, Option, none, some, List,
  [], ◌∷◌, ◌++◌, map, reverse, arith, ltb, leb, ◌==◌, if◌then◌else◌, between, ==_iff, Bool-cases,
  Option-cases, length, any, all, find, keep, length-append, any-append, all-append, All, all_iff,
  All-keep, keep_of_All, keep_idempotent, All-append, All-map,
}
use beanstream.Text.{
  Str, codes, byte_len, split, starts_with, ends_with, is_ascii_alphanumeric, to_ascii_lowercase,
  str_eq,
}
use beanstream.Error.{
  BeanStreamError, Result, ok, err, ◌>>=◌, ◌>>◌, refuse_if, invalid_host, private_network_access,
  lit, by_name,
}

-- `label.is_empty()`
abbrev is_empty : Str → Bool
is_empty [] = true
is_empty (c ∷ s) = false

unfoldable pub is_label_char : ℕ → Bool
is_label_char byte = is_ascii_alphanumeric byte || byte == b'-'

unfoldable pub validate_label : Str → Result (Unit {0})
unfolding is_label_char
validate_label label = do
  refuse_if (is_empty label || ltb 63 (byte_len label))
      (invalid_host (lit "Domain contains an invalid label"))
  refuse_if (starts_with (codes "-") label || ends_with (codes "-") label)
      (invalid_host (lit "Domain labels cannot start or end with '-'"))
  refuse_if (not (all is_label_char label))
      (invalid_host (lit "Domain contains invalid characters"))
  ok tt

unfoldable pub validate_labels : List Str → Result (Unit {0})
unfolding validate_label
validate_labels [] = ok tt
validate_labels (label ∷ labels) = let rest = validate_labels labels in validate_label label >> rest

unfoldable pub is_local_name : Str → Bool
is_local_name lower_domain =
    str_eq lower_domain (codes "localhost")
    || ends_with (codes ".localhost") lower_domain
    || ends_with (codes ".local") lower_domain
    || ends_with (codes ".internal") lower_domain

unfoldable pub validate_domain : Str → Result (Unit {0})
unfolding validate_labels is_local_name
validate_domain domain = do
  refuse_if (ltb 253 (byte_len domain)) (invalid_host (lit "Domain name is too long"))
  validate_labels (split b'.' domain)
  refuse_if (is_local_name (to_ascii_lowercase domain)) (private_network_access (by_name domain))
  ok tt
