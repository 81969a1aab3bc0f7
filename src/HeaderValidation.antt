-- ===== src/HeaderValidation.antt =====
-- header_validation.rs: the checks on one header and on a list, and what is kept from callers.
pub mod Laws
use beanstream.Prelude.{
  ℕ, zero, suc, ◌+◌, ◌-◌, ◌*◌, ◌/◌, ◌%◌, ◌^◌, ◌≤◌, ◌<◌, min, max, code, String, ◌≡◌, refl, sym, ap,
  subst, ◌∙◌, ◌≢◌, ◌↔◌, ◌⊎◌, inl, inr, Bool, true, false, not, ◌&&◌, ◌||◌, Option, none, some, List,
  [], ◌∷◌, ◌++◌, map, reverse, arith, ltb, leb, ◌==◌, if◌then◌else◌, between, ==_iff, Bool-cases,
  Option-cases, length, any, all, find, keep, length-append, any-append, all-append, All, all_iff,
  All-keep, keep_of_All, keep_idempotent, All-append, All-map,
}
use beanstream.Text.{
  Str, codes, trim, to_ascii_lowercase, eq_ignore_ascii_case, is_control, contains,
}
use beanstream.Error.{
  Result, ok, err, ◌>>=◌, ◌>>◌, refuse_if, header_error, header_injection_detected, lit,
}
use beanstream.Crates.{Crates}

abbrev pub Header : Type 0
Header = Str × Str

-- `is_empty()` of a name
abbrev pub is_empty : Str → Bool
is_empty [] = true
is_empty (c ∷ s) = false

-- `value.contains('\r') || value.contains('\n')`
unfoldable pub has_line_break : Str → Bool
has_line_break value = any (λ c. c == 13) value || any (λ c. c == 10) value

unfoldable pub has_control : Str → Bool
has_control value = any (λ c. is_control c && not (c == 9)) value

abbrev pub sensitive_names : List Str
sensitive_names =
    codes "authorization"
    ∷ codes "proxy-authorization"
    ∷ codes "cookie"
    ∷ codes "set-cookie"
    ∷ codes "x-auth-token"
    ∷ codes "x-api-key"
    ∷ codes "x-access-token"
    ∷ codes "authentication"
    ∷ codes "proxy-authenticate"
    ∷ codes "www-authenticate"
    ∷ []

unfoldable pub is_sensitive_header : Str → Bool
is_sensitive_header name = any (λ sensitive. eq_ignore_ascii_case name sensitive) sensitive_names

abbrev pub blocked_names : List Str
blocked_names =
    codes "host"
    ∷ codes "connection"
    ∷ codes "transfer-encoding"
    ∷ codes "content-length"
    ∷ codes "te"
    ∷ []

unfoldable pub is_blocked_header : Str → Bool
is_blocked_header name = any (λ blocked. eq_ignore_ascii_case name blocked) blocked_names

unfoldable pub redact_sensitive_headers : List Header → List Header
redact_sensitive_headers headers = keep (λ h. not (is_sensitive_header h.0)) headers

module _ (crates : Crates) where
  open crates use {header_name_ok, header_value_ok}

  unfoldable pub validate_header_name : Str → Result (Unit {0})
  validate_header_name given = do
    let name = trim given
    refuse_if (is_empty name) (header_error (lit "Header name cannot be empty"))
    refuse_if (not (header_name_ok name)) (header_error (lit "Invalid header name"))
    ok tt

  unfoldable pub validate_header_value : Str → Result (Unit {0})
  unfolding has_line_break has_control
  validate_header_value given = do
    let value = trim given
    refuse_if (has_line_break value) header_injection_detected
    refuse_if (has_control value) (header_error (lit "Header value contains control characters"))
    refuse_if (not (header_value_ok value)) (header_error (lit "Invalid header value"))
    ok tt

  unfoldable pub sanitize_header : Str → Str → Result Header
  sanitize_header name value = do
    let trimmed_name = trim name
    let trimmed_value = trim value
    validate_header_name trimmed_name
    validate_header_value trimmed_value
    ok (to_ascii_lowercase trimmed_name, trimmed_value)

  unfoldable pub validate_headers : List Header → Result (Unit {0})
  validate_headers [] = ok tt
  validate_headers ((name, value) ∷ headers) =
      let rest = validate_headers headers in
      validate_header_name name >> (validate_header_value value >> rest)
