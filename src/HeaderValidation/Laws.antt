-- ===== src/HeaderValidation/Laws.antt =====
-- What the header checks establish.
use beanstream.Prelude.{
  ◌≡◌, refl, sym, subst, ◌↔◌, inl, inr, true, false, List, [], ◌∷◌, arith, All,
}
use beanstream.Text.{Str, trim, to_ascii_lowercase, eq_ignore_ascii_case}
use beanstream.Text.Laws.{trim_idempotent, to_ascii_lowercase_idempotent}
use beanstream.Error.{ok, Result-cases}
use beanstream.Crates.{Crates}
use beanstream.HeaderValidation.{
  Header, is_empty, has_line_break, has_control, is_sensitive_header, is_blocked_header,
  redact_sensitive_headers, validate_header_name, validate_header_value, sanitize_header,
}

-- Whether a header is sensitive, and whether it is forbidden, does not depend on the case of its
-- name.
is_sensitive_header-lowercase :
    (name : Str)
    → (is_sensitive_header (to_ascii_lowercase name) ≡ is_sensitive_header name)
      × (is_blocked_header (to_ascii_lowercase name) ≡ is_blocked_header name)
unfolding is_sensitive_header is_blocked_header eq_ignore_ascii_case
is_sensitive_header-lowercase name =
    (rw to_ascii_lowercase_idempotent refl, rw to_ascii_lowercase_idempotent refl)

abbrev pub IsPublic : Header → Type 0
IsPublic h = is_sensitive_header h.0 ≡ false

-- Redaction leaves no sensitive header, whatever the list.
pub redact_sensitive_headers-IsPublic :
    (headers : List Header) → All IsPublic (redact_sensitive_headers headers)
unfolding redact_sensitive_headers
redact_sensitive_headers-IsPublic [] = tt
redact_sensitive_headers-IsPublic (h ∷ headers) =
    ground (arith, redact_sensitive_headers-IsPublic headers)

-- Redaction drops nothing but sensitive headers: a list that has none is left as it is.
redact_sensitive_headers_of_All :
    (headers : List Header) → All IsPublic headers → redact_sensitive_headers headers ≡ headers
unfolding redact_sensitive_headers
redact_sensitive_headers_of_All [] h = refl
redact_sensitive_headers_of_All (x ∷ headers) h =
    ground (arith, redact_sensitive_headers_of_All headers h.1)

module _ (crates : Crates) where
  open crates use {header_name_ok, header_value_ok}

  -- The conditions on a value that is sent.
  pub record IsCleanValue (value : Str) : Type 0 where
    pub no_line_break : has_line_break value ≡ false
    pub no_control : has_control value ≡ false
    pub accepted : header_value_ok value ≡ true

  pub record IsCleanName (name : Str) : Type 0 where
    pub not_empty : is_empty name ≡ false
    pub name_accepted : header_name_ok name ≡ true

  validate_header_value_iff :
      (value : Str) → (validate_header_value crates value ≡ ok tt) ↔ IsCleanValue (trim value)
  unfolding validate_header_value
  validate_header_value_iff value = (
    λ h. record {
      no_line_break = ground arith;
      no_control = ground arith;
      accepted = ground arith;
    },
    λ h. ground arith,
  )

  validate_header_name_iff :
      (name : Str) → (validate_header_name crates name ≡ ok tt) ↔ IsCleanName (trim name)
  unfolding validate_header_name
  validate_header_name_iff name =
      (λ h. record { not_empty = ground arith; name_accepted = ground arith }, λ h. ground arith)

  -- A header is accepted exactly when its name and its value are clean once trimmed, and what is
  -- returned is the trimmed name in lower case with the trimmed value.
  pub sanitize_header_iff :
      (name value : Str) (h : Header)
      → (sanitize_header crates name value ≡ ok h) ↔ (
          IsCleanName (trim name)
          × IsCleanValue (trim value)
          × (h ≡ (to_ascii_lowercase (trim name), trim value)))
  unfolding sanitize_header
  sanitize_header_iff name value h =
      let named = validate_header_name_iff (trim name) in
      let valued = validate_header_value_iff (trim value) in
      let trimmed_name = trim_idempotent name in
      let trimmed_value = trim_idempotent value in
      (
        λ e. elim (Result-cases (validate_header_name crates (trim name))) [
          | inr (x, k) ↦ absurd (ground arith)
          | inl (u, k) ↦ elim (Result-cases (validate_header_value crates (trim value))) [
            | inr (x, l) ↦ absurd (ground arith)
            | inl (v, l) ↦
                let same : h ≡ (to_ascii_lowercase (trim name), trim value) = ground arith in
                (
                  subst IsCleanName trimmed_name (named.0 k),
                  subst IsCleanValue trimmed_value (valued.0 l),
                  same,
                )
          ]
        ],
        λ (clean_name, clean_value, same).
            let k = named.1 (subst IsCleanName (sym trimmed_name) clean_name) in
            let l = valued.1 (subst IsCleanValue (sym trimmed_value) clean_value) in
            rw same (ground arith),
      )
