-- ===== src/RedirectPolicy/Scope/Decision.antt =====
-- What `check_url` decides, and that a denied host stays denied.
use beanstream.Prelude.{◌≡◌, refl, ◌↔◌, ◌⊎◌, inl, inr, true, false, some, arith, Option-cases}
use beanstream.Text.{Str, codes}
use beanstream.Text.Laws.{str_eq_iff}
use beanstream.Error.{ok}
use beanstream.Crates.{Crates, parsed, parse_error}
use beanstream.UrlValidation.Validate.{parse_url}
use beanstream.RedirectPolicy.Policy.{matches_any}
use beanstream.RedirectPolicy.Scope.{ScopeValidator, check_scope_host, check_url}

module _ (crates : Crates) where
  open crates use {Url, scheme, host_str, parse}

  -- A URL that the lists admit: it parses, its scheme is a web scheme, its host is not denied, and
  -- is allowed where the validator refuses unknown hosts.
  pub record IsInScope (v : ScopeValidator) (url : Str) : Type 0 where
    pub target : Url
    pub parses : parse url ≡ parsed target
    pub web_scheme : (scheme target ≡ codes "http") ⊎ (scheme target ≡ codes "https")
    pub host : Str
    pub has_host : host_str target ≡ some host
    pub not_denied : matches_any v.deny_list host ≡ false
    pub admitted : (matches_any v.allow_list host ≡ true) ⊎ (v.default_deny ≡ false)

  check_parsed :
      (v : ScopeValidator) (url : Str) (u : Url) (host : Str)
      → parse url ≡ parsed u
      → host_str u ≡ some host
      → check_url crates v url ≡ ok tt
      → IsInScope v url
  unfolding check_url parse_url check_scope_host
  check_parsed v url u host e k h = record {
    target = u;
    parses = e;
    web_scheme =
        ground (arith, str_eq_iff (scheme u) (codes "http"), str_eq_iff (scheme u) (codes "https"));
    host = host;
    has_host = k;
    not_denied = ground arith;
    admitted = ground arith;
  }

  -- `check_url` accepts exactly the URLs in scope: a match of the deny list refuses whatever the
  -- allow list says.
  pub check_url_iff :
      (v : ScopeValidator) (url : Str) → (check_url crates v url ≡ ok tt) ↔ IsInScope v url
  unfolding check_url parse_url check_scope_host
  check_url_iff v url = (
    λ h.
        elim (parse url) as (λ p. parse url ≡ p → IsInScope v url) [
          | parsed u ↦ λ e. elim (Option-cases (host_str u)) [
            | inl n ↦ absurd (ground arith)
            | inr (host, k) ↦ check_parsed v url u host e k h
          ]
          | parse_error message ↦ λ e. absurd (ground arith)
        ]
          refl,
    λ s. ground (
      arith,
      s.parses,
      s.has_host,
      str_eq_iff (scheme s.target) (codes "http"),
      str_eq_iff (scheme s.target) (codes "https"),
    ),
  )
