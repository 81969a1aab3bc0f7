-- ===== src/UrlValidation/Validate.antt =====
-- `validate_url` of url_validation.rs and the types that it fills.
pub mod Accepted
pub mod Safe
use beanstream.Prelude.{
  ℕ, zero, suc, ◌+◌, ◌-◌, ◌*◌, ◌/◌, ◌%◌, ◌^◌, ◌≤◌, ◌<◌, min, max, code, String, ◌≡◌, refl, sym, ap,
  subst, ◌∙◌, ◌≢◌, ◌↔◌, ◌⊎◌, inl, inr, Bool, true, false, not, ◌&&◌, ◌||◌, Option, none, some, List,
  [], ◌∷◌, ◌++◌, map, reverse, arith, ltb, leb, ◌==◌, if◌then◌else◌, between, ==_iff, Bool-cases,
  Option-cases, length, any, all, find, keep, length-append, any-append, all-append, All, all_iff,
  All-keep, keep_of_All, keep_idempotent, All-append, All-map,
}
use beanstream.Text.{Str, codes, to_ascii_lowercase, str_eq}
use beanstream.Net.{IpAddr, v4, v6}
use beanstream.Net.Display.{show_ipv4, show_ipv6}
use beanstream.Error.{
  Result, ok, err, ◌>>=◌, ◌>>◌, refuse_if, ok_or, url_error, invalid_scheme, invalid_port, no_host,
  private_network_access, lit, about, by_address,
}
use beanstream.Crates.{Crates, Parsed, parsed, parse_error, UrlHost, domain, host_v4, host_v6}
use beanstream.UrlValidation.Ip.{is_private_or_loopback, is_ipv6_loopback_or_multicast}
use beanstream.UrlValidation.Path.{SanitizedPath, validate_path, validate_raw_url_path}
use beanstream.UrlValidation.Domain.{validate_domain}

pub data Scheme : Type 0 where
  http https : Scheme

unfoldable pub parse_scheme : Str → Option Scheme
parse_scheme value =
    if str_eq (to_ascii_lowercase value) (codes "http")
    then some http
    else if str_eq (to_ascii_lowercase value) (codes "https")
    then some https
    else none

unfoldable pub scheme_as_str : Scheme → Str
scheme_as_str http = codes "http"
scheme_as_str https = codes "https"

pub record ValidatedHost : Type 0 where
  pub host : Str
  pub ip_addr : Option IpAddr

pub record ParsedUrl : Type 0 where
  pub scheme : Scheme
  pub host : ValidatedHost
  pub port : ℕ
  pub path : SanitizedPath
  pub original_url : Str

-- `username().is_empty()`
abbrev pub is_empty : Str → Bool
is_empty [] = true
is_empty (c ∷ s) = false

abbrev pub is_some {ℓ} : {A : Type ℓ} → Option A → Bool
is_some none = false
is_some (some a) = true

module _ (crates : Crates) where
  open crates use {Url, parse, scheme, username, password, port, path, host}

  -- `Url::parse(url)?`
  unfoldable pub parse_url : Str → Result Url
  parse_url url = elim (parse url) [
    | parsed u ↦ ok u
    | parse_error e ↦ err (url_error (about "{}" (e ∷ [])))
  ]

  unfoldable pub validate_port : Url → Result ℕ
  validate_port url = elim (port url) [
    | some p ↦ if p == 0 then err (invalid_port 0) else ok p
    | none ↦ ok (if str_eq (scheme url) (codes "https") then 443 else 80)
  ]

  unfoldable pub validate_host : Option UrlHost → Result ValidatedHost
  validate_host (some (domain name)) = do
    validate_domain name
    ok (record { host = name; ip_addr = none })
  validate_host (some (host_v4 address)) = do
    refuse_if (is_private_or_loopback crates address)
        (private_network_access (by_address (v4 address)))
    ok (record { host = show_ipv4 address; ip_addr = some (v4 address) })
  validate_host (some (host_v6 address)) = do
    refuse_if (is_ipv6_loopback_or_multicast crates address)
        (private_network_access (by_address (v6 address)))
    ok (record { host = show_ipv6 address; ip_addr = some (v6 address) })
  validate_host none = err no_host

  unfoldable pub validate_url : Str → Result ParsedUrl
  unfolding parse_url validate_port validate_host
  validate_url url = do
    validate_raw_url_path url
    u ← parse_url url
    s ← ok_or (parse_scheme (scheme u)) (invalid_scheme (scheme u))
    refuse_if (not (is_empty (username u)) || is_some (password u))
        (url_error (lit "URLs containing credentials are not allowed"))
    p ← validate_port u
    let sanitized : SanitizedPath = record { text = path u }
    validate_path sanitized
    h ← validate_host (host u)
    ok (record { scheme = s; host = h; port = p; path = sanitized; original_url = url })
