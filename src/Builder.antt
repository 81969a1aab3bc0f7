-- ===== src/Builder.antt =====
-- `HttpClientBuilder` of builder.rs: its settings and the client of `build`.
pub mod Create
pub mod Scope
pub mod Agree
pub mod Sent
use beanstream.Prelude.{
  ℕ, zero, suc, ◌+◌, ◌-◌, ◌*◌, ◌/◌, ◌%◌, ◌^◌, ◌≤◌, ◌<◌, min, max, code, String, ◌≡◌, refl, sym, ap,
  subst, ◌∙◌, ◌≢◌, ◌↔◌, ◌⊎◌, inl, inr, Bool, true, false, not, ◌&&◌, ◌||◌, Option, none, some, List,
  [], ◌∷◌, ◌++◌, map, reverse, arith, ltb, leb, ◌==◌, if◌then◌else◌, between, ==_iff, Bool-cases,
  Option-cases, length, any, all, find, keep, length-append, any-append, all-append, All, all_iff,
  All-keep, keep_of_All, keep_idempotent, All-append, All-map,
}
use beanstream.Text.{Str, codes}
use beanstream.Error.{
  Result, ok, err, ◌>>=◌, ◌>>◌, refuse_if, url_error, header_error, missing_config,
  invalid_configuration, request_failed, lit, about,
}
use beanstream.Crates.{Crates, parsed, parse_error}
use beanstream.HeaderValidation.{Header, is_blocked_header, sanitize_header}
use beanstream.RedirectPolicy.Policy.{RedirectPolicy, default_policy, allow_host}
use beanstream.RedirectPolicy.Scope.{ScopeValidator, new_scope, with_deny_list}
use beanstream.CertPinning.{CertPinConfig}
use beanstream.Cookies.{CookieJar, cookie_store}
use beanstream.ProxyConfig.{ProxyCrate, ProxyConfig, system, apply, Routing}
use beanstream.UrlValidation.Validate.{parse_url}
use beanstream.Response.{HttpResponse}
use beanstream.Request.{Method, HttpRequest, new}
use beanstream.Request.Exec
use beanstream.Request.Exec.{Exec}
use beanstream.Request.World.{World, Env}
use beanstream.Request.Transport.{check_wire_headers, install_pins}
use beanstream.Request.Send.{Interceptor, InterceptorChain, Race}
use beanstream.Request.Send

-- The settings that `build` gives to `reqwest::Client::builder()`: the redirects that reqwest
-- follows, and the headers in the order of the calls of `HeaderMap::insert`.
pub record ClientSettings : Type 0 where
  pub timeout : ℕ
  pub connect_timeout : ℕ
  pub user_agent : Str
  pub redirect_limit : Option ℕ
  pub default_headers : List Header
  -- the number of the cookie store, if there is one
  pub cookies : Option ℕ
  pub routing : Routing
  pub pins : Option CertPinConfig

module _ (crates : Crates) (proxies : ProxyCrate crates) where
  open crates use {parse, join, join_error, as_str, host_str, header_value_ok}

  -- Times in milliseconds.
  pub record HttpClientBuilder : Type 0 where
    pub base_url : Option Str
    pub timeout : ℕ
    pub max_redirects : ℕ
    pub follow_redirects : Bool
    pub connect_timeout : ℕ
    pub user_agent : Str
    pub default_headers : List Header
    pub check_private_ips : Bool
    pub cert_pinning : Option CertPinConfig
    pub proxy : ProxyConfig crates proxies
    pub interceptors : InterceptorChain crates proxies
    -- none without the feature `cookies`
    pub cookie_jar : Option CookieJar

  abbrev pub default_builder : HttpClientBuilder
  default_builder = record {
    base_url = none;
    timeout = 30000;
    max_redirects = 10;
    follow_redirects = false;
    connect_timeout = 10000;
    user_agent = codes "BeanStream/1.0";
    default_headers = [];
    check_private_ips = true;
    cert_pinning = none;
    proxy = system;
    interceptors = [];
    cookie_jar = none;
  }

  unfoldable pub with_base_url : Str → HttpClientBuilder → HttpClientBuilder
  with_base_url base_url b = record b { base_url = some base_url }

  unfoldable pub with_timeout : ℕ → HttpClientBuilder → HttpClientBuilder
  with_timeout timeout b = record b { timeout = timeout }

  unfoldable pub with_max_redirects : ℕ → HttpClientBuilder → HttpClientBuilder
  with_max_redirects max_redirects b = record b { max_redirects = max_redirects }

  unfoldable pub with_follow_redirects : Bool → HttpClientBuilder → HttpClientBuilder
  with_follow_redirects follow_redirects b = record b { follow_redirects = follow_redirects }

  unfoldable pub with_connect_timeout : ℕ → HttpClientBuilder → HttpClientBuilder
  with_connect_timeout connect_timeout b = record b { connect_timeout = connect_timeout }

  unfoldable pub with_user_agent : Str → HttpClientBuilder → HttpClientBuilder
  with_user_agent user_agent b = record b { user_agent = user_agent }

  unfoldable pub add_default_header : Str → Str → HttpClientBuilder → Result HttpClientBuilder
  add_default_header given_name given_value b = do
    h ← sanitize_header crates given_name given_value
    refuse_if (is_blocked_header h.0)
        (header_error (about "Header '{name}' is forbidden" (h.0 ∷ [])))
    ok (record b { default_headers = b.default_headers ++ h ∷ [] })

  unfoldable pub allow_private_networks : HttpClientBuilder → HttpClientBuilder
  allow_private_networks b = record b { check_private_ips = false }

  unfoldable pub with_cookie_jar : CookieJar → HttpClientBuilder → HttpClientBuilder
  with_cookie_jar jar b = record b { cookie_jar = some jar }

  unfoldable pub with_cert_pinning : CertPinConfig → HttpClientBuilder → HttpClientBuilder
  with_cert_pinning config b = record b { cert_pinning = some config }

  unfoldable pub with_proxy : ProxyConfig crates proxies → HttpClientBuilder → HttpClientBuilder
  with_proxy proxy b = record b { proxy = proxy }

  unfoldable pub add_interceptor :
      Interceptor crates proxies → HttpClientBuilder → HttpClientBuilder
  add_interceptor interceptor b = record b {
    interceptors = Send.add crates proxies interceptor b.interceptors;
  }

  -- `HeaderName::from_bytes` and `HeaderValue::from_str` on each default header
  unfoldable pub check_default_headers : List Header → Result (Unit {0})
  check_default_headers [] = ok tt
  check_default_headers ((name, value) ∷ headers) =
      let rest = check_default_headers headers in
      if not (crates.header_name_ok name)
      then err (header_error (lit "Invalid default header name"))
      else if not (header_value_ok value)
      then err (header_error (lit "Invalid default header value"))
      else rest

  unfoldable pub apply_proxy : Env → HttpClientBuilder → Result Routing
  apply_proxy env b = apply crates proxies env.variable b.proxy

  -- The settings, without the check of `reqwest`'s builder.
  unfoldable pub client_settings :
      HttpClientBuilder → Routing → Option CertPinConfig → ClientSettings
  client_settings b routing pins = record {
    timeout = b.timeout;
    connect_timeout = b.connect_timeout;
    user_agent = b.user_agent;
    redirect_limit = if b.follow_redirects then some b.max_redirects else none;
    default_headers = b.default_headers;
    cookies = cookie_store b.cookie_jar;
    routing = routing;
    pins = pins;
  }

  -- `client.build()`, whose error is `client_error`'s, if it fails
  unfoldable pub finish : (ClientSettings → Option Str) → ClientSettings → Result ClientSettings
  finish client_error client = elim (client_error client) [
    | none ↦ ok client
    | some e ↦ err (request_failed (about "{}" (e ∷ [])))
  ]

  unfoldable pub build :
      Env → (ClientSettings → Option Str) → HttpClientBuilder → Result ClientSettings
  unfolding check_default_headers apply_proxy client_settings finish
  build env client_error b = do
    refuse_if (not (header_value_ok b.user_agent))
        (invalid_configuration (lit "Invalid user agent"))
    check_default_headers b.default_headers
    routing ← apply_proxy env b
    pins ← install_pins env b.cert_pinning
    finish client_error (client_settings b routing pins)
