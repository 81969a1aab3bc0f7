-- ===== src/Request.antt =====
-- `HttpRequest` of request_handler.rs: its fields, its constructors and its checks.
-- The parts that are shared by reference (the cache, the limiter, the signal, the progress
-- callback) live in the world of `Request.World`; a request says whether it has them. The
-- interceptors are an argument of `send`.
pub mod Exec
pub mod World
pub mod Transport
pub mod Hop
pub mod Chain
pub mod Execute
pub mod Send
pub mod Vetted
pub mod Built
pub mod Sends
pub mod Setters
pub mod Carried
pub mod Origin
pub mod Dropped
use beanstream.Prelude.{
  ℕ, zero, suc, ◌+◌, ◌-◌, ◌*◌, ◌/◌, ◌%◌, ◌^◌, ◌≤◌, ◌<◌, min, max, code, String, ◌≡◌, refl, sym, ap,
  subst, ◌∙◌, ◌≢◌, ◌↔◌, ◌⊎◌, inl, inr, Bool, true, false, not, ◌&&◌, ◌||◌, Option, none, some, List,
  [], ◌∷◌, ◌++◌, map, reverse, arith, ltb, leb, ◌==◌, if◌then◌else◌, between, ==_iff, Bool-cases,
  Option-cases, length, any, all, find, keep, length-append, any-append, all-append, All, all_iff,
  All-keep, keep_of_All, keep_idempotent, All-append, All-map,
}
use beanstream.Text.{Str, codes, str_eq}
use beanstream.Error.{Result, ok, err, ◌>>=◌, ◌>>◌, refuse_if, header_error, about}
use beanstream.Crates.{Crates}
use beanstream.UrlValidation.Validate.{ParsedUrl, validate_url}
use beanstream.HeaderValidation.{Header, is_blocked_header, sanitize_header, validate_headers}
use beanstream.RedirectPolicy.Policy.{RedirectPolicy, default_policy}
use beanstream.RedirectPolicy.Scope.{ScopeValidator, new_scope, allow_scope_host, check_url}
use beanstream.Retry.{RetryConfig}
use beanstream.CertPinning.{CertPinConfig}
use beanstream.Cookies.{CookieJar}
use beanstream.ProxyConfig.{ProxyCrate, ProxyConfig, system}

-- `reqwest::Method`
pub data Method : Type 0 where
  get post put delete patch head : Method
  other : Str → Method

unfoldable pub method_as_str : Method → Str
method_as_str get = codes "GET"
method_as_str post = codes "POST"
method_as_str put = codes "PUT"
method_as_str delete = codes "DELETE"
method_as_str patch = codes "PATCH"
method_as_str head = codes "HEAD"
method_as_str (other name) = name

unfoldable pub is_get_or_head : Method → Bool
is_get_or_head get = true
is_get_or_head head = true
is_get_or_head _ = false

unfoldable pub is_post : Method → Bool
is_post post = true
is_post _ = false

module _ (crates : Crates) (proxies : ProxyCrate crates) where
  pub record HttpRequest : Type 0 where
    pub method : Method
    pub url : Str
    pub parsed_url : ParsedUrl
    pub headers : List Header
    pub body : Option Str
    -- in milliseconds
    pub timeout : ℕ
    pub redirect_policy : RedirectPolicy
    pub scope_validator : ScopeValidator
    pub has_signal : Bool
    pub retry : Option RetryConfig
    pub has_cache : Bool
    pub has_limiter : Bool
    -- none without the feature `cookies`
    pub cookie_jar : Option CookieJar
    pub cert_pinning : Option CertPinConfig
    pub proxy : ProxyConfig crates proxies
    pub allow_private_addresses : Bool
    pub has_progress : Bool

  unfoldable pub new : Method → Str → Result HttpRequest
  new method url = do
    parsed ← validate_url crates url
    ok (record {
      method = method;
      url = url;
      parsed_url = parsed;
      headers = [];
      body = none;
      timeout = 30000;
      redirect_policy = default_policy;
      scope_validator = allow_scope_host parsed.host.host (new_scope true);
      has_signal = false;
      retry = none;
      has_cache = false;
      has_limiter = false;
      cookie_jar = none;
      cert_pinning = none;
      proxy = system;
      allow_private_addresses = false;
      has_progress = false;
    })

  unfoldable pub add_header : Str → Str → HttpRequest → Result HttpRequest
  add_header given_name given_value request = do
    h ← sanitize_header crates given_name given_value
    refuse_if (is_blocked_header h.0)
        (header_error (about "Header '{name}' is forbidden" (h.0 ∷ [])))
    ok (record request { headers = request.headers ++ h ∷ [] })

  unfoldable pub add_headers : List Header → HttpRequest → Result HttpRequest
  add_headers [] request = ok request
  add_headers ((name, value) ∷ headers) request = do
    extended ← add_header name value request
    add_headers headers extended

  unfoldable pub refuse_forbidden : List Header → Result (Unit {0})
  refuse_forbidden [] = ok tt
  refuse_forbidden ((name, value) ∷ headers) =
      let rest = refuse_forbidden headers in
      if is_blocked_header name
      then err (header_error (about "Header '{name}' is forbidden" (name ∷ [])))
      else rest

  unfoldable pub validate : HttpRequest → Result (Unit {0})
  validate request = do
    check_url crates request.scope_validator request.url
    validate_headers crates request.headers
    refuse_forbidden request.headers
