-- ===== src/Request/Setters.antt =====
-- The constructors and setters of `HttpRequest` that take no decision, and `build_request`.
pub mod Made
use beanstream.Prelude.{
  ℕ, zero, suc, ◌+◌, ◌-◌, ◌*◌, ◌/◌, ◌%◌, ◌^◌, ◌≤◌, ◌<◌, min, max, code, String, ◌≡◌, refl, sym, ap,
  subst, ◌∙◌, ◌≢◌, ◌↔◌, ◌⊎◌, inl, inr, Bool, true, false, not, ◌&&◌, ◌||◌, Option, none, some, List,
  [], ◌∷◌, ◌++◌, map, reverse, arith, ltb, leb, ◌==◌, if◌then◌else◌, between, ==_iff, Bool-cases,
  Option-cases, length, any, all, find, keep, length-append, any-append, all-append, All, all_iff,
  All-keep, keep_of_All, keep_idempotent, All-append, All-map,
}
use beanstream.Text.{Str}
use beanstream.Error.{Result, ok, err, ◌>>=◌, ◌>>◌, request_failed, about}
use beanstream.Crates.{Crates}
use beanstream.RedirectPolicy.Policy.{RedirectPolicy}
use beanstream.RedirectPolicy.Scope.{ScopeValidator}
use beanstream.Retry.{RetryConfig}
use beanstream.ProxyConfig.{ProxyCrate, ProxyConfig}
use beanstream.Response.{HttpResponse}
use beanstream.Request.{Method, HttpRequest, new, validate}
use beanstream.Request
use beanstream.Request.Exec.{Exec}
use beanstream.Request.World.{Outbound, World, Env}
use beanstream.Request.Transport.{build_client, check_wire_headers}
use beanstream.Request.Send.{InterceptorChain, Race, send}

module _ (crates : Crates) (proxies : ProxyCrate crates) where
  unfoldable pub get : Str → Result (HttpRequest crates proxies)
  get url = new crates proxies Request.get url

  unfoldable pub post : Str → Result (HttpRequest crates proxies)
  post url = new crates proxies Request.post url

  unfoldable pub put : Str → Result (HttpRequest crates proxies)
  put url = new crates proxies Request.put url

  unfoldable pub delete : Str → Result (HttpRequest crates proxies)
  delete url = new crates proxies Request.delete url

  unfoldable pub patch : Str → Result (HttpRequest crates proxies)
  patch url = new crates proxies Request.patch url

  unfoldable pub with_body : Str → HttpRequest crates proxies → HttpRequest crates proxies
  with_body body request = record request { body = some body }

  unfoldable pub with_timeout : ℕ → HttpRequest crates proxies → HttpRequest crates proxies
  with_timeout timeout request = record request { timeout = timeout }

  unfoldable pub with_redirect_policy :
      RedirectPolicy → HttpRequest crates proxies → HttpRequest crates proxies
  with_redirect_policy redirect_policy request = record request {
    redirect_policy = redirect_policy;
  }

  unfoldable pub with_scope_validator :
      ScopeValidator → HttpRequest crates proxies → HttpRequest crates proxies
  with_scope_validator scope_validator request = record request {
    scope_validator = scope_validator;
  }

  -- The setters of what is shared: the signal, the progress callback, the cache and the limiter.
  unfoldable pub with_signal : HttpRequest crates proxies → HttpRequest crates proxies
  with_signal request = record request { has_signal = true }

  unfoldable pub with_progress : HttpRequest crates proxies → HttpRequest crates proxies
  with_progress request = record request { has_progress = true }

  unfoldable pub with_cache : HttpRequest crates proxies → HttpRequest crates proxies
  with_cache request = record request { has_cache = true }

  unfoldable pub with_rate_limiter : HttpRequest crates proxies → HttpRequest crates proxies
  with_rate_limiter request = record request { has_limiter = true }

  unfoldable pub with_retry : RetryConfig → HttpRequest crates proxies → HttpRequest crates proxies
  with_retry retry request = record request { retry = some retry }

  unfoldable pub with_proxy :
      ProxyConfig crates proxies → HttpRequest crates proxies → HttpRequest crates proxies
  with_proxy proxy request = record request { proxy = proxy }

  module _ (env : Env) where
    -- `request_error` is the error of `reqwest`'s request builder, if it fails.
    unfoldable pub build_request :
        (Outbound → Option Str) → HttpRequest crates proxies → Result Outbound
    build_request request_error request = do
      validate crates proxies request
      client ← build_client crates proxies env request none
      check_wire_headers crates request.headers
      let out : Outbound = record {
        client = client;
        method = request.method;
        target = request.url;
        headers = request.headers;
        if_none_match = none;
        body = request.body;
      }
      elim (request_error out) [
        | none ↦ ok out
        | some e ↦ err (request_failed (about "{}" (e ∷ [])))
      ]

    -- `execute` consumes the request and sends it.
    unfoldable pub execute :
        InterceptorChain crates proxies
        → HttpRequest crates proxies
        → Race
        → Exec World HttpResponse
    execute interceptors request race = send crates proxies env interceptors request race
