-- ===== src/Request/Setters/Made.antt =====
-- What every request is that the public constructors and methods make.
use beanstream.Prelude.{ℕ, ◌≡◌, refl, Bool, List}
use beanstream.Text.{Str}
use beanstream.Error.{ok}
use beanstream.Crates.{Crates}
use beanstream.UrlValidation.Validate.{ParsedUrl}
use beanstream.RedirectPolicy.Policy.{RedirectPolicy}
use beanstream.RedirectPolicy.Scope.{ScopeValidator}
use beanstream.Retry.{RetryConfig}
use beanstream.HeaderValidation.{Header}
use beanstream.ProxyConfig.{ProxyCrate, ProxyConfig}
use beanstream.Request.{Method, HttpRequest, new, add_headers}
use beanstream.Request.Built.{IsWellFormed, new-IsWellFormed, add_headers-IsWellFormed}
use beanstream.Request.Setters.{
  with_body, with_timeout, with_redirect_policy, with_scope_validator, with_signal, with_progress,
  with_cache, with_rate_limiter, with_retry, with_proxy,
}

module _ (crates : Crates) (proxies : ProxyCrate crates) where
  -- A setter, with its argument.
  pub data Setting : Type 0 where
    body : Str → Setting
    timeout : ℕ → Setting
    redirect_policy : RedirectPolicy → Setting
    scope_validator : ScopeValidator → Setting
    signal : Setting
    progress : Setting
    cache : Setting
    rate_limiter : Setting
    retry : RetryConfig → Setting
    proxy : ProxyConfig crates proxies → Setting

  unfoldable pub set : Setting → HttpRequest crates proxies → HttpRequest crates proxies
  unfolding with_body with_timeout with_redirect_policy with_scope_validator with_signal
      with_progress with_cache with_rate_limiter with_retry with_proxy
  set (body text) request = with_body crates proxies text request
  set (timeout time) request = with_timeout crates proxies time request
  set (redirect_policy policy) request = with_redirect_policy crates proxies policy request
  set (scope_validator scope) request = with_scope_validator crates proxies scope request
  set signal request = with_signal crates proxies request
  set progress request = with_progress crates proxies request
  set cache request = with_cache crates proxies request
  set rate_limiter request = with_rate_limiter crates proxies request
  set (retry config) request = with_retry crates proxies config request
  set (proxy config) request = with_proxy crates proxies config request

  -- What is made by a constructor, by adding headers and by setters, in any order.
  pub data Made : HttpRequest crates proxies → Type 0 where
    constructs :
        {request : HttpRequest crates proxies} (method : Method) (url : Str)
        → new crates proxies method url ≡ ok request
        → Made request
    extends :
        {request extended : HttpRequest crates proxies} (headers : List Header)
        → Made request
        → add_headers crates proxies headers request ≡ ok extended
        → Made extended
    sets :
        {request : HttpRequest crates proxies} (setting : Setting)
        → Made request
        → Made (set setting request)

  -- What no setter changes.
  abbrev core : HttpRequest crates proxies → Str × (ParsedUrl × (Bool × List Header))
  core r = (r.url, (r.parsed_url, (r.allow_private_addresses, r.headers)))

  set-core :
      (setting : Setting) (request : HttpRequest crates proxies)
      → core (set setting request) ≡ core request
  unfolding set
  set-core (body text) request = refl
  set-core (timeout time) request = refl
  set-core (redirect_policy policy) request = refl
  set-core (scope_validator scope) request = refl
  set-core signal request = refl
  set-core progress request = refl
  set-core cache request = refl
  set-core rate_limiter request = refl
  set-core (retry config) request = refl
  set-core (proxy config) request = refl

  set-IsWellFormed :
      (setting : Setting) (request : HttpRequest crates proxies)
      → IsWellFormed crates proxies request
      → IsWellFormed crates proxies (set setting request)
  set-IsWellFormed setting request w =
      let same = set-core setting request in
      record {
        validated = cc (same, w.validated);
        public_only = cc (same, w.public_only);
        no_forbidden = cc (same, w.no_forbidden);
      }

  -- A request that is made by `new`, by adding headers and by setters, in any order, has the URL
  -- that was validated, refuses private addresses and has no forbidden header.
  pub Made-IsWellFormed :
      (request : HttpRequest crates proxies) → Made request → IsWellFormed crates proxies request
  Made-IsWellFormed request (constructs method url e) =
      new-IsWellFormed crates proxies method url request e
  Made-IsWellFormed request (extends {request = before} headers m e) =
      add_headers-IsWellFormed crates proxies headers before request e (Made-IsWellFormed before m)
  Made-IsWellFormed request (sets {request = before} setting m) =
      set-IsWellFormed setting before (Made-IsWellFormed before m)
