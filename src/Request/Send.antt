-- ===== src/Request/Send.antt =====
-- interceptor.rs, and `send` of request_handler.rs.
pub mod Redacted
pub mod Hooks
use beanstream.Prelude.{
  ℕ, zero, suc, ◌+◌, ◌-◌, ◌*◌, ◌/◌, ◌%◌, ◌^◌, ◌≤◌, ◌<◌, min, max, code, String, ◌≡◌, refl, sym, ap,
  subst, ◌∙◌, ◌≢◌, ◌↔◌, ◌⊎◌, inl, inr, Bool, true, false, not, ◌&&◌, ◌||◌, Option, none, some, List,
  [], ◌∷◌, ◌++◌, map, reverse, arith, ltb, leb, ◌==◌, if◌then◌else◌, between, ==_iff, Bool-cases,
  Option-cases, length, any, all, find, keep, length-append, any-append, all-append, All, all_iff,
  All-keep, keep_of_All, keep_idempotent, All-append, All-map,
}
use beanstream.Text.{Str, codes, eq_ignore_ascii_case}
use beanstream.Error.{BeanStreamError, Result, ok, err, request_aborted}
use beanstream.Error
use beanstream.Crates.{Crates}
use beanstream.HeaderValidation.{Header}
use beanstream.Response.{HttpResponse, redact}
use beanstream.ProxyConfig.{ProxyCrate}
use beanstream.Request.{HttpRequest}
use beanstream.Request.Exec.{Exec, pure, raise, lift, ◌>>=◌}
use beanstream.Request.World.{World, Env}
use beanstream.Request.Execute.{execute_inner}

-- `AuthInterceptor`: the value of the first header of that name is replaced, else one is added.
unfoldable pub set_header : Str → Str → List Header → List Header
set_header header value [] = (header, value) ∷ []
set_header header value ((name, old) ∷ headers) =
    if eq_ignore_ascii_case name header
    then (name, value) ∷ headers
    else (name, old) ∷ set_header header value headers

pub record AuthInterceptor : Type 0 where
  pub token : Str
  pub header : Str

unfoldable pub new_auth : Str → AuthInterceptor
new_auth token = record { token = token; header = codes "authorization" }

unfoldable pub with_header_name : Str → AuthInterceptor → AuthInterceptor
with_header_name name auth = record auth { header = name }

-- How the race of a request with its signal begins: the signal has fired before, or not. Then the
-- request starts, and `Env` says where the signal fires while it waits, if it does.
pub data Race : Type 0 where
  fired_before : Race
  unfired : Race

module _ (crates : Crates) (proxies : ProxyCrate crates) where
  -- A hook gets the request or the response, and returns what it made of it.
  pub record Interceptor : Type 0 where
    pub on_request : HttpRequest crates proxies → Result (HttpRequest crates proxies)
    pub on_response : HttpResponse → Result HttpResponse

  abbrev pub InterceptorChain : Type 0
  InterceptorChain = List Interceptor

  unfoldable pub add : Interceptor → InterceptorChain → InterceptorChain
  add interceptor interceptors = interceptors ++ interceptor ∷ []

  unfoldable pub chain_len : InterceptorChain → ℕ
  chain_len interceptors = length interceptors

  unfoldable pub chain_is_empty : InterceptorChain → Bool
  chain_is_empty interceptors = elim interceptors [ [] ↦ true | i ∷ rest ↦ false ]

  unfoldable pub run_on_request :
      InterceptorChain → HttpRequest crates proxies → Result (HttpRequest crates proxies)
  run_on_request [] req = ok req
  run_on_request (i ∷ interceptors) req =
      Error.◌>>=◌ (i.on_request req) (λ req'. run_on_request interceptors req')

  unfoldable pub run_on_response : InterceptorChain → HttpResponse → Result HttpResponse
  run_on_response [] resp = ok resp
  run_on_response (i ∷ interceptors) resp =
      Error.◌>>=◌ (i.on_response resp) (λ resp'. run_on_response interceptors resp')

  unfoldable pub logging_interceptor : Interceptor
  logging_interceptor = record { on_request = ok; on_response = ok }

  unfoldable pub auth_interceptor : AuthInterceptor → Interceptor
  auth_interceptor auth = record {
    on_request = λ req. ok (record req {
      headers = set_header auth.header (codes "Bearer " ++ auth.token) req.headers;
    });
    on_response = ok;
  }

  module _ (env : Env) where
    unfoldable pub run_with_signal : HttpRequest crates proxies → Race → Exec World HttpResponse
    run_with_signal request race w =
        let run = execute_inner crates proxies env request w in
        if request.has_signal
        then elim race [ fired_before ↦ (err request_aborted, w) | unfired ↦ run ]
        else run

    unfoldable pub send :
        InterceptorChain → HttpRequest crates proxies → Race → Exec World HttpResponse
    send interceptors request race = do
      this ← lift (run_on_request interceptors request)
      outcome ← run_with_signal this race
      response ← lift (run_on_response interceptors outcome)
      pure (redact response)
