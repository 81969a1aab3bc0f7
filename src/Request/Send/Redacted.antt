-- ===== src/Request/Send/Redacted.antt =====
-- What reaches the caller of `send`.
use beanstream.Prelude.{◌≡◌, All}
use beanstream.Error.{ok}
use beanstream.Crates.{Crates}
use beanstream.HeaderValidation.Laws.{IsPublic, redact_sensitive_headers-IsPublic}
use beanstream.Response.{HttpResponse, redact}
use beanstream.ProxyConfig.{ProxyCrate}
use beanstream.Request.{HttpRequest}
use beanstream.Request.Exec.{Exec, Ensures, Ensures-try, Ensures-pure, Ensures-bind}
use beanstream.Request.World.{World, Env}
use beanstream.Request.Send.{
  Race, InterceptorChain, run_on_request, run_on_response, run_with_signal, send,
}

redact-IsPublic : (response : HttpResponse) → All IsPublic (redact response).headers
unfolding redact
redact-IsPublic response = redact_sensitive_headers-IsPublic response.headers

module _ (crates : Crates) (proxies : ProxyCrate crates) (env : Env) where
  abbrev Always : World → Type 0
  Always w = Unit

  abbrev HasPublicHeaders : HttpResponse → Type 0
  HasPublicHeaders response = All IsPublic response.headers

  anything : {A : Type 0} (m : Exec World A) → Ensures Always m (λ _. Unit)
  unfolding Ensures
  anything m w h = (tt, λ _ _. tt)

  -- Every response that `send` returns has its sensitive headers redacted, whatever the servers
  -- and the cache answered and whatever the interceptors made of the request and of the response.
  pub send-IsPublic :
      (interceptors : InterceptorChain crates proxies) (request : HttpRequest crates proxies)
      (race : Race) (w : World) (response : HttpResponse)
      → (send crates proxies env interceptors request race w).0 ≡ ok response
      → All IsPublic response.headers
  unfolding send Ensures
  send-IsPublic interceptors request race w response h =
      (Ensures-try Always HasPublicHeaders (run_on_request crates proxies interceptors request) _
          (λ this _.
            Ensures-bind Always (λ _. Unit) HasPublicHeaders
              (run_with_signal crates proxies env this race) _
              (anything (run_with_signal crates proxies env this race))
              λ outcome _.
                Ensures-try Always HasPublicHeaders
                  (run_on_response crates proxies interceptors outcome) _
                  λ answer _.
                    Ensures-pure Always HasPublicHeaders (redact answer) (redact-IsPublic answer))
          w tt).1
        response h
