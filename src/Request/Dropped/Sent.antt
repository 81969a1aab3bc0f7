-- ===== src/Request/Dropped/Sent.antt =====
-- A whole run of `send` whose future is dropped.
use beanstream.Prelude.{inl, inr, Bool-cases}
use beanstream.Error.{ok, err, request_aborted}
use beanstream.Crates.{Crates}
use beanstream.Response.{HttpResponse, redact}
use beanstream.ProxyConfig.{ProxyCrate}
use beanstream.Request.{HttpRequest}
use beanstream.Request.World.{World, Env}
use beanstream.Request.Execute.{execute_inner}
use beanstream.Request.Send.{
  Race, fired_before, unfired, InterceptorChain, run_on_request, run_on_response, run_with_signal,
  send,
}
use beanstream.Request.Dropped.{
  undropped, IsCutOff, CutsOff, CutsOff-lift, CutsOff-bind, CutsOff-try,
}
use beanstream.Request.Dropped.Run.{execute_inner-CutsOff}

module _ (crates : Crates) (proxies : ProxyCrate crates) (env : Env) where
  raced-CutsOff :
      (request : HttpRequest crates proxies) (race : Race)
      → CutsOff {A = HttpResponse} env
          (λ w. elim race [
            | fired_before ↦ (err request_aborted, w)
            | unfired ↦ execute_inner crates proxies env request w
          ])
          (λ w. elim race [
            | fired_before ↦ (err request_aborted, w)
            | unfired ↦ execute_inner crates proxies (undropped env) request w
          ])
  raced-CutsOff request fired_before = CutsOff-lift env (err request_aborted)
  raced-CutsOff request unfired = execute_inner-CutsOff crates proxies env request

  run_with_signal-CutsOff :
      (request : HttpRequest crates proxies) (race : Race)
      → CutsOff env
          (run_with_signal crates proxies env request race)
          (run_with_signal crates proxies (undropped env) request race)
  unfolding run_with_signal CutsOff
  run_with_signal-CutsOff request race w =
      let run = execute_inner-CutsOff crates proxies env request w in
      elim (Bool-cases request.has_signal) [
        | inl e ↦ simp e (raced-CutsOff request race w)
        | inr e ↦ simp e run
      ]

  send-CutsOff :
      (interceptors : InterceptorChain crates proxies) (request : HttpRequest crates proxies)
      (race : Race)
      → CutsOff env
          (send crates proxies env interceptors request race)
          (send crates proxies (undropped env) interceptors request race)
  unfolding send
  send-CutsOff interceptors request race =
      CutsOff-try env (run_on_request crates proxies interceptors request) _ _ λ this.
        CutsOff-bind env _ _ _ _ (run_with_signal-CutsOff this race) λ outcome.
          CutsOff-try env (run_on_response crates proxies interceptors outcome) _ _
            λ response. CutsOff-lift env (ok (redact response))

  -- Wherever a run of `send` waits and is dropped, by its signal or by the caller: it ends as the
  -- run that is not dropped, or with the result of an abort, in a world in which it was dropped,
  -- where the requests, the resolved names, the sleeps and the calls of the progress callback are
  -- those with which the other run begins.
  pub send-IsCutOff :
      (interceptors : InterceptorChain crates proxies) (request : HttpRequest crates proxies)
      (race : Race) (w : World)
      → IsCutOff env
          (send crates proxies env interceptors request race w)
          (send crates proxies (undropped env) interceptors request race w)
  unfolding CutsOff
  send-IsCutOff interceptors request race w = (send-CutsOff interceptors request race w).1
