-- ===== src/Request/Sends/Each.antt =====
-- A property of all that `execute_inner` hands to a client, from the same of one exchange and of the
-- redirect chain.
use beanstream.Prelude.{
  ℕ, zero, suc, ◌≡◌, refl, inl, inr, Option, none, some, Bool-cases, length, All,
}
use beanstream.Error.{ok_or, internal_error, lit}
use beanstream.Crates.{Crates}
use beanstream.Response.{HttpResponse}
use beanstream.ProxyConfig.{ProxyCrate}
use beanstream.Request.{HttpRequest, validate}
use beanstream.Request.Exec.{
  Exec, lift, Ensures, Ensures-try, Ensures-pure, Ensures-bind, Ensures-if,
}
use beanstream.Request.World.{Pinned, Outbound, World, Env}
use beanstream.Request.Transport.{Exchange, pinned_addresses, send_target}
use beanstream.Request.Transport.Pins.{resolve_pin-sent}
use beanstream.Request.Chain.{follow_chain}
use beanstream.Text.{Str}
use beanstream.Request.Execute.{
  refuse_status, is_retryable, sleep, attempts, retries_left, report, report_complete, body_len,
  acquire, lookup_cache, conditional_etag, update_cache, first_exchange, last_exchange, finish,
  fetch, serve_hit, execute_inner,
}
use beanstream.Request.Vetted.Run.{
  sleep-sent, report-sent, acquire-sent, lookup_cache-sent, update_cache-sent,
}

-- `P` holds of each request that is handed over, and `Q` of the reply to the request's own exchange.
module _ (crates : Crates) (proxies : ProxyCrate crates) (request : HttpRequest crates proxies)
    (env : Env) (P : Outbound → Type 0) (Q : Exchange → Type 0) where
  abbrev pub AllSent : World → Type 0
  AllSent w = All P w.sent

  -- Code that hands nothing to a client keeps what was handed over.
  pub quiet :
      {A : Type 0} (m : Exec World A)
      → ((w : World) → (m w).1.sent ≡ w.sent)
      → Ensures AllSent m (λ _. Unit)
  unfolding Ensures
  quiet m k w h = (rw (k w) h, λ _ _. tt)

  module _
      (send_target-Ensures : (pinned : Pinned) (etag : Option Str)
        → Ensures AllSent
            (send_target crates proxies env request pinned request.method request.url
              request.headers request.body etag)
            Q)
      (follow_chain-Ensures : (pinned : Pinned) (outcome : Exchange)
        → Q outcome
        → Ensures AllSent
            (follow_chain crates proxies env request pinned outcome)
            (λ _. Unit)) where
    attempts-Ensures :
        (left : ℕ) (m : Exec World Exchange)
        → Ensures AllSent m Q
        → Ensures AllSent (attempts env request.retry left m) Q
    unfolding attempts Ensures
    attempts-Ensures zero m k w h = k w h
    attempts-Ensures (suc left) m k w h =
        let (after, reply) = k w h in
        let slept = sleep env request.retry (m w).1 in
        let kept : AllSent slept =
          rw (sleep-sent crates proxies request env request.retry (m w).1) after in
        let later = attempts-Ensures left m k slept kept in
        elim (Bool-cases (is_retryable request.retry (m w).0)) [
          | inl e ↦ elim (Bool-cases (env.dropped (m w).1)) [
            | inl d ↦ rw (e, d) (after, λ _ failed. absurd (cc failed))
            | inr d ↦ elim (Bool-cases (env.dropped slept)) [
              | inl s ↦ rw (e, d, s) (kept, λ _ failed. absurd (cc failed))
              | inr s ↦ rw (e, d, s) later
            ]
          ]
          | inr e ↦ rw e (after, reply)
        ]

    complete-Ensures :
        (len : ℕ) → Ensures AllSent (report_complete crates proxies env request len) (λ _. Unit)
    unfolding report_complete
    complete-Ensures len =
        quiet (report crates proxies env request len (some len))
          (report-sent crates proxies request env len (some len))

    finish-Ensures :
        (outcome : Exchange)
        → Ensures AllSent (finish crates proxies env request outcome) (λ _. Unit)
    unfolding finish
    finish-Ensures outcome = Ensures-try _ _ (refuse_status outcome.status) _ λ _ _.
        Ensures-bind _ (λ _. Unit) _ (update_cache crates proxies env request _) _
          (quiet (update_cache crates proxies env request _)
            (update_cache-sent crates proxies request env _))
          λ response _.
            Ensures-bind _ (λ _. Unit) _ _ _ (complete-Ensures (length response.body))
              λ _ _. Ensures-pure _ (λ _. Unit) response tt

    serve_hit-Ensures :
        (hit : HttpResponse)
        → Ensures AllSent (serve_hit crates proxies env request hit) (λ _. Unit)
    unfolding serve_hit
    serve_hit-Ensures hit =
        Ensures-bind _ (λ _. Unit) _ _ _ (complete-Ensures (length hit.body))
          λ _ _. Ensures-pure _ (λ _. Unit) hit tt

    last_exchange-Ensures :
        (pinned : Pinned) (outcome : Exchange)
        → Q outcome
        → Ensures AllSent (last_exchange crates proxies env request pinned outcome) (λ _. Unit)
    unfolding last_exchange
    last_exchange-Ensures pinned outcome q =
        Ensures-if _ _ request.redirect_policy.follow_redirects _ _
          (λ _.
            Ensures-bind _ (λ _. Unit) _ _ _ (follow_chain-Ensures pinned outcome q)
              λ final _.
                quiet (lift (ok_or final (internal_error (lit "out of fuel")))) (λ w. refl))
          (λ _. Ensures-pure _ (λ _. Unit) outcome tt)

    pinned_addresses-sent :
        (w : World) → (pinned_addresses crates proxies env request w).1.sent ≡ w.sent
    unfolding pinned_addresses
    pinned_addresses-sent w =
        resolve_pin-sent crates proxies env request request.parsed_url.host request.parsed_url.port
          w

    etag-sent : (w : World) → (conditional_etag crates proxies env request w).1.sent ≡ w.sent
    unfolding conditional_etag
    etag-sent w = refl

    fetch-Ensures : Ensures AllSent (fetch crates proxies env request) (λ _. Unit)
    unfolding fetch first_exchange
    fetch-Ensures =
        Ensures-bind _ (λ _. Unit) _ _ _
          (quiet (conditional_etag crates proxies env request) etag-sent)
          λ etag _.
            Ensures-bind _ (λ _. Unit) _ _ _
              (quiet (pinned_addresses crates proxies env request) pinned_addresses-sent)
              λ pinned _.
                Ensures-bind _ Q _ _ _
                  (attempts-Ensures (retries_left request.retry) _
                    (send_target-Ensures pinned etag))
                  λ outcome q.
                    Ensures-bind _ (λ _. Unit) _ _ _ (last_exchange-Ensures pinned outcome q)
                      λ final _. finish-Ensures final

    pub execute_inner-Ensures :
        Ensures AllSent (execute_inner crates proxies env request) (λ _. Unit)
    unfolding execute_inner
    execute_inner-Ensures =
        Ensures-try AllSent (λ _. Unit) (validate crates proxies request) _
          (λ _ _.
            Ensures-bind _ (λ _. Unit) _ _ _
              (quiet
                (report crates proxies env request 0
                  (body_len crates proxies env request request.body))
                (report-sent crates proxies request env 0 _))
              λ _ _.
                Ensures-bind _ (λ _. Unit) _ _ _
                  (quiet (acquire crates proxies env request)
                    (acquire-sent crates proxies request env))
                  λ _ _.
                    Ensures-bind _ (λ _. Unit) _ _ _
                      (quiet (lookup_cache crates proxies env request)
                        (lookup_cache-sent crates proxies request env))
                      λ found _.
                        elim found
                          as (λ o.
                            Ensures {A = HttpResponse} AllSent
                              (elim o [
                                | some hit ↦ serve_hit crates proxies env request hit
                                | none ↦ fetch crates proxies env request
                              ])
                              (λ _. Unit)) [
                                | some hit ↦ serve_hit-Ensures hit
                                | none ↦ fetch-Ensures
                              ])
