-- ===== src/Request/Vetted/Run.antt =====
-- A whole run of `execute_inner`.
use beanstream.Prelude.{
  ℕ, zero, suc, ◌≡◌, refl, inl, inr, false, Option, none, some, arith, Bool-cases, length,
}
use beanstream.Error.{ok, >>=-eq-ok, ok_or, internal_error, lit}
use beanstream.Crates.{Crates}
use beanstream.UrlValidation.Validate.{validate_url}
use beanstream.RedirectPolicy.Scope.{check_url}
use beanstream.HeaderValidation.{validate_headers}
use beanstream.Response.{HttpResponse}
use beanstream.Retry.{RetryConfig}
use beanstream.ProxyConfig.{ProxyCrate}
use beanstream.Request.{HttpRequest, refuse_forbidden, validate}
use beanstream.Request.Exec.{
  Exec, lift, Ensures, Ensures-try, Ensures-pure, Ensures-bind, Ensures-if,
}
use beanstream.Request.World.{Pinned, World, Env}
use beanstream.Request.Transport.{Exchange, pinned_addresses}
use beanstream.Request.Transport.Pins.{IsPinnedFor}
use beanstream.Request.Execute.{
  refuse_status, is_retryable, sleep, attempts, retries_left, report, report_complete, body_len,
  acquire, read_cache, lookup_cache, conditional_etag, store, update_cache, first_exchange,
  last_exchange, finish, fetch, serve_hit, execute_inner,
}
use beanstream.Request.Vetted.{AllVetted, send_target-Ensures, resolve_pin-Ensures}
use beanstream.Request.Vetted.Hops.{follow_chain-Ensures}

module _ (crates : Crates) (proxies : ProxyCrate crates) (request : HttpRequest crates proxies)
    (env : Env) where
  pub sleep-sent : (retry : Option RetryConfig) (w : World) → (sleep env retry w).sent ≡ w.sent
  unfolding sleep
  sleep-sent none w = refl
  sleep-sent (some retry) w = refl

  attempts-Ensures :
      (left : ℕ) (m : Exec World Exchange)
      → Ensures (AllVetted crates proxies request) m (λ _. Unit)
      → Ensures (AllVetted crates proxies request) (attempts env request.retry left m) (λ _. Unit)
  unfolding attempts Ensures
  attempts-Ensures zero m k w h = k w h
  attempts-Ensures (suc left) m k w h =
      let after = (k w h).0 in
      let slept = sleep env request.retry (m w).1 in
      let kept : AllVetted crates proxies request slept =
        rw (sleep-sent request.retry (m w).1) after in
      let later = attempts-Ensures left m k slept kept in
      elim (Bool-cases (is_retryable request.retry (m w).0)) [
        | inl e ↦ elim (Bool-cases (env.dropped (m w).1)) [
          | inl d ↦ (rw (e, d) after, λ _ _. tt)
          | inr d ↦ elim (Bool-cases (env.dropped slept)) [
            | inl s ↦ (rw (e, d, s) kept, λ _ _. tt)
            | inr s ↦ (rw (e, d, s) later.0, λ _ _. tt)
          ]
        ]
        | inr e ↦ (rw e after, λ _ _. tt)
      ]

  -- Code that hands nothing to a client keeps what was handed over.
  quiet :
      {A : Type 0} (m : Exec World A)
      → ((w : World) → (m w).1.sent ≡ w.sent)
      → Ensures (AllVetted crates proxies request) m (λ _. Unit)
  unfolding Ensures
  quiet m k w h = (rw (k w) h, λ _ _. tt)

  pub report-sent :
      (done : ℕ) (total : Option ℕ) (w : World)
      → (report crates proxies env request done total w).1.sent ≡ w.sent
  unfolding report
  report-sent done total w = ground arith

  pub acquire-sent : (w : World) → (acquire crates proxies env request w).1.sent ≡ w.sent
  unfolding acquire
  acquire-sent w = ground arith

  read_cache-sent : (w : World) → (read_cache crates proxies env request w).1.sent ≡ w.sent
  unfolding read_cache
  read_cache-sent w = ground arith

  pub lookup_cache-sent : (w : World) → (lookup_cache crates proxies env request w).1.sent ≡ w.sent
  unfolding lookup_cache
  lookup_cache-sent w = ground (arith, read_cache-sent w)

  store-sent :
      (response : HttpResponse) (w : World)
      → (store crates proxies env request response w).1.sent ≡ w.sent
  unfolding store
  store-sent response w = ground arith

  pub update_cache-sent :
      (response : HttpResponse) (w : World)
      → (update_cache crates proxies env request response w).1.sent ≡ w.sent
  unfolding update_cache
  update_cache-sent response w = ground (arith, read_cache-sent w, store-sent response w)

  report_complete-Ensures :
      (len : ℕ)
      → Ensures
          (AllVetted crates proxies request)
          (report_complete crates proxies env request len)
          (λ _. Unit)
  unfolding report_complete
  report_complete-Ensures len =
      quiet (report crates proxies env request len (some len)) (report-sent len (some len))

  finish-Ensures :
      (outcome : Exchange)
      → Ensures
          (AllVetted crates proxies request)
          (finish crates proxies env request outcome)
          (λ _. Unit)
  unfolding finish
  finish-Ensures outcome = Ensures-try _ _ (refuse_status outcome.status) _ λ _ _.
      Ensures-bind _ (λ _. Unit) _ (update_cache crates proxies env request _) _
        (quiet (update_cache crates proxies env request _) (update_cache-sent _))
        λ response _.
          Ensures-bind _ (λ _. Unit) _ _ _ (report_complete-Ensures (length response.body))
            λ _ _. Ensures-pure _ (λ _. Unit) response tt

  serve_hit-Ensures :
      (hit : HttpResponse)
      → Ensures
          (AllVetted crates proxies request)
          (serve_hit crates proxies env request hit)
          (λ _. Unit)
  unfolding serve_hit
  serve_hit-Ensures hit =
      Ensures-bind _ (λ _. Unit) _ _ _ (report_complete-Ensures (length hit.body))
        λ _ _. Ensures-pure _ (λ _. Unit) hit tt

  pub conditional_etag-sent :
      (w : World) → (conditional_etag crates proxies env request w).1.sent ≡ w.sent
  unfolding conditional_etag
  conditional_etag-sent w = refl

  pub validate-checks :
      validate crates proxies request ≡ ok tt
      → (check_url crates request.scope_validator request.url ≡ ok tt)
        × (refuse_forbidden crates proxies request.headers ≡ ok tt)
  unfolding validate
  validate-checks h =
      let (_, e, h1) = >>=-eq-ok (check_url crates request.scope_validator request.url) _ h in
      let (_, _, h2) = >>=-eq-ok (validate_headers crates request.headers) _ h1 in (e, h2)

  module _ (public_only : request.allow_private_addresses ≡ false)
      (validated : validate_url crates request.url ≡ ok request.parsed_url) where
    last_exchange-Ensures :
        (pinned : Pinned) (outcome : Exchange)
        → IsPinnedFor crates request.parsed_url.host pinned
        → refuse_forbidden crates proxies request.headers ≡ ok tt
        → Ensures
            (AllVetted crates proxies request)
            (last_exchange crates proxies env request pinned outcome)
            (λ _. Unit)
    unfolding last_exchange
    last_exchange-Ensures pinned outcome p clean =
        Ensures-if _ _ request.redirect_policy.follow_redirects _ _
          (λ _.
            Ensures-bind _ (λ _. Unit) _ _ _
              (follow_chain-Ensures crates proxies request env public_only pinned outcome p clean)
              λ final _.
                quiet (lift (ok_or final (internal_error (lit "out of fuel")))) (λ w. refl))
          (λ _. Ensures-pure _ (λ _. Unit) outcome tt)

    fetch-Ensures :
        validate crates proxies request ≡ ok tt
        → Ensures (AllVetted crates proxies request) (fetch crates proxies env request) (λ _. Unit)
    unfolding fetch first_exchange pinned_addresses
    fetch-Ensures h =
        let (in_scope, clean) = validate-checks h in
        Ensures-bind _ (λ _. Unit) _ _ _
          (quiet (conditional_etag crates proxies env request) conditional_etag-sent)
          λ etag _.
            Ensures-bind _ (λ p. IsPinnedFor crates request.parsed_url.host p) _ _ _
              (resolve_pin-Ensures crates proxies request env public_only request.parsed_url.host
                request.parsed_url.port)
              λ pinned p.
                Ensures-bind _ (λ _. Unit) _ _ _
                  (attempts-Ensures (retries_left request.retry) _ (
                    send_target-Ensures crates proxies request env pinned request.method request.url
                      request.headers request.body etag
                      ((request.parsed_url, validated, p), in_scope, clean)))
                  λ outcome _.
                    Ensures-bind _ (λ _. Unit) _ _ _ (last_exchange-Ensures pinned outcome p clean)
                      λ final _. finish-Ensures final

    -- A request whose URL is the validated one and that allows no private addresses: when all that
    -- was sent before is vetted, all that `execute_inner` sends is vetted too, whether it succeeds
    -- or fails and whatever the network, the resolver and the caches answer. Every request that is
    -- handed to a client, the hops of redirects and the retries included, has a target that
    -- `validate_url` accepts, is in scope, carries no forbidden header, and is pinned to addresses
    -- that are not blocked, under the name in its target, unless its host is itself an address.
    pub execute_inner-AllVetted :
        (w : World)
        → AllVetted crates proxies request w
        → AllVetted crates proxies request (execute_inner crates proxies env request w).1
    unfolding execute_inner Ensures
    execute_inner-AllVetted w h =
        (Ensures-try (AllVetted crates proxies request) (λ _. Unit)
          (validate crates proxies request) _
          (λ _ e.
            Ensures-bind _ (λ _. Unit) _ _ _
              (quiet
                (report crates proxies env request 0
                  (body_len crates proxies env request request.body))
                (report-sent 0 _))
              λ _ _.
                Ensures-bind _ (λ _. Unit) _ _ _
                  (quiet (acquire crates proxies env request) acquire-sent)
                  λ _ _.
                    Ensures-bind _ (λ _. Unit) _ _ _
                      (quiet (lookup_cache crates proxies env request) lookup_cache-sent)
                      λ found _.
                        elim found
                          as (λ o.
                            Ensures {A = HttpResponse} (AllVetted crates proxies request)
                              (elim o [
                                | some hit ↦ serve_hit crates proxies env request hit
                                | none ↦ fetch crates proxies env request
                              ])
                              (λ _. Unit)) [
                                | some hit ↦ serve_hit-Ensures hit
                                | none ↦ fetch-Ensures e
                              ])
          w h).0
