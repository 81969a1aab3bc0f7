-- ===== src/Request/Dropped/Run.antt =====
-- A whole run of a request whose future is dropped.
use beanstream.Prelude.{
  ℕ, ◌≡◌, refl, inl, inr, Option, none, some, [], ◌∷◌, arith, Bool-cases, length,
}
use beanstream.Error.{ok, ok_or, internal_error, lit}
use beanstream.Crates.{Crates}
use beanstream.Response.{HttpResponse}
use beanstream.ProxyConfig.{ProxyCrate}
use beanstream.Request.{HttpRequest, validate}
use beanstream.Request.World.{Pinned, World, Env}
use beanstream.Request.Transport.{Exchange, awaited, pinned_addresses}
use beanstream.Request.Execute.{
  refuse_status, retries_left, report, report_complete, acquire, read_cache, lookup_cache,
  conditional_etag, store, update_cache, first_exchange, last_exchange, finish, fetch, serve_hit,
  execute_inner,
}
use beanstream.Request.Dropped.{
  undropped, Precedes, Precedes-refl, CutsOff, CutsOff-lift, CutsOff-same, CutsOff-bind,
  CutsOff-try, CutsOff-if,
}
use beanstream.Request.Dropped.Attempts.{attempts-CutsOff}
use beanstream.Request.Dropped.Hops.{send_target-CutsOff, resolve_pin-CutsOff, follow_chain-CutsOff}

-- The cache and its contents are not part of what is recorded.
Precedes-cached :
    (w w' : World)
    → w'.sent ≡ w.sent
    → w'.resolved ≡ w.resolved
    → w'.slept ≡ w.slept
    → w'.progressed ≡ w.progressed
    → Precedes w w'
Precedes-cached w w' s r p g = record {
  sent = ([], s);
  resolved = ([], r);
  slept = ([], p);
  progressed = ([], g);
}

module _ (crates : Crates) (proxies : ProxyCrate crates) (env : Env)
    (request : HttpRequest crates proxies) where
  report-CutsOff :
      (done : ℕ) (total : Option ℕ)
      → CutsOff env
          (report crates proxies env request done total)
          (report crates proxies (undropped env) request done total)
  unfolding report CutsOff
  report-CutsOff done total w = elim (Bool-cases request.has_progress) [
    | inl e ↦ rw e (
      record {
        sent = ([], refl);
        resolved = ([], refl);
        slept = ([], refl);
        progressed = ((done, total) ∷ [], refl);
      },
      inl refl,
    )
    | inr e ↦ rw e (Precedes-refl w, inl refl)
  ]

  complete-CutsOff :
      (len : ℕ)
      → CutsOff env
          (report_complete crates proxies env request len)
          (report_complete crates proxies (undropped env) request len)
  unfolding report_complete
  complete-CutsOff len = report-CutsOff len (some len)

  acquire-CutsOff :
      CutsOff env
        (acquire crates proxies env request)
        (acquire crates proxies (undropped env) request)
  unfolding acquire awaited CutsOff
  acquire-CutsOff w = elim (Bool-cases request.has_limiter) [
    | inl e ↦ elim (Bool-cases (env.dropped w)) [
      | inl d ↦ rw (e, d) (Precedes-refl w, inr (refl, refl, Precedes-refl w))
      | inr d ↦ rw (e, d) (Precedes-refl w, inl refl)
    ]
    | inr e ↦ rw e (Precedes-refl w, inl refl)
  ]

  lookup_cache-CutsOff :
      CutsOff env
        (lookup_cache crates proxies env request)
        (lookup_cache crates proxies (undropped env) request)
  unfolding lookup_cache read_cache
  lookup_cache-CutsOff =
      CutsOff-same env _ _ (λ w. refl)
        λ w. Precedes-cached w _ (ground arith) (ground arith) (ground arith) (ground arith)

  etag-CutsOff :
      CutsOff env
        (conditional_etag crates proxies env request)
        (conditional_etag crates proxies (undropped env) request)
  unfolding conditional_etag
  etag-CutsOff = CutsOff-same env _ _ (λ w. refl) Precedes-refl

  update_cache-CutsOff :
      (response : HttpResponse)
      → CutsOff env
          (update_cache crates proxies env request response)
          (update_cache crates proxies (undropped env) request response)
  unfolding update_cache read_cache store
  update_cache-CutsOff response =
      CutsOff-same env _ _ (λ w. refl)
        λ w. Precedes-cached w _ (ground arith) (ground arith) (ground arith) (ground arith)

  finish-CutsOff :
      (outcome : Exchange)
      → CutsOff env
          (finish crates proxies env request outcome)
          (finish crates proxies (undropped env) request outcome)
  unfolding finish
  finish-CutsOff outcome = CutsOff-try env (refuse_status outcome.status) _ _ λ _.
      CutsOff-bind env _ _ _ _ (update_cache-CutsOff _) λ response.
        CutsOff-bind env _ _ _ _ (complete-CutsOff (length response.body))
          λ _. CutsOff-lift env (ok response)

  last_exchange-CutsOff :
      (pinned : Pinned) (outcome : Exchange)
      → CutsOff env
          (last_exchange crates proxies env request pinned outcome)
          (last_exchange crates proxies (undropped env) request pinned outcome)
  unfolding last_exchange
  last_exchange-CutsOff pinned outcome =
      CutsOff-if env request.redirect_policy.follow_redirects _ _ _ _
        (CutsOff-bind env _ _ _ _ (follow_chain-CutsOff crates proxies env request pinned outcome)
          λ final. CutsOff-lift env (ok_or final (internal_error (lit "out of fuel"))))
        (CutsOff-lift env (ok outcome))

  fetch-CutsOff :
      CutsOff env (fetch crates proxies env request) (fetch crates proxies (undropped env) request)
  unfolding fetch first_exchange pinned_addresses
  fetch-CutsOff = CutsOff-bind env _ _ _ _ etag-CutsOff λ etag.
      CutsOff-bind env _ _ _ _
        (resolve_pin-CutsOff crates proxies env request request.parsed_url.host
          request.parsed_url.port)
        λ pinned.
          CutsOff-bind env _ _ _ _
            (attempts-CutsOff env request.retry (retries_left request.retry) _ _ (
              send_target-CutsOff crates proxies env request pinned request.method request.url
                request.headers request.body etag))
            λ outcome.
              CutsOff-bind env _ _ _ _ (last_exchange-CutsOff pinned outcome)
                λ final. finish-CutsOff final

  serve_hit-CutsOff :
      (hit : HttpResponse)
      → CutsOff env
          (serve_hit crates proxies env request hit)
          (serve_hit crates proxies (undropped env) request hit)
  unfolding serve_hit
  serve_hit-CutsOff hit =
      CutsOff-bind env _ _ _ _ (complete-CutsOff (length hit.body)) λ _. CutsOff-lift env (ok hit)

  found-CutsOff :
      (found : Option HttpResponse)
      → CutsOff {A = HttpResponse} env
          (elim found [
            | some hit ↦ serve_hit crates proxies env request hit
            | none ↦ fetch crates proxies env request
          ])
          (elim found [
            | some hit ↦ serve_hit crates proxies (undropped env) request hit
            | none ↦ fetch crates proxies (undropped env) request
          ])
  found-CutsOff none = fetch-CutsOff
  found-CutsOff (some hit) = serve_hit-CutsOff hit

  pub execute_inner-CutsOff :
      CutsOff env
        (execute_inner crates proxies env request)
        (execute_inner crates proxies (undropped env) request)
  unfolding execute_inner
  execute_inner-CutsOff = CutsOff-try env (validate crates proxies request) _ _ λ _.
      CutsOff-bind env _ _ _ _ (report-CutsOff 0 _) λ _.
        CutsOff-bind env _ _ _ _ acquire-CutsOff
          λ _. CutsOff-bind env _ _ _ _ lookup_cache-CutsOff found-CutsOff
