-- ===== src/Builder/Sent.antt =====
-- What the requests of a builder send.
use beanstream.Prelude.{◌≡◌, refl, inl, inr, true, false, [], ◌∷◌, ◌++◌}
use beanstream.Text.{Str}
use beanstream.Error.{ok, refuse_if, >>=-eq-ok, refuse_if-eq-ok, Result-cases}
use beanstream.Crates.{Crates}
use beanstream.HeaderValidation.{is_blocked_header, sanitize_header}
use beanstream.ProxyConfig.{ProxyCrate}
use beanstream.UrlValidation.Validate.{validate_url}
use beanstream.Request.Execute.{execute_inner}
use beanstream.Request.{Method, HttpRequest, new, refuse_forbidden}
use beanstream.Request.World.{World, Env}
use beanstream.Request.Send.{InterceptorChain, Race}
use beanstream.Request.Send
use beanstream.Request.Vetted.{AllVetted}
use beanstream.Request.Vetted.Run.{execute_inner-AllVetted}
use beanstream.Request.Built.{IsWellFormed, new-IsWellFormed, refuse_forbidden-append}
use beanstream.Builder.{HttpClientBuilder, add_default_header}
use beanstream.Builder.Create
use beanstream.Builder.Create.{configure, create_request}
use beanstream.Builder.Scope.{create_request-IsConfigured}

module _ (crates : Crates) (proxies : ProxyCrate crates) where
  -- No default header is a forbidden one.
  abbrev pub IsClean : HttpClientBuilder crates proxies → Type 0
  IsClean b = refuse_forbidden crates proxies b.default_headers ≡ ok tt

  -- Where adding a default header succeeds, no default header is a forbidden one if none was before.
  pub add_default_header-IsClean :
      (name value : Str) (b extended : HttpClientBuilder crates proxies)
      → add_default_header crates proxies name value b ≡ ok extended
      → IsClean b
      → IsClean extended
  unfolding add_default_header
  add_default_header-IsClean name value b extended h clean =
      let (header, _, h1) = >>=-eq-ok (sanitize_header crates name value) _ h in
      let (_, e, h2) = >>=-eq-ok (refuse_if (is_blocked_header header.0) _) _ h1 in
      let same : extended ≡ (record b { default_headers = b.default_headers ++ header ∷ [] }) =
        cc in
      rw same (
        refuse_forbidden-append crates proxies b.default_headers header clean
          (refuse_if-eq-ok _ _ e))

  new-headers :
      (method : Method) (url : Str) (bare : HttpRequest crates proxies)
      → new crates proxies method url ≡ ok bare
      → (bare.headers ≡ []) × (bare.has_signal ≡ false)
  unfolding new
  new-headers method url bare h =
      let (p, valid, h1) = >>=-eq-ok (validate_url crates url) _ h in (cc, cc)

  -- With the check of private addresses on and no forbidden default header, a request that the
  -- builder creates has a validated URL, refuses private addresses and has no forbidden header.
  pub create_request-IsWellFormed :
      (b : HttpClientBuilder crates proxies) (method : Method) (target : Str)
      (request : HttpRequest crates proxies) (interceptors : InterceptorChain crates proxies)
      → b.check_private_ips ≡ true
      → IsClean b
      → create_request crates proxies b method target ≡ ok (request, interceptors)
      → IsWellFormed crates proxies request
  unfolding configure
  create_request-IsWellFormed b method target request interceptors on clean h =
      let c = create_request-IsConfigured crates proxies b method target request interceptors h in
      let w = new-IsWellFormed crates proxies method request.url c.bare c.built in
      let none_yet = (new-headers method request.url c.bare c.built).0 in
      rw c.configured (record {
        validated = w.validated;
        public_only = rw on refl;
        no_forbidden = rw none_yet clean;
      })

  module _ (env : Env) where
    run_with_signal-plain :
        (request : HttpRequest crates proxies) (race : Race) (w : World)
        → request.has_signal ≡ false
        → Send.run_with_signal crates proxies env request race w
          ≡ execute_inner crates proxies env request w
    unfolding Send.run_with_signal
    run_with_signal-plain request race w e = simp e refl

    -- Without a signal and interceptors, `send` leaves the world that `execute_inner` leaves.
    send-plain :
        (request : HttpRequest crates proxies) (race : Race) (w : World)
        → request.has_signal ≡ false
        → (Send.send crates proxies env [] request race w).1
          ≡ (execute_inner crates proxies env request w).1
    unfolding Send.send Send.run_on_request Send.run_on_response
    send-plain request race w e =
        elim (Result-cases (execute_inner crates proxies env request w).0) [
          | inl (response, k) ↦ rw (run_with_signal-plain request race w e, k) refl
          | inr (x, k) ↦ rw (run_with_signal-plain request race w e, k) refl
        ]

    -- With the check of private addresses on, no forbidden default header and no interceptor, all
    -- that `send` hands to a client for the request that it creates has a valid URL in the scope of
    -- that request, is pinned to addresses that are not blocked unless its host is an address, and
    -- has no forbidden header, where this holds of all that was sent before.
    pub send-AllVetted :
        (b : HttpClientBuilder crates proxies) (method : Method) (target : Str) (race : Race)
        (w : World) (request : HttpRequest crates proxies)
        (interceptors : InterceptorChain crates proxies)
        → b.check_private_ips ≡ true
        → IsClean b
        → b.interceptors ≡ []
        → create_request crates proxies b method target ≡ ok (request, interceptors)
        → AllVetted crates proxies request w
        → AllVetted crates proxies request (Create.send crates proxies env b method target race w).1
    unfolding Create.send configure
    send-AllVetted b method target race w request interceptors on clean plain h before =
        let c = create_request-IsConfigured crates proxies b method target request interceptors h in
        let good = create_request-IsWellFormed b method target request interceptors on clean h in
        let quiet : request.has_signal ≡ false =
          rw c.configured (new-headers method request.url c.bare c.built).1 in
        let sent =
          execute_inner-AllVetted crates proxies request env good.public_only good.validated w
            before in
        rw (h, c.carried, plain, send-plain request race w quiet) sent
