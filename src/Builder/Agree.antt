-- ===== src/Builder/Agree.antt =====
-- The two clients of a builder: that of `build`, and that which a created request builds.
use beanstream.Prelude.{
  ℕ, ◌≡◌, refl, sym, ap, ◌∙◌, inl, inr, not, Option, none, some, arith, Option-cases,
}
use beanstream.Error.{Result, ok, refuse_if, >>=-eq-ok}
use beanstream.Text.{Str}
use beanstream.Crates.{Crates}
use beanstream.Cookies.{cookie_store}
use beanstream.CertPinning.{CertPinConfig}
use beanstream.ProxyConfig.{ProxyCrate, apply, Routing}
use beanstream.UrlValidation.Validate.{validate_url}
use beanstream.Request.{Method, HttpRequest, new}
use beanstream.Request.World.{Pinned, ClientConfig, Env}
use beanstream.Request.Transport.{install_pins, build_client}
use beanstream.Request.Carried.{build_client-IsCarried, install_pins-eq-ok}
use beanstream.Request.Send.{InterceptorChain}
use beanstream.Builder.{
  HttpClientBuilder, ClientSettings, check_default_headers, apply_proxy, build, client_settings,
  finish,
}
use beanstream.Builder.Create.{configure, create_request}
use beanstream.Builder.Scope.{create_request-IsConfigured}

carried :
    {A : Type 0} (pins bare : Option A)
    → bare ≡ none
    → (elim pins [ none ↦ bare | some pinning ↦ some pinning ]) ≡ pins
carried none bare e = e
carried (some pinning) bare e = refl

module _ (crates : Crates) (proxies : ProxyCrate crates) (env : Env) where
  -- What a client is made of.
  record IsBuiltFor (timeout : ℕ) (cookies : Option ℕ) (pins : Option CertPinConfig)
      (routed : Result Routing) (client : ℕ × (Option ℕ × (Option CertPinConfig × Routing)))
      : Type 0 where
    same_timeout : client.0 ≡ timeout
    same_cookies : client.1.0 ≡ cookies
    same_pins : client.1.1.0 ≡ pins
    same_routing : routed ≡ ok client.1.1.1

  finish-eq-ok :
      (client_error : ClientSettings → Option Str) (client settings : ClientSettings)
      → finish crates proxies client_error client ≡ ok settings
      → settings ≡ client
  unfolding finish
  finish-eq-ok client_error client settings h = elim (Option-cases (client_error client)) [
    | inl n ↦ ground arith
    | inr (e, n) ↦ absurd (ground arith)
  ]

  build-IsBuiltFor :
      (client_error : ClientSettings → Option Str) (b : HttpClientBuilder crates proxies)
      (settings : ClientSettings)
      → build crates proxies env client_error b ≡ ok settings
      → IsBuiltFor b.timeout
          (cookie_store b.cookie_jar)
          b.cert_pinning
          (apply crates proxies env.variable b.proxy)
          (settings.timeout, (settings.cookies, (settings.pins, settings.routing)))
  unfolding build apply_proxy client_settings
  build-IsBuiltFor client_error b settings h =
      let (_, _, h1) = >>=-eq-ok (refuse_if (not (crates.header_value_ok b.user_agent)) _) _ h in
      let (_, _, h2) = >>=-eq-ok (check_default_headers crates proxies b.default_headers) _ h1 in
      let (routing, routed, h3) = >>=-eq-ok (apply crates proxies env.variable b.proxy) _ h2 in
      let (pins, installed, h4) = >>=-eq-ok (install_pins env b.cert_pinning) _ h3 in
      let same = install_pins-eq-ok env b.cert_pinning pins installed in
      let client = finish-eq-ok client_error _ settings h4 in
      record {
        same_timeout = ap (λ s. s.timeout) client;
        same_cookies = ap (λ s. s.cookies) client;
        same_pins = ap (λ s. s.pins) client ∙ same;
        same_routing = routed ∙ ap ok (sym (ap (λ s. s.routing) client));
      }

  new-cookie_jar :
      (method : Method) (url : Str) (bare : HttpRequest crates proxies)
      → new crates proxies method url ≡ ok bare
      → bare.cookie_jar ≡ none
  unfolding new
  new-cookie_jar method url bare h =
      let (p, valid, h1) = >>=-eq-ok (validate_url crates url) _ h in cc

  new-cert_pinning :
      (method : Method) (url : Str) (bare : HttpRequest crates proxies)
      → new crates proxies method url ≡ ok bare
      → bare.cert_pinning ≡ none
  unfolding new
  new-cert_pinning method url bare h =
      let (p, valid, h1) = >>=-eq-ok (validate_url crates url) _ h in cc

  -- Where both succeed, the client of `build` and the client that a created request builds have the
  -- same timeout and the same proxy routing, and both hold the builder's cookie store and pins.
  pub build-build_client :
      (client_error : ClientSettings → Option Str) (b : HttpClientBuilder crates proxies)
      (method : Method) (target : Str) (request : HttpRequest crates proxies)
      (interceptors : InterceptorChain crates proxies) (pinned : Pinned) (settings : ClientSettings)
      (config : ClientConfig)
      → build crates proxies env client_error b ≡ ok settings
      → create_request crates proxies b method target ≡ ok (request, interceptors)
      → build_client crates proxies env request pinned ≡ ok config
      → (config.timeout ≡ settings.timeout)
        × (config.routing ≡ settings.routing)
        × (config.cookies ≡ cookie_store b.cookie_jar)
        × (settings.cookies ≡ cookie_store b.cookie_jar)
        × (config.pins ≡ b.cert_pinning)
        × (settings.pins ≡ b.cert_pinning)
  unfolding configure
  build-build_client client_error b method target request interceptors pinned settings config h k
        l =
      let c = create_request-IsConfigured crates proxies b method target request interceptors k in
      let x = build-IsBuiltFor client_error b settings h in
      let y = build_client-IsCarried crates proxies request env pinned config l in
      let bare = new-cert_pinning method request.url c.bare c.built in
      let times : request.timeout ≡ b.timeout = rw c.configured refl in
      let routes : request.proxy ≡ b.proxy = rw c.configured refl in
      let no_jar = new-cookie_jar method request.url c.bare c.built in
      let jars : request.cookie_jar ≡ b.cookie_jar =
        rw c.configured (carried b.cookie_jar c.bare.cookie_jar no_jar) in
      let pins : request.cert_pinning ≡ b.cert_pinning =
        rw c.configured (carried b.cert_pinning c.bare.cert_pinning bare) in
      (
        y.same_timeout ∙ times ∙ sym x.same_timeout,
        cc (x.same_routing, y.same_routing, routes),
        y.same_cookies ∙ ap cookie_store jars,
        x.same_cookies,
        y.same_pins ∙ pins,
        x.same_pins,
      )
