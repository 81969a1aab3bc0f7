-- ===== src/Request/Carried.antt =====
-- What every client that a request builds has of the request: its timeout, its pins and its proxy.
pub mod Run
use beanstream.Prelude.{
  ℕ, zero, suc, ◌+◌, ◌-◌, ◌*◌, ◌/◌, ◌%◌, ◌^◌, ◌≤◌, ◌<◌, min, max, code, String, ◌≡◌, refl, sym, ap,
  subst, ◌∙◌, ◌≢◌, ◌↔◌, ◌⊎◌, inl, inr, Bool, true, false, not, ◌&&◌, ◌||◌, Option, none, some, List,
  [], ◌∷◌, ◌++◌, map, reverse, arith, ltb, leb, ◌==◌, if◌then◌else◌, between, ==_iff, Bool-cases,
  Option-cases, length, any, all, find, keep, length-append, any-append, all-append, All, all_iff,
  All-keep, keep_of_All, keep_idempotent, All-append, All-map,
}
use beanstream.Text.{Str}
use beanstream.Error.{Result, ok, err, >>=-eq-ok}
use beanstream.Crates.{Crates}
use beanstream.HeaderValidation.{Header}
use beanstream.UrlValidation.Validate.{ParsedUrl, validate_url, parse_url}
use beanstream.CertPinning.{CertPinConfig, build_rustls_config}
use beanstream.ProxyConfig.{ProxyCrate, apply}
use beanstream.Request.{Method, HttpRequest}
use beanstream.Request.Exec.{
  Exec, pure, Ensures, Ensures-lift, Ensures-bind, Ensures-if, Ensures-pure, Ensures-try,
}
use beanstream.Cookies.{cookie_store}
use beanstream.Request.World.{Pinned, ClientConfig, Outbound, World, Env}
use beanstream.Request.Transport.{
  Exchange, exchange, check_wire_headers, install_pins, finish_client, build_client, send_target,
  resolve_pin,
}
use beanstream.Request.Transport.Pins.{resolve_pin-sent}
use beanstream.Request.Hop.{RedirectHop, location_of, plan_hop}
use beanstream.Request.Chain.{
  is_redirect, same_pin, ChainState, Round, finished, went_on, hop_pin, send_hop, chain_round,
  chain, follow_chain,
}

pub install_pins-eq-ok :
    (env : Env) (pins installed : Option CertPinConfig)
    → install_pins env pins ≡ ok installed
    → installed ≡ pins
unfolding install_pins build_rustls_config
install_pins-eq-ok env none installed h = cc
install_pins-eq-ok env (some config) installed h = ground arith

module _ (crates : Crates) (proxies : ProxyCrate crates) (request : HttpRequest crates proxies)
    (env : Env) where
  open crates use {Url, as_str}

  -- The client has the request's timeout, its cookie store, its pins, and the routing of its proxy configuration.
  pub record IsCarried (client : ClientConfig) : Type 0 where
    pub same_timeout : client.timeout ≡ request.timeout
    pub same_cookies : client.cookies ≡ cookie_store request.cookie_jar
    pub same_pins : client.pins ≡ request.cert_pinning
    pub same_routing : apply crates proxies env.variable request.proxy ≡ ok client.routing

  abbrev pub AllCarried : World → Type 0
  AllCarried w = All (λ (out : Outbound). IsCarried out.client) w.sent

  finish_client-eq-ok :
      (client config : ClientConfig)
      → finish_client crates proxies env request client ≡ ok config
      → config ≡ client
  unfolding finish_client
  finish_client-eq-ok client config h = elim (Option-cases (env.client_error client)) [
    | inl n ↦ ground arith
    | inr (e, n) ↦ absurd (ground arith)
  ]

  pub build_client-IsCarried :
      (pinned : Pinned) (config : ClientConfig)
      → build_client crates proxies env request pinned ≡ ok config
      → IsCarried config
  unfolding build_client
  build_client-IsCarried pinned config h =
      let (pins, installed, h1) = >>=-eq-ok (install_pins env request.cert_pinning) _ h in
      let (routing, routed, h2) =
        >>=-eq-ok (apply crates proxies env.variable request.proxy) _ h1 in
      let same = install_pins-eq-ok env request.cert_pinning pins installed in
      let client = finish_client-eq-ok _ config h2 in
      record {
        same_timeout = ap (λ c. c.timeout) client;
        same_cookies = ap (λ c. c.cookies) client;
        same_pins = ap (λ c. c.pins) client ∙ same;
        same_routing = routed ∙ ap ok (sym (ap (λ c. c.routing) client));
      }

  exchange-Ensures :
      (timeout : ℕ) (out : Outbound)
      → IsCarried out.client
      → Ensures AllCarried (exchange env timeout out) (λ _. Unit)
  unfolding exchange Ensures
  exchange-Ensures timeout out v w h = ((v, h), λ _ _. tt)

  pub send_target-Ensures :
      (pinned : Pinned) (method : Method) (target : Str) (headers : List Header)
      (body if_none_match : Option Str)
      → Ensures AllCarried
          (send_target crates proxies env request pinned method target headers body if_none_match)
          (λ _. Unit)
  unfolding send_target
  send_target-Ensures pinned method target headers body if_none_match =
      Ensures-try _ _ (build_client crates proxies env request pinned) _ λ client built.
        Ensures-try _ _ (check_wire_headers crates headers) _
          λ _ _. exchange-Ensures request.timeout _ (build_client-IsCarried pinned client built)

  -- Code that hands nothing to a client keeps what was handed over.
  pub quiet :
      {A : Type 0} (m : Exec World A)
      → ((w : World) → (m w).1.sent ≡ w.sent)
      → Ensures AllCarried m (λ _. Unit)
  unfolding Ensures
  quiet m k w h = (rw (k w) h, λ _ _. tt)

  hop_pin-Ensures :
      (pinned : Pinned) (target : ParsedUrl)
      → Ensures AllCarried (hop_pin crates proxies env request pinned target) (λ _. Unit)
  unfolding hop_pin
  hop_pin-Ensures pinned target =
      Ensures-if _ _ (same_pin pinned request.parsed_url.port target) _ _
        (λ _. Ensures-pure _ (λ _. Unit) pinned tt)
        (λ _. quiet _ (resolve_pin-sent crates proxies env request target.host target.port))

  send_hop-Ensures :
      (pinned : Pinned) (visited : List Url) (hop : RedirectHop crates proxies)
      → Ensures AllCarried (send_hop crates proxies env request pinned visited hop) (λ _. Unit)
  unfolding send_hop
  send_hop-Ensures pinned visited hop =
      Ensures-try _ _ (validate_url crates (as_str hop.url)) _ λ target _.
        Ensures-bind _ (λ _. Unit) _ _ _ (hop_pin-Ensures pinned target)
          λ hop_pinned _.
            Ensures-bind _ (λ _. Unit) _ _ _
              (send_target-Ensures hop_pinned hop.method (as_str hop.url) hop.headers hop.body none)
              λ reply _. Ensures-pure _ (λ _. Unit) _ tt

  chain_round-Ensures :
      (pinned : Pinned) (s : ChainState crates proxies)
      → Ensures AllCarried (chain_round crates proxies env request pinned s) (λ _. Unit)
  unfolding chain_round
  chain_round-Ensures pinned s =
      Ensures-if _ _ (not (is_redirect s.current.status)) _ _ (λ _. Ensures-pure _ (λ _. Unit) _ tt)
        λ _. Ensures-try _ _ (location_of s.current.headers s.current.status) _ λ location _.
          Ensures-try _ _ (parse_url crates s.current.url) _ λ current _.
            let planned =
              plan_hop crates proxies request s.visited current s.current.status location s.method
                s.headers s.body in
            Ensures-try _ _ planned _ λ hop _. send_hop-Ensures pinned s.visited hop

  chain-Ensures :
      (n : ℕ) (pinned : Pinned) (s : ChainState crates proxies)
      → Ensures AllCarried (chain crates proxies env request n pinned s) (λ _. Unit)
  unfolding chain
  chain-Ensures zero pinned s = Ensures-pure _ (λ _. Unit) none tt
  chain-Ensures (suc n) pinned s =
      Ensures-bind _ (λ _. Unit) _ _ _ (chain_round-Ensures pinned s)
        λ round _.
          elim round
            as (λ r.
              Ensures {A = Option Exchange} AllCarried
                (elim r [
                  | finished reply ↦ pure (some reply)
                  | went_on s' ↦ chain crates proxies env request n pinned s'
                ])
                (λ _. Unit)) [
                  | finished reply ↦ Ensures-pure _ (λ _. Unit) (some reply) tt
                  | went_on s' ↦ chain-Ensures n pinned s'
                ]

  pub follow_chain-Ensures :
      (pinned : Pinned) (outcome : Exchange)
      → Ensures AllCarried (follow_chain crates proxies env request pinned outcome) (λ _. Unit)
  unfolding follow_chain
  follow_chain-Ensures pinned outcome =
      Ensures-try _ _ (parse_url crates request.url) _
        λ first _. chain-Ensures (suc request.redirect_policy.max_redirects) pinned _
