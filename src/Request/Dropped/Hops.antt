-- ===== src/Request/Dropped/Hops.antt =====
-- The exchanges and the redirects of a request whose future is dropped.
use beanstream.Prelude.{
  ℕ, zero, suc, ◌≡◌, refl, inl, inr, not, Option, none, some, List, [], ◌∷◌, Bool-cases,
  Option-cases,
}
use beanstream.Text.{Str}
use beanstream.Error.{Result, ok}
use beanstream.Crates.{Crates}
use beanstream.HeaderValidation.{Header}
use beanstream.UrlValidation.Validate.{ValidatedHost, ParsedUrl, parse_url, validate_url}
use beanstream.ProxyConfig.{ProxyCrate}
use beanstream.Request.{Method, HttpRequest}
use beanstream.Request.Exec.{Exec, pure}
use beanstream.Request.World.{Pinned, Outbound, World, Env}
use beanstream.Request.Transport.{
  awaited, resolve, pin_addresses, resolve_pin, Exchange, exchange, check_wire_headers,
  build_client, send_target,
}
use beanstream.Request.Hop.{RedirectHop, location_of, plan_hop}
use beanstream.Request.Chain.{
  is_redirect, same_pin, ChainState, Round, finished, went_on, hop_pin, send_hop, chain_round,
  chain, follow_chain,
}
use beanstream.Request.Dropped.{
  undropped, Precedes, Precedes-refl, CutsOff, CutsOff-lift, CutsOff-bind, CutsOff-try, CutsOff-if,
}

-- What records first and then waits is not dropped, or stops as aborted in the world that it made.
recorded-CutsOff :
    {A : Type 0} (env : Env) (answer : World → Result A) (record_it : World → World)
    → ((w : World) → Precedes w (record_it w))
    → CutsOff env
        (λ w. (awaited env (record_it w) (answer w), record_it w))
        (λ w. (awaited (undropped env) (record_it w) (answer w), record_it w))
unfolding CutsOff awaited
recorded-CutsOff env answer record_it grows w = (
  grows w,
  elim (Bool-cases (env.dropped (record_it w))) [
    | inl d ↦ rw d (inr (refl, refl, Precedes-refl (record_it w)))
    | inr d ↦ rw d (inl refl)
  ],
)

module _ (crates : Crates) (proxies : ProxyCrate crates) (env : Env)
    (request : HttpRequest crates proxies) where
  open crates use {Url, as_str}

  resolve-CutsOff : (name : Str) → CutsOff env (resolve env name) (resolve (undropped env) name)
  unfolding resolve
  resolve-CutsOff name = recorded-CutsOff env _ _ λ w. record {
    sent = ([], refl);
    resolved = (name ∷ [], refl);
    slept = ([], refl);
    progressed = ([], refl);
  }

  exchange-CutsOff :
      (timeout : ℕ) (out : Outbound)
      → CutsOff env (exchange env timeout out) (exchange (undropped env) timeout out)
  unfolding exchange
  exchange-CutsOff timeout out = recorded-CutsOff env _ _ λ w. record {
    sent = (out ∷ [], refl);
    resolved = ([], refl);
    slept = ([], refl);
    progressed = ([], refl);
  }

  build_client-undropped :
      (pinned : Pinned)
      → build_client crates proxies (undropped env) request pinned
        ≡ build_client crates proxies env request pinned
  unfolding build_client
  build_client-undropped pinned = refl

  pub send_target-CutsOff :
      (pinned : Pinned) (method : Method) (target : Str) (headers : List Header)
      (body if_none_match : Option Str)
      → CutsOff env
          (send_target crates proxies env request pinned method target headers body if_none_match)
          (send_target crates proxies
            (undropped env)
            request
            pinned
            method
            target
            headers
            body
            if_none_match)
  unfolding send_target
  send_target-CutsOff pinned method target headers body if_none_match =
      rw (build_client-undropped pinned) (
        CutsOff-try env (build_client crates proxies env request pinned) _ _ λ client.
          CutsOff-try env (check_wire_headers crates headers) _ _
            λ _. exchange-CutsOff request.timeout _)

  pub resolve_pin-CutsOff :
      (host : ValidatedHost) (port : ℕ)
      → CutsOff env
          (resolve_pin crates proxies env request host port)
          (resolve_pin crates proxies (undropped env) request host port)
  unfolding resolve_pin pin_addresses
  resolve_pin-CutsOff host port = elim (Option-cases host.ip_addr) [
    | inl n ↦ rw n (
        CutsOff-bind env _ _ _ _ (resolve-CutsOff host.host) λ addresses.
          CutsOff-lift env (pin_addresses crates proxies env request host.host port addresses))
    | inr (a, e) ↦ rw e (CutsOff-lift env (ok none))
  ]

  hop_pin-CutsOff :
      (pinned : Pinned) (target : ParsedUrl)
      → CutsOff env
          (hop_pin crates proxies env request pinned target)
          (hop_pin crates proxies (undropped env) request pinned target)
  unfolding hop_pin
  hop_pin-CutsOff pinned target =
      CutsOff-if env (same_pin pinned request.parsed_url.port target) _ _ _ _
        (CutsOff-lift env (ok pinned)) (resolve_pin-CutsOff target.host target.port)

  send_hop-CutsOff :
      (pinned : Pinned) (visited : List Url) (hop : RedirectHop crates proxies)
      → CutsOff env
          (send_hop crates proxies env request pinned visited hop)
          (send_hop crates proxies (undropped env) request pinned visited hop)
  unfolding send_hop
  send_hop-CutsOff pinned visited hop =
      CutsOff-try env (validate_url crates (as_str hop.url)) _ _ λ target.
        CutsOff-bind env _ _ _ _ (hop_pin-CutsOff pinned target) λ hop_pinned.
          CutsOff-bind env _ _ _ _
            (send_target-CutsOff hop_pinned hop.method (as_str hop.url) hop.headers hop.body none)
            λ reply. CutsOff-lift env (ok _)

  chain_round-CutsOff :
      (pinned : Pinned) (s : ChainState crates proxies)
      → CutsOff env
          (chain_round crates proxies env request pinned s)
          (chain_round crates proxies (undropped env) request pinned s)
  unfolding chain_round
  chain_round-CutsOff pinned s =
      CutsOff-if env (not (is_redirect s.current.status)) _ _ _ _ (CutsOff-lift env (ok _)) (
        CutsOff-try env (location_of s.current.headers s.current.status) _ _ λ location.
          CutsOff-try env (parse_url crates s.current.url) _ _ λ current.
            CutsOff-try env
              (plan_hop crates proxies request s.visited current s.current.status location s.method
                s.headers s.body)
              _ _ λ hop. send_hop-CutsOff pinned s.visited hop)

  next_round-CutsOff :
      (m n : ChainState crates proxies → Exec World (Option Exchange))
      → ((s : ChainState crates proxies) → CutsOff env (m s) (n s))
      → (round : Round crates proxies)
      → CutsOff {A = Option Exchange} env
          (elim round [ finished reply ↦ pure (some reply) | went_on s ↦ m s ])
          (elim round [ finished reply ↦ pure (some reply) | went_on s ↦ n s ])
  next_round-CutsOff m n h (finished reply) = CutsOff-lift env (ok (some reply))
  next_round-CutsOff m n h (went_on s) = h s

  chain-CutsOff :
      (n : ℕ) (pinned : Pinned) (s : ChainState crates proxies)
      → CutsOff env
          (chain crates proxies env request n pinned s)
          (chain crates proxies (undropped env) request n pinned s)
  unfolding chain
  chain-CutsOff zero pinned s = CutsOff-lift env (ok none)
  chain-CutsOff (suc n) pinned s =
      CutsOff-bind env _ _ _ _ (chain_round-CutsOff pinned s)
        (next_round-CutsOff _ _ λ s'. chain-CutsOff n pinned s')

  pub follow_chain-CutsOff :
      (pinned : Pinned) (outcome : Exchange)
      → CutsOff env
          (follow_chain crates proxies env request pinned outcome)
          (follow_chain crates proxies (undropped env) request pinned outcome)
  unfolding follow_chain
  follow_chain-CutsOff pinned outcome =
      CutsOff-try env (parse_url crates request.url) _ _
        λ first. chain-CutsOff (suc request.redirect_policy.max_redirects) pinned _
