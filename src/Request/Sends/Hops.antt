-- ===== src/Request/Sends/Hops.antt =====
-- The requests of a redirect chain.
use beanstream.Prelude.{
  ℕ, zero, suc, ◌+◌, ◌-◌, ◌≤◌, ◌<◌, ◌≡◌, refl, ◌⊎◌, inl, inr, true, false, none, List, arith,
  if◌then◌else◌, Bool-cases, length,
}
use beanstream.Error.{ok, Result-cases}
use beanstream.Crates.{Crates}
use beanstream.UrlValidation.Validate.{ParsedUrl, validate_url, parse_url}
use beanstream.ProxyConfig.{ProxyCrate}
use beanstream.Request.{HttpRequest}
use beanstream.Request.Exec.{pure, Ensures}
use beanstream.Request.World.{Pinned, World, Env}
use beanstream.Request.Transport.{Exchange, resolve_pin}
use beanstream.Request.Hop.{RedirectHop, location_of, plan_hop}
use beanstream.Request.Chain.{
  is_redirect, same_pin, ChainState, finished, went_on, hop_pin, send_hop, chain_round, chain,
  follow_chain,
}
use beanstream.Request.Chain.Length.{plan_hop-new, chain_round-IsLonger}
use beanstream.Request.Sends.{
  SendsAtMost, SendsAtMost-lift, SendsAtMost-bind, SendsAtMost-after, send_target-SendsAtMost,
  resolve_pin-SendsAtMost,
}

module _ (crates : Crates) (proxies : ProxyCrate crates) (env : Env)
    (request : HttpRequest crates proxies) where
  open crates use {Url, as_str}

  hop_pin-SendsAtMost :
      (pinned : Pinned) (target : ParsedUrl)
      → SendsAtMost 0 (hop_pin crates proxies env request pinned target)
  unfolding hop_pin
  hop_pin-SendsAtMost pinned target =
      elim (same_pin pinned request.parsed_url.port target)
        as (λ b. SendsAtMost {A = Pinned} 0 (
          if b
          then pure pinned
          else resolve_pin crates proxies env request target.host target.port)) [
            | true ↦ SendsAtMost-lift (ok pinned)
            | false ↦ resolve_pin-SendsAtMost crates proxies env request target.host target.port
          ]

  send_hop-SendsAtMost :
      (pinned : Pinned) (visited : List Url) (hop : RedirectHop crates proxies)
      → SendsAtMost 1 (send_hop crates proxies env request pinned visited hop)
  unfolding send_hop
  send_hop-SendsAtMost pinned visited hop =
      SendsAtMost-bind 0 1 _ _ (SendsAtMost-lift (validate_url crates (as_str hop.url))) λ target.
        SendsAtMost-bind 0 1 _ _ (hop_pin-SendsAtMost pinned target) λ hop_pinned.
          SendsAtMost-bind 1 0 _ _
            (send_target-SendsAtMost crates proxies env request hop_pinned hop.method
              (as_str hop.url) hop.headers hop.body none)
            λ reply. SendsAtMost-lift (ok _)

  send_hop-sent :
      (pinned : Pinned) (visited : List Url) (hop : RedirectHop crates proxies) (w : World)
      → length (send_hop crates proxies env request pinned visited hop w).1.sent ≤ length w.sent + 1
  unfolding SendsAtMost
  send_hop-sent pinned visited hop w = send_hop-SendsAtMost pinned visited hop w

  abbrev SendsIfShort : ChainState crates proxies → World → World → Type 0
  SendsIfShort s w w' =
      (length w'.sent ≤ length w.sent)
      ⊎ ((length s.visited < request.redirect_policy.max_redirects)
          × (length w'.sent ≤ length w.sent + 1))

  chain_round-SendsIfShort :
      (pinned : Pinned) (s : ChainState crates proxies) (w : World)
      → SendsIfShort s w (chain_round crates proxies env request pinned s w).1
  unfolding chain_round
  chain_round-SendsIfShort pinned s w =
      let located = location_of s.current.headers s.current.status in
      elim (Bool-cases (is_redirect s.current.status)) [
        | inr f ↦ inl (ground arith)
        | inl t ↦ elim (Result-cases located) [
          | inr (x, e) ↦ inl (ground arith)
          | inl (location, e) ↦ elim (Result-cases (parse_url crates s.current.url)) [
            | inr (x, k) ↦ inl (ground arith)
            | inl (current, k) ↦
                elim (Result-cases (
                  plan_hop crates proxies request s.visited current s.current.status location
                    s.method s.headers s.body)) [
                      | inr (x, l) ↦ inl (ground arith)
                      | inl (hop, l) ↦
                          let new =
                            plan_hop-new crates proxies request s.visited current s.current.status
                              location s.method s.headers s.body hop l in
                          let sends = send_hop-sent pinned s.visited hop w in
                          inr (new.0, ground arith)
                    ]
          ]
        ]
      ]

  round-IsLonger :
      (pinned : Pinned) (s s' : ChainState crates proxies) (w : World)
      → (chain_round crates proxies env request pinned s w).0 ≡ ok (went_on s')
      → (length s'.visited ≡ suc (length s.visited))
        × (length s.visited < request.redirect_policy.max_redirects)
  unfolding Ensures
  round-IsLonger pinned s s' w e =
      (chain_round-IsLonger crates proxies request env pinned s w tt).1 (went_on s') e

  chain-sent :
      (n : ℕ) (pinned : Pinned) (s : ChainState crates proxies) (w : World)
      → length (chain crates proxies env request n pinned s w).1.sent
        ≤ length w.sent + (request.redirect_policy.max_redirects - length s.visited)
  unfolding chain
  chain-sent zero pinned s w = omega arith
  chain-sent (suc n) pinned s w =
      let round = chain_round crates proxies env request pinned s w in
      let sends = chain_round-SendsIfShort pinned s w in
      elim (Result-cases round.0) [
        | inr (x, e) ↦ ground (arith, sends)
        | inl (finished reply, e) ↦ ground (arith, sends)
        | inl (went_on s', e) ↦
            let longer = round-IsLonger pinned s s' w e in
            let rest = chain-sent n pinned s' round.1 in ground (arith, sends, longer, rest)
      ]

  chain-SendsAtMost :
      (n : ℕ) (pinned : Pinned) (s : ChainState crates proxies)
      → length s.visited ≡ 1
      → SendsAtMost
          (request.redirect_policy.max_redirects - 1)
          (chain crates proxies env request n pinned s)
  unfolding SendsAtMost
  chain-SendsAtMost n pinned s one w =
      let sends = chain-sent n pinned s w in omega (arith, one, sends)

  -- A chain whose first URL is the request's own sends at most `max_redirects - 1` requests.
  pub follow_chain-SendsAtMost :
      (pinned : Pinned) (outcome : Exchange)
      → SendsAtMost
          (request.redirect_policy.max_redirects - 1)
          (follow_chain crates proxies env request pinned outcome)
  unfolding follow_chain
  follow_chain-SendsAtMost pinned outcome =
      SendsAtMost-after (request.redirect_policy.max_redirects - 1) _ _
        (SendsAtMost-lift (parse_url crates request.url))
        λ first. chain-SendsAtMost (suc request.redirect_policy.max_redirects) pinned _ refl
