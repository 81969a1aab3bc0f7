-- ===== src/Request/Origin/Hops.antt =====
-- The hops of a redirect chain stay at home, or are bare.
use beanstream.Prelude.{ℕ, zero, suc, ◌≡◌, ◌∙◌, inl, inr, not, Option, none, some, List, any}
use beanstream.Text.{Str}
use beanstream.Error.{ok, ok_or, ok_or-eq-ok, refuse_if, >>=-eq-ok}
use beanstream.Crates.{Crates}
use beanstream.HeaderValidation.{Header}
use beanstream.UrlValidation.Validate.{ParsedUrl, validate_url, parse_url}
use beanstream.UrlValidation.Validate.Safe.{parse_url-parses}
use beanstream.ProxyConfig.{ProxyCrate}
use beanstream.Request.{Method, HttpRequest}
use beanstream.Request.Exec.{pure, Ensures, Ensures-bind, Ensures-if, Ensures-pure, Ensures-try}
use beanstream.Request.World.{Pinned, World, Env}
use beanstream.Request.Transport.{Exchange}
use beanstream.Request.Transport.Pins.{resolve_pin-sent}
use beanstream.Request.Hop.{RedirectHop, location_of, rewrite_hop, validate_hop, plan_hop}
use beanstream.Request.Sends.Each.{quiet}
use beanstream.Request.Chain.{
  is_redirect, same_pin, ChainState, Round, finished, went_on, hop_pin, send_hop, chain_round,
  chain, follow_chain,
}
use beanstream.Request.Origin.{
  OriginLaws, StaysHome, KeepsHome, AllKeepHome, send_target-Ensures, rewrite_hop-StaysHome,
}

module _ (crates : Crates) (proxies : ProxyCrate crates) (request : HttpRequest crates proxies)
    (env : Env) (laws : OriginLaws crates env) where
  open crates use {Url, as_str, parse, join, url_eq, same_origin}

  abbrev Home : Str → List Header → Option Str → Type 0
  Home = StaysHome crates proxies request env

  abbrev Sent : World → Type 0
  Sent = AllKeepHome crates proxies request env

  plan_hop-Home :
      (visited : List Url) (text : Str) (current : Url) (status : ℕ) (location : Str)
      (method : Method) (headers : List Header) (body : Option Str)
      (hop : RedirectHop crates proxies)
      → parse_url crates text ≡ ok current
      → plan_hop crates proxies request visited current status location method headers body ≡ ok hop
      → Home text headers body
      → Home (as_str hop.url) hop.headers hop.body
  unfolding plan_hop rewrite_hop
  plan_hop-Home visited text current status location method headers body hop e h home =
      let (next, joined, h1) = >>=-eq-ok (ok_or (join current location) _) _ h in
      let (_, _, h2) = >>=-eq-ok (refuse_if (any (λ seen. url_eq seen next) visited) _) _ h1 in
      let (_, _, h3) = >>=-eq-ok (validate_hop crates proxies request visited next) _ h2 in
      let same : hop ≡ rewrite_hop crates proxies request current next status method headers body =
        cc in
      let kept =
        rewrite_hop-StaysHome crates proxies request env laws current next text location status
          method headers body (parse_url-parses crates text current e)
          (ok_or-eq-ok (join current location) _ joined) home in
      rw same kept

  abbrev RoundHome : Round crates proxies → Type 0
  RoundHome (finished reply) = Unit
  RoundHome (went_on s) = Home s.current.url s.headers s.body

  StaysHome-parse :
      (reply target : Str) (headers : List Header) (body : Option Str)
      → parse reply ≡ parse target
      → Home target headers body
      → Home reply headers body
  StaysHome-parse reply target headers body e (inl (inl k)) = inl (inl (e ∙ k))
  StaysHome-parse reply target headers body e (inl (inr (first, u, k, l, m))) =
      inl (inr (first, u, k, e ∙ l, m))
  StaysHome-parse reply target headers body e (inr bare) = inr bare

  hop_pin-Ensures :
      (pinned : Pinned) (target : ParsedUrl)
      → Ensures Sent (hop_pin crates proxies env request pinned target) (λ _. Unit)
  unfolding hop_pin
  hop_pin-Ensures pinned target =
      Ensures-if _ _ (same_pin pinned request.parsed_url.port target) _ _
        (λ _. Ensures-pure _ (λ _. Unit) pinned tt)
        (λ _.
          quiet crates proxies request env (KeepsHome crates proxies request env) (λ _. Unit) _
            (resolve_pin-sent crates proxies env request target.host target.port))

  send_hop-Ensures :
      (pinned : Pinned) (visited : List Url) (hop : RedirectHop crates proxies)
      → Home (as_str hop.url) hop.headers hop.body
      → Ensures Sent (send_hop crates proxies env request pinned visited hop) RoundHome
  unfolding send_hop
  send_hop-Ensures pinned visited hop home =
      Ensures-try _ _ (validate_url crates (as_str hop.url)) _ λ target _.
        Ensures-bind _ (λ _. Unit) _ _ _ (hop_pin-Ensures pinned target)
          λ hop_pinned _.
            Ensures-bind _ (λ reply. parse reply.url ≡ parse (as_str hop.url)) _ _ _
              (send_target-Ensures crates proxies request env laws hop_pinned hop.method
                (as_str hop.url) hop.headers hop.body none home)
              λ reply e.
                Ensures-pure _ RoundHome _
                  (StaysHome-parse reply.url (as_str hop.url) hop.headers hop.body e home)

  chain_round-Ensures :
      (pinned : Pinned) (s : ChainState crates proxies)
      → Home s.current.url s.headers s.body
      → Ensures Sent (chain_round crates proxies env request pinned s) RoundHome
  unfolding chain_round
  chain_round-Ensures pinned s home =
      Ensures-if _ _ (not (is_redirect s.current.status)) _ _
        (λ _. Ensures-pure _ RoundHome (finished s.current) tt)
        λ _. Ensures-try _ _ (location_of s.current.headers s.current.status) _ λ location _.
          Ensures-try _ _ (parse_url crates s.current.url) _ λ current e.
            let planned =
              plan_hop crates proxies request s.visited current s.current.status location s.method
                s.headers s.body in
            Ensures-try _ _ planned _ λ hop k. send_hop-Ensures pinned s.visited hop (
              plan_hop-Home s.visited s.current.url current s.current.status location s.method
                s.headers s.body hop e k home)

  chain-Ensures :
      (n : ℕ) (pinned : Pinned) (s : ChainState crates proxies)
      → Home s.current.url s.headers s.body
      → Ensures Sent (chain crates proxies env request n pinned s) (λ _. Unit)
  unfolding chain
  chain-Ensures zero pinned s home = Ensures-pure _ (λ _. Unit) none tt
  chain-Ensures (suc n) pinned s home =
      Ensures-bind _ RoundHome _ _ _ (chain_round-Ensures pinned s home) λ round.
        elim round
          as (λ r.
            RoundHome r
            → Ensures {A = Option Exchange} Sent
                (elim r [
                  | finished reply ↦ pure (some reply)
                  | went_on s' ↦ chain crates proxies env request n pinned s'
                ])
                (λ _. Unit)) [
                  | finished reply ↦ λ _. Ensures-pure _ (λ _. Unit) (some reply) tt
                  | went_on s' ↦ λ l. chain-Ensures n pinned s' l
                ]

  pub follow_chain-Ensures :
      (pinned : Pinned) (outcome : Exchange)
      → parse outcome.url ≡ parse request.url
      → Ensures Sent (follow_chain crates proxies env request pinned outcome) (λ _. Unit)
  unfolding follow_chain
  follow_chain-Ensures pinned outcome e =
      Ensures-try _ _ (parse_url crates request.url) _
        λ first _. chain-Ensures (suc request.redirect_policy.max_redirects) pinned _ (inl (inl e))
