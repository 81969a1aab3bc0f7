-- ===== src/Request/Vetted/Hops.antt =====
-- The hops of a redirect chain.
use beanstream.Prelude.{
  ℕ, zero, suc, ◌≡◌, refl, inl, inr, true, false, not, Option, none, some, List, [], ◌∷◌, arith,
  Bool-cases, any,
}
use beanstream.Text.{Str}
use beanstream.Text.Laws.{str_eq_iff}
use beanstream.Error.{ok, >>=-eq-ok, ok_or, refuse_if}
use beanstream.Crates.{Crates}
use beanstream.HeaderValidation.{Header}
use beanstream.UrlValidation.Validate.{ParsedUrl, validate_url, parse_url}
use beanstream.RedirectPolicy.Policy.{check_redirect}
use beanstream.RedirectPolicy.Scope.{check_url}
use beanstream.ProxyConfig.{ProxyCrate}
use beanstream.Request.{Method, HttpRequest, refuse_forbidden}
use beanstream.Request.Exec.{pure, Ensures, Ensures-try, Ensures-pure, Ensures-bind, Ensures-if}
use beanstream.Request.World.{Pinned, Env}
use beanstream.Request.Transport.{Exchange}
use beanstream.Request.Transport.Pins.{IsPinnedFor}
use beanstream.Request.Hop.{
  RedirectHop, location_of, strip_sensitive, validate_hop, rewrite_hop, plan_hop,
}
use beanstream.Request.Chain.{
  is_redirect, same_pin, ChainState, Round, finished, went_on, hop_pin, send_hop, chain_round,
  chain, follow_chain,
}
use beanstream.Request.Vetted.{AllVetted, send_target-Ensures, resolve_pin-Ensures}

module _ (crates : Crates) (proxies : ProxyCrate crates)
    (request : HttpRequest crates proxies) where
  open crates use {Url, as_str, same_origin}

  refuse_forbidden-strip_sensitive :
      (headers : List Header)
      → refuse_forbidden crates proxies headers ≡ ok tt
      → refuse_forbidden crates proxies (strip_sensitive headers) ≡ ok tt
  unfolding strip_sensitive refuse_forbidden
  refuse_forbidden-strip_sensitive [] h = refl
  refuse_forbidden-strip_sensitive ((name, value) ∷ headers) h =
      let ih = refuse_forbidden-strip_sensitive headers (ground arith) in ground arith

  rewrite_hop-forbidden :
      (current next : Url) (status : ℕ) (method : Method) (headers : List Header)
      (body : Option Str)
      → refuse_forbidden crates proxies headers ≡ ok tt
      → refuse_forbidden crates proxies
          (rewrite_hop crates proxies request current next status method headers body).headers
        ≡ ok tt
  unfolding rewrite_hop
  rewrite_hop-forbidden current next status method headers body h =
      let ih = refuse_forbidden-strip_sensitive headers h in
      elim (Bool-cases (same_origin current next)) [ inl e ↦ ground arith | inr e ↦ ground arith ]

  -- What a planned hop has been checked for.
  abbrev IsPlanned : RedirectHop crates proxies → Type 0
  IsPlanned hop =
      (check_url crates request.scope_validator (as_str hop.url) ≡ ok tt)
      × (refuse_forbidden crates proxies hop.headers ≡ ok tt)

  plan_hop-IsPlanned :
      (visited : List Url) (current : Url) (status : ℕ) (location : Str) (method : Method)
      (headers : List Header) (body : Option Str) (hop : RedirectHop crates proxies)
      → refuse_forbidden crates proxies headers ≡ ok tt
      → plan_hop crates proxies request visited current status location method headers body ≡ ok hop
      → IsPlanned hop
  unfolding plan_hop validate_hop rewrite_hop
  plan_hop-IsPlanned visited current status location method headers body hop clean h =
      let (next, _, h1) = >>=-eq-ok (ok_or (crates.join current location) _) _ h in
      let (_, _, h2) =
        >>=-eq-ok (refuse_if (any (λ seen. crates.url_eq seen next) visited) _) _ h1 in
      let (u, e, h3) = >>=-eq-ok (validate_hop crates proxies request visited next) _ h2 in
      let (_, _, e1) = >>=-eq-ok (check_redirect crates request.redirect_policy visited next) _ e in
      let (_, _, e2) = >>=-eq-ok (validate_url crates (as_str next)) _ e1 in
      let same : hop ≡ rewrite_hop crates proxies request current next status method headers body =
        cc in
      rw same (e2, rewrite_hop-forbidden current next status method headers body clean)

  module _ (env : Env) (public_only : request.allow_private_addresses ≡ false) where
    -- The request's own pin serves a hop to the host and the port it was made for.
    same_pin-IsPinnedFor :
        (pinned : Pinned) (target : ParsedUrl)
        → IsPinnedFor crates request.parsed_url.host pinned
        → same_pin pinned request.parsed_url.port target ≡ true
        → IsPinnedFor crates target.host pinned
    unfolding same_pin
    same_pin-IsPinnedFor none target p h = absurd (ground arith)
    same_pin-IsPinnedFor (some (name, addresses)) target p h =
        ((str_eq_iff name target.host.host).0 (ground arith), p.1)

    hop_pin-Ensures :
        (pinned : Pinned) (target : ParsedUrl)
        → IsPinnedFor crates request.parsed_url.host pinned
        → Ensures
            (AllVetted crates proxies request)
            (hop_pin crates proxies env request pinned target)
            (λ p. IsPinnedFor crates target.host p)
    unfolding hop_pin
    hop_pin-Ensures pinned target p =
        Ensures-if _ _ (same_pin pinned request.parsed_url.port target) _ _
          (λ e. Ensures-pure _ _ pinned (same_pin-IsPinnedFor pinned target p e))
          (λ _. resolve_pin-Ensures crates proxies request env public_only target.host target.port)

    -- The headers that the loop carries on hold no forbidden one.
    abbrev IsCleanRound : Round crates proxies → Type 0
    IsCleanRound (finished reply) = Unit
    IsCleanRound (went_on s) = refuse_forbidden crates proxies s.headers ≡ ok tt

    send_hop-Ensures :
        (pinned : Pinned) (visited : List Url) (hop : RedirectHop crates proxies)
        → IsPinnedFor crates request.parsed_url.host pinned
        → IsPlanned hop
        → Ensures
            (AllVetted crates proxies request)
            (send_hop crates proxies env request pinned visited hop)
            IsCleanRound
    unfolding send_hop
    send_hop-Ensures pinned visited hop p planned =
        Ensures-try _ _ (validate_url crates (as_str hop.url)) _ λ target valid.
          Ensures-bind _ (λ q. IsPinnedFor crates target.host q) _ _ _
            (hop_pin-Ensures pinned target p)
            λ hop_pinned q.
              Ensures-bind _ (λ _. Unit) _ _ _
                (send_target-Ensures crates proxies request env hop_pinned hop.method
                  (as_str hop.url) hop.headers hop.body none
                  ((target, valid, q), planned.0, planned.1))
                λ reply _. Ensures-pure _ IsCleanRound _ planned.1

    chain_round-Ensures :
        (pinned : Pinned) (s : ChainState crates proxies)
        → IsPinnedFor crates request.parsed_url.host pinned
        → refuse_forbidden crates proxies s.headers ≡ ok tt
        → Ensures
            (AllVetted crates proxies request)
            (chain_round crates proxies env request pinned s)
            IsCleanRound
    unfolding chain_round
    chain_round-Ensures pinned s p clean =
        Ensures-if _ _ (not (is_redirect s.current.status)) _ _
          (λ _. Ensures-pure _ IsCleanRound _ tt)
          λ _. Ensures-try _ _ (location_of s.current.headers s.current.status) _ λ location _.
            Ensures-try _ _ (parse_url crates s.current.url) _ λ current _.
              let planned =
                plan_hop crates proxies request s.visited current s.current.status location s.method
                  s.headers s.body in
              Ensures-try _ _ planned _ λ hop e. send_hop-Ensures pinned s.visited hop p (
                plan_hop-IsPlanned s.visited current s.current.status location s.method s.headers
                  s.body hop clean e)

    chain-Ensures :
        (n : ℕ) (pinned : Pinned) (s : ChainState crates proxies)
        → IsPinnedFor crates request.parsed_url.host pinned
        → refuse_forbidden crates proxies s.headers ≡ ok tt
        → Ensures
            (AllVetted crates proxies request)
            (chain crates proxies env request n pinned s)
            (λ _. Unit)
    unfolding chain
    chain-Ensures zero pinned s p clean = Ensures-pure _ _ none tt
    chain-Ensures (suc n) pinned s p clean =
        Ensures-bind _ IsCleanRound _ _ _ (chain_round-Ensures pinned s p clean) λ round.
          elim round
            as (λ r.
              IsCleanRound r
              → Ensures {A = Option Exchange} (AllVetted crates proxies request)
                  (elim r [
                    | finished reply ↦ pure (some reply)
                    | went_on s' ↦ chain crates proxies env request n pinned s'
                  ])
                  (λ _. Unit)) [
                    | finished reply ↦ λ _. Ensures-pure _ (λ _. Unit) (some reply) tt
                    | went_on s' ↦ λ c. chain-Ensures n pinned s' p c
                  ]

    pub follow_chain-Ensures :
        (pinned : Pinned) (outcome : Exchange)
        → IsPinnedFor crates request.parsed_url.host pinned
        → refuse_forbidden crates proxies request.headers ≡ ok tt
        → Ensures
            (AllVetted crates proxies request)
            (follow_chain crates proxies env request pinned outcome)
            (λ _. Unit)
    unfolding follow_chain
    follow_chain-Ensures pinned outcome p clean =
        Ensures-try _ _ (parse_url crates request.url) _
          λ first _. chain-Ensures (suc request.redirect_policy.max_redirects) pinned _ p clean
