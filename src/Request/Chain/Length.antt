-- ===== src/Request/Chain/Length.antt =====
-- How long a redirect chain gets, and that its fuel is enough.
use beanstream.Prelude.{
  ℕ, zero, suc, ◌+◌, ◌≤◌, ◌<◌, ◌≡◌, refl, ◌≢◌, inl, inr, false, not, Option, none, some, List, [],
  ◌∷◌, arith, Bool-cases, length, any, length-append,
}
use beanstream.Text.{Str}
use beanstream.Error.{ok, >>=-eq-ok, ok_or, refuse_if}
use beanstream.Crates.{Crates}
use beanstream.HeaderValidation.{Header}
use beanstream.UrlValidation.Validate.{validate_url, parse_url}
use beanstream.RedirectPolicy.Policy.{check_redirect}
use beanstream.RedirectPolicy.Policy.Rules.{check_redirect_iff}
use beanstream.ProxyConfig.{ProxyCrate}
use beanstream.Request.{Method, HttpRequest}
use beanstream.Request.Exec.{
  Exec, pure, Ensures, Ensures-try, Ensures-pure, Ensures-bind, Ensures-if,
}
use beanstream.Request.World.{Pinned, World, Env}
use beanstream.Request.Transport.{Exchange, send_target}
use beanstream.Request.Hop.{RedirectHop, location_of, validate_hop, rewrite_hop, plan_hop}
use beanstream.Request.Chain.{
  is_redirect, ChainState, Round, finished, went_on, hop_pin, send_hop, chain_round, chain,
  follow_chain,
}

module _ (crates : Crates) (proxies : ProxyCrate crates)
    (request : HttpRequest crates proxies) where
  open crates use {Url, as_str, url_eq}

  -- A hop is planned only while fewer than `max_redirects` URLs have been visited, and only to a
  -- URL that is none of them.
  pub plan_hop-new :
      (visited : List Url) (current : Url) (status : ℕ) (location : Str) (method : Method)
      (headers : List Header) (body : Option Str) (hop : RedirectHop crates proxies)
      → plan_hop crates proxies request visited current status location method headers body ≡ ok hop
      → (length visited < request.redirect_policy.max_redirects)
        × (any (λ seen. url_eq seen hop.url) visited ≡ false)
  unfolding plan_hop validate_hop rewrite_hop
  plan_hop-new visited current status location method headers body hop h =
      let (next, _, h1) = >>=-eq-ok (ok_or (crates.join current location) _) _ h in
      let (_, new, h2) = >>=-eq-ok (refuse_if (any (λ seen. url_eq seen next) visited) _) _ h1 in
      let (u, e, h3) = >>=-eq-ok (validate_hop crates proxies request visited next) _ h2 in
      let (_, accepted, _) =
        >>=-eq-ok (check_redirect crates request.redirect_policy visited next) _ e in
      let same : hop ≡ rewrite_hop crates proxies request current next status method headers body =
        cc in
      rw same (
        ((check_redirect_iff crates request.redirect_policy visited next).0 accepted).in_length,
        elim (Bool-cases (any (λ seen. url_eq seen next) visited)) [
          | inl t ↦ absurd (ground arith)
          | inr f ↦ f
        ],
      )

  module _ (env : Env) where
    abbrev pub Always : World → Type 0
    Always w = Unit

    -- A round that goes on visits one more URL, and was allowed to.
    abbrev pub IsLonger : List Url → Round crates proxies → Type 0
    IsLonger visited (finished reply) = Unit
    IsLonger visited (went_on s) =
        (length s.visited ≡ suc (length visited))
        × (length visited < request.redirect_policy.max_redirects)

    anything : {A : Type 0} (m : Exec World A) → Ensures Always m (λ _. Unit)
    unfolding Ensures
    anything m w h = (tt, λ _ _. tt)

    pub chain_round-IsLonger :
        (pinned : Pinned) (s : ChainState crates proxies)
        → Ensures Always (chain_round crates proxies env request pinned s) (IsLonger s.visited)
    unfolding chain_round send_hop
    chain_round-IsLonger pinned s =
        Ensures-if _ _ (not (is_redirect s.current.status)) _ _
          (λ _. Ensures-pure _ (IsLonger s.visited) (finished s.current) tt)
          λ _. Ensures-try _ _ (location_of s.current.headers s.current.status) _ λ location _.
            Ensures-try _ _ (parse_url crates s.current.url) _ λ current _.
              let planned =
                plan_hop crates proxies request s.visited current s.current.status location s.method
                  s.headers s.body in
              Ensures-try _ _ planned _ λ hop e.
                Ensures-try _ _ (validate_url crates (as_str hop.url)) _ λ target _.
                  Ensures-bind _ (λ _. Unit) _ (hop_pin crates proxies env request pinned target) _
                    (anything (hop_pin crates proxies env request pinned target))
                    λ hop_pinned _.
                      Ensures-bind _ (λ _. Unit) _
                        (send_target crates proxies env request hop_pinned hop.method
                          (as_str hop.url) hop.headers hop.body none)
                        _
                        (anything (
                          send_target crates proxies env request hop_pinned hop.method
                            (as_str hop.url) hop.headers hop.body none))
                        λ reply _. Ensures-pure _ (IsLonger s.visited) _ (
                          omega (arith, length-append s.visited (hop.url ∷ [])),
                          (plan_hop-new s.visited current s.current.status location s.method
                              s.headers s.body hop e).0,
                        )

    chain-total :
        (n : ℕ) (pinned : Pinned) (s : ChainState crates proxies)
        → request.redirect_policy.max_redirects < n + length s.visited
        → length s.visited ≤ request.redirect_policy.max_redirects + n
        → Ensures Always (chain crates proxies env request n pinned s) (λ r. r ≢ none)
    unfolding chain
    chain-total zero pinned s enough fits = absurd (omega arith)
    chain-total (suc n) pinned s enough fits =
        Ensures-bind _ (IsLonger s.visited) _ _ _ (chain_round-IsLonger pinned s) λ round.
          elim round
            as (λ r.
              IsLonger s.visited r
              → Ensures {A = Option Exchange} Always
                  (elim r [
                    | finished reply ↦ pure (some reply)
                    | went_on s' ↦ chain crates proxies env request n pinned s'
                  ])
                  (λ r. r ≢ none)) [
                    | finished reply ↦
                        λ _. Ensures-pure _ (λ r. r ≢ none) (some reply) (λ e. ground arith)
                    | went_on s' ↦ λ l. chain-total n pinned s' (omega arith) (omega arith)
                  ]

    -- The loop of `follow_chain` ends: whatever the servers answer, the fuel that it is given is
    -- enough, so that it never returns the value which stands for a loop cut short.
    pub follow_chain-total :
        (pinned : Pinned) (outcome : Exchange) (w : World)
        → (follow_chain crates proxies env request pinned outcome w).0 ≢ ok none
    unfolding follow_chain Ensures
    follow_chain-total pinned outcome w h =
        (Ensures-try Always (λ r. r ≢ none) (parse_url crates request.url) _
            (λ first _.
              chain-total (suc request.redirect_policy.max_redirects) pinned _ (omega arith)
                (omega arith))
            w tt).1
          none h refl
