-- ===== src/Request/Chain.antt =====
-- `follow_chain` of request_handler.rs. The loop runs on fuel, and `none` means that it ran out.
pub mod Length
use beanstream.Prelude.{
  ℕ, zero, suc, ◌+◌, ◌-◌, ◌*◌, ◌/◌, ◌%◌, ◌^◌, ◌≤◌, ◌<◌, min, max, code, String, ◌≡◌, refl, sym, ap,
  subst, ◌∙◌, ◌≢◌, ◌↔◌, ◌⊎◌, inl, inr, Bool, true, false, not, ◌&&◌, ◌||◌, Option, none, some, List,
  [], ◌∷◌, ◌++◌, map, reverse, arith, ltb, leb, ◌==◌, if◌then◌else◌, between, ==_iff, Bool-cases,
  Option-cases, length, any, all, find, keep, length-append, any-append, all-append, All, all_iff,
  All-keep, keep_of_All, keep_idempotent, All-append, All-map,
}
use beanstream.Text.{Str, str_eq}
use beanstream.Error.{Result, ok, err}
use beanstream.Crates.{Crates}
use beanstream.HeaderValidation.{Header}
use beanstream.UrlValidation.Validate.{ParsedUrl, parse_url, validate_url}
use beanstream.ProxyConfig.{ProxyCrate}
use beanstream.Request.{Method, HttpRequest}
use beanstream.Request.Exec.{Exec, pure, raise, lift, ◌>>=◌}
use beanstream.Request.World.{Pinned, World, Env}
use beanstream.Request.Transport.{Exchange, resolve_pin, send_target}
use beanstream.Request.Hop.{RedirectHop, location_of, plan_hop}

-- `(300..400).contains(status) && *status != 304`
unfoldable pub is_redirect : ℕ → Bool
is_redirect status = leb 300 status && ltb status 400 && not (status == 304)

-- The host and the port are those that the request itself was pinned for.
unfoldable pub same_pin : Pinned → ℕ → ParsedUrl → Bool
same_pin none port target = false
same_pin (some (host, addresses)) port target = str_eq host target.host.host && target.port == port

module _ (crates : Crates) (proxies : ProxyCrate crates) where
  open crates use {Url, as_str}

  -- The variables of the loop.
  pub record ChainState : Type 0 where
    pub current : Exchange
    pub visited : List Url
    pub method : Method
    pub headers : List Header
    pub body : Option Str

  pub data Round : Type 0 where
    finished : Exchange → Round
    went_on : ChainState → Round

  module _ (env : Env) (request : HttpRequest crates proxies) where
    unfoldable pub hop_pin : Pinned → ParsedUrl → Exec World Pinned
    hop_pin pinned target =
        if same_pin pinned request.parsed_url.port target
        then pure pinned
        else resolve_pin crates proxies env request target.host target.port

    unfoldable pub send_hop : Pinned → List Url → RedirectHop crates proxies → Exec World Round
    send_hop pinned visited hop = do
      target ← lift (validate_url crates (as_str hop.url))
      hop_pinned ← hop_pin pinned target
      reply ←
          send_target crates proxies env request hop_pinned hop.method (as_str hop.url) hop.headers
            hop.body none
      pure (
          went_on (record {
            current = reply;
            visited = visited ++ hop.url ∷ [];
            method = hop.method;
            headers = hop.headers;
            body = hop.body;
          }))

    -- One round of the loop.
    unfoldable pub chain_round : Pinned → ChainState → Exec World Round
    chain_round pinned s =
        if not (is_redirect s.current.status) then pure (finished s.current) else do
          location ← lift (location_of s.current.headers s.current.status)
          current_url ← lift (parse_url crates s.current.url)
          hop ← lift (
              plan_hop crates proxies request s.visited current_url s.current.status location
                s.method s.headers s.body)
          send_hop pinned s.visited hop

    unfoldable pub chain : ℕ → Pinned → ChainState → Exec World (Option Exchange)
    chain zero pinned s = pure none
    chain (suc n) pinned s = do
      round ← chain_round pinned s
      elim round [ finished reply ↦ pure (some reply) | went_on s' ↦ chain n pinned s' ]

    -- The first URL, then at most `max_redirects` rounds that go on, and one that ends the loop.
    unfoldable pub follow_chain : Pinned → Exchange → Exec World (Option Exchange)
    follow_chain pinned outcome = do
      first ← lift (parse_url crates request.url)
      chain (suc request.redirect_policy.max_redirects) pinned (record {
        current = outcome;
        visited = first ∷ [];
        method = request.method;
        headers = request.headers;
        body = request.body;
      })
