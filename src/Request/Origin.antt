-- ===== src/Request/Origin.antt =====
-- What leaves the origin of a request: neither its sensitive headers nor its body.
pub mod Hops
pub mod Run
use beanstream.Prelude.{
  ℕ, zero, suc, ◌+◌, ◌-◌, ◌*◌, ◌/◌, ◌%◌, ◌^◌, ◌≤◌, ◌<◌, min, max, code, String, ◌≡◌, refl, sym, ap,
  subst, ◌∙◌, ◌≢◌, ◌↔◌, ◌⊎◌, inl, inr, Bool, true, false, not, ◌&&◌, ◌||◌, Option, none, some, List,
  [], ◌∷◌, ◌++◌, map, reverse, arith, ltb, leb, ◌==◌, if◌then◌else◌, between, ==_iff, Bool-cases,
  Option-cases, length, any, all, find, keep, length-append, any-append, all-append, All, all_iff,
  All-keep, keep_of_All, keep_idempotent, All-append, All-map,
}
use beanstream.Text.{Str}
use beanstream.Error.{
  Result, ok, err, ok_or, ok_or-eq-ok, refuse_if, >>=-eq-ok, redirect_blocked, about,
}
use beanstream.Crates.{Crates, parsed, parse_error}
use beanstream.HeaderValidation.{Header, is_sensitive_header}
use beanstream.UrlValidation.Validate.{ParsedUrl, validate_url, parse_url}
use beanstream.UrlValidation.Validate.Safe.{parse_url-parses}
use beanstream.ProxyConfig.{ProxyCrate}
use beanstream.Request.{Method, HttpRequest}
use beanstream.Request.Exec.{
  Exec, pure, Ensures, Ensures-bind, Ensures-if, Ensures-pure, Ensures-try,
}
use beanstream.Request.World.{
  Pinned, ClientConfig, Outbound, Reply, RawResponse, received, timed_out, failed, body_failed,
  World, Env,
}
use beanstream.Request.Transport.{
  Exchange, awaited, read_reply, exchange, check_wire_headers, build_client, send_target,
}
use beanstream.Request.Transport.Pins.{resolve_pin-sent}
use beanstream.Request.Hop.{RedirectHop, location_of, rewrite_hop, validate_hop, plan_hop}
use beanstream.Request.Hop.Rewrite.{rewrite_hop-cross_origin}
use beanstream.Request.Sends.Each.{AllSent, quiet}
use beanstream.Request.Chain.{
  is_redirect, same_pin, ChainState, Round, finished, went_on, hop_pin, send_hop, chain_round,
  chain, follow_chain,
}

-- What the documentation of `url` and `reqwest` says: having the same origin is transitive, the text
-- of a URL that `join` makes parses to it, and a client that follows no redirect returns the URL
-- that it was given as the URL of the response.
pub record OriginLaws (crates : Crates) (env : Env) : Type 0 where
  pub same_origin_trans :
      (a b c : crates.Url)
      → crates.same_origin a b ≡ true
      → crates.same_origin b c ≡ true
      → crates.same_origin a c ≡ true
  pub parse-as_str :
      (base u : crates.Url) (location : Str)
      → crates.join base location ≡ some u
      → crates.parse (crates.as_str u) ≡ parsed u
  pub answers_for_target :
      (before : List Outbound) (out : Outbound) (r : RawResponse)
      → env.exchange before out ≡ received r
      → crates.parse r.url ≡ crates.parse out.target

module _ (crates : Crates) (proxies : ProxyCrate crates) (request : HttpRequest crates proxies)
    (env : Env) where
  open crates use {Url, as_str, parse, join, url_eq, same_origin}

  -- No sensitive header and no body.
  abbrev pub IsBare : List Header → Option Str → Type 0
  IsBare headers body = All (λ h. is_sensitive_header h.0 ≡ false) headers × (body ≡ none)

  -- A text with the URL of the request, or with one of the same origin.
  abbrev pub IsHome : Str → Type 0
  IsHome text =
      (parse text ≡ parse request.url)
      ⊎ ((first : Url) × (u : Url) × (parse request.url ≡ parsed first)
          × (parse text ≡ parsed u)
          × (same_origin first u ≡ true))

  -- What stays at home, or is bare.
  abbrev pub StaysHome : Str → List Header → Option Str → Type 0
  StaysHome text headers body = IsHome text ⊎ IsBare headers body

  abbrev pub KeepsHome : Outbound → Type 0
  KeepsHome out = StaysHome out.target out.headers out.body

  abbrev pub AllKeepHome : World → Type 0
  AllKeepHome w = All KeepsHome w.sent

  module _ (laws : OriginLaws crates env) where
    -- A reply has the URL of the target.
    exchange-Ensures :
        (timeout : ℕ) (out : Outbound)
        → KeepsHome out
        → Ensures AllKeepHome
            (exchange env timeout out)
            (λ reply. parse reply.url ≡ parse out.target)
    unfolding exchange Ensures awaited read_reply
    exchange-Ensures timeout out v w h = (
      (v, h),
      λ reply e.
          elim (env.exchange w.sent out)
              as (λ r.
                env.exchange w.sent out ≡ r
                → read_reply timeout r ≡ ok reply
                → parse reply.url ≡ parse out.target) [
                  | timed_out ↦ λ k l. absurd (cc l)
                  | failed x ↦ λ k l. absurd (cc l)
                  | body_failed x ↦ λ k l. absurd (cc l)
                  | received r ↦ λ k l.
                      let same : reply.url ≡ r.url = cc l in
                      rw same (laws.answers_for_target w.sent out r k)
                ]
            refl (ground (arith, e)),
    )

    pub send_target-Ensures :
        (pinned : Pinned) (method : Method) (target : Str) (headers : List Header)
        (body if_none_match : Option Str)
        → StaysHome target headers body
        → Ensures AllKeepHome
            (send_target crates proxies env request pinned method target headers body if_none_match)
            (λ reply. parse reply.url ≡ parse target)
    unfolding send_target
    send_target-Ensures pinned method target headers body if_none_match v =
        Ensures-try _ _ (build_client crates proxies env request pinned) _ λ client _.
          Ensures-try _ _ (check_wire_headers crates headers) _
            λ _ _. exchange-Ensures request.timeout _ v

    rewrite_hop-IsBare :
        (current next : Url) (status : ℕ) (method : Method) (headers : List Header)
        (body : Option Str)
        → same_origin current next ≡ true
        → IsBare headers body
        → let hop = rewrite_hop crates proxies request current next status method headers body in
          IsBare hop.headers hop.body
    unfolding rewrite_hop
    rewrite_hop-IsBare current next status method headers body same bare =
        (rw same bare.0, ground (arith, bare.1))

    -- The next hop, from where the chain is.
    pub rewrite_hop-StaysHome :
        (current next : Url) (text location : Str) (status : ℕ) (method : Method)
        (headers : List Header) (body : Option Str)
        → parse text ≡ parsed current
        → join current location ≡ some next
        → StaysHome text headers body
        → let hop = rewrite_hop crates proxies request current next status method headers body in
          StaysHome (as_str next) hop.headers hop.body
    rewrite_hop-StaysHome current next text location status method headers body e j h =
        elim (Bool-cases (same_origin current next)) [
          | inr crossed ↦ inr (
              rewrite_hop-cross_origin crates proxies request current next status method headers
                body crossed)
          | inl same ↦ elim h [
            | inl home ↦ inl (inr (stays same home))
            | inr bare ↦ inr (rewrite_hop-IsBare current next status method headers body same bare)
          ]
        ]
      where
        parses : parse (as_str next) ≡ parsed next
        parses = laws.parse-as_str current next location j

        stays :
            same_origin current next ≡ true
            → IsHome text
            → (first : Url) × (u : Url) × (parse request.url ≡ parsed first)
              × (parse (as_str next) ≡ parsed u)
              × (same_origin first u ≡ true)
        stays same (inl k) = (current, next, sym k ∙ e, parses, same)
        stays same (inr (first, u, k, l, m)) =
            let here : u ≡ current = cc (e, l) in
            let start : same_origin first current ≡ true = rw here at m in
            (first, next, k, parses, laws.same_origin_trans first current next start same)
