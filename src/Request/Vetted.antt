-- ===== src/Request/Vetted.antt =====
-- What every request handed to a client has been checked for.
pub mod Hops
pub mod Run
use beanstream.Prelude.{
  ℕ, zero, suc, ◌+◌, ◌-◌, ◌*◌, ◌/◌, ◌%◌, ◌^◌, ◌≤◌, ◌<◌, min, max, code, String, ◌≡◌, refl, sym, ap,
  subst, ◌∙◌, ◌≢◌, ◌↔◌, ◌⊎◌, inl, inr, Bool, true, false, not, ◌&&◌, ◌||◌, Option, none, some, List,
  [], ◌∷◌, ◌++◌, map, reverse, arith, ltb, leb, ◌==◌, if◌then◌else◌, between, ==_iff, Bool-cases,
  Option-cases, length, any, all, find, keep, length-append, any-append, all-append, All, all_iff,
  All-keep, keep_of_All, keep_idempotent, All-append, All-map,
}
use beanstream.Text.{Str}
use beanstream.Error.{Result, ok, err}
use beanstream.Error
use beanstream.Crates.{Crates}
use beanstream.HeaderValidation.{Header, is_blocked_header}
use beanstream.UrlValidation.Validate.{ParsedUrl, validate_url, ValidatedHost}
use beanstream.RedirectPolicy.Scope.{check_url}
use beanstream.ProxyConfig.{ProxyCrate}
use beanstream.Request.{Method, HttpRequest, refuse_forbidden}
use beanstream.Request.Exec.{Exec, ◌>>=◌, lift, Ensures, Ensures-lift, Ensures-bind}
use beanstream.Request.World.{Pinned, ClientConfig, Outbound, World, Env}
use beanstream.Request.Transport.{
  resolve_pin, Exchange, exchange, check_wire_headers, build_client, send_target,
}
use beanstream.Request.Transport.Pins.{
  IsPinnedFor, build_client-pinned, resolve_pin-IsPinnedFor, resolve_pin-sent,
}

module _ (crates : Crates) (proxies : ProxyCrate crates)
    (request : HttpRequest crates proxies) where
  -- The target is a valid URL in the scope of the request, the client is pinned for its host, and
  -- no header is a forbidden one.
  abbrev pub IsVettedFor : Pinned → Str → List Header → Type 0
  IsVettedFor pinned target headers =
      ((p : ParsedUrl) × (validate_url crates target ≡ ok p) × IsPinnedFor crates p.host pinned)
      × (check_url crates request.scope_validator target ≡ ok tt)
      × (refuse_forbidden crates proxies headers ≡ ok tt)

  abbrev pub IsVetted : Outbound → Type 0
  IsVetted out = IsVettedFor out.client.pinned out.target out.headers

  abbrev pub AllVetted : World → Type 0
  AllVetted w = All IsVetted w.sent

  module _ (env : Env) where
    exchange-Ensures :
        (timeout : ℕ) (out : Outbound)
        → IsVetted out
        → Ensures AllVetted (exchange env timeout out) (λ _. Unit)
    unfolding exchange Ensures
    exchange-Ensures timeout out v w h = ((v, h), λ _ _. tt)

    pub send_target-Ensures :
        (pinned : Pinned) (method : Method) (target : Str) (headers : List Header)
        (body if_none_match : Option Str)
        → IsVettedFor pinned target headers
        → Ensures AllVetted
            (send_target crates proxies env request pinned method target headers body if_none_match)
            (λ _. Unit)
    unfolding send_target
    send_target-Ensures pinned method target headers body if_none_match v =
        Ensures-bind AllVetted (λ c. build_client crates proxies env request pinned ≡ ok c)
          (λ _. Unit) _ _ (Ensures-lift AllVetted _)
          λ client built.
            Ensures-bind AllVetted (λ u. check_wire_headers crates headers ≡ ok u) (λ _. Unit) _ _
              (Ensures-lift AllVetted _)
              λ _ _.
                exchange-Ensures request.timeout _
                  (rw (build_client-pinned crates proxies env request pinned client built) v)

    pub resolve_pin-Ensures :
        request.allow_private_addresses ≡ false
        → (host : ValidatedHost) (port : ℕ)
        → Ensures AllVetted
            (resolve_pin crates proxies env request host port)
            (λ pinned. IsPinnedFor crates host pinned)
    unfolding Ensures
    resolve_pin-Ensures public_only host port w h = (
      rw (resolve_pin-sent crates proxies env request host port w) h,
      λ pinned e.
          resolve_pin-IsPinnedFor crates proxies env request public_only host port w pinned e,
    )
