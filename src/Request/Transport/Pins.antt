-- ===== src/Request/Transport/Pins.antt =====
-- What a target is pinned to.
use beanstream.Prelude.{
  ℕ, ◌≡◌, refl, inl, inr, false, none, some, List, [], ◌∷◌, arith, Option-cases, All,
}
use beanstream.Text.{Str}
use beanstream.Net.{IpAddr}
use beanstream.Error.{BeanStreamError, Result, ok, err, Result-cases}
use beanstream.Error
use beanstream.Crates.{Crates}
use beanstream.UrlValidation.Ip.{is_blocked_ip}
use beanstream.UrlValidation.Validate.{ValidatedHost}
use beanstream.UrlValidation.Resolve.{refuse_blocked}
use beanstream.ProxyConfig.{ProxyCrate, apply}
use beanstream.Request.{HttpRequest}
use beanstream.Request.World.{SocketAddr, Pinned, ClientConfig, World, Env}
use beanstream.Request.Transport.{
  resolve, with_port, pin_addresses, resolve_pin, install_pins, finish_client, build_client,
}

module _ (crates : Crates) where
  -- A host that is an address needs no pin; a name is pinned, under that name, to addresses that
  -- are not refused.
  abbrev pub IsPinnedFor : ValidatedHost → Pinned → Type 0
  IsPinnedFor host none = (a : IpAddr) × (host.ip_addr ≡ some a)
  IsPinnedFor host (some (name, addresses)) =
      (name ≡ host.host) × All (λ (a : SocketAddr). is_blocked_ip crates a.0 ≡ false) addresses

  refuse_blocked-All :
      (port : ℕ) (addresses : List IpAddr)
      → refuse_blocked crates addresses ≡ ok tt
      → All (λ (a : SocketAddr). is_blocked_ip crates a.0 ≡ false) (with_port port addresses)
  unfolding refuse_blocked
  refuse_blocked-All port [] h = tt
  refuse_blocked-All port (a ∷ addresses) h =
      (ground arith, refuse_blocked-All port addresses (ground arith))

module _ (crates : Crates) (proxies : ProxyCrate crates) (env : Env) where
  resolve-sent : (name : Str) (w : World) → (resolve env name w).1.sent ≡ w.sent
  unfolding resolve
  resolve-sent name w = refl

  module _ (request : HttpRequest crates proxies) where
    pub build_client-pinned :
        (pinned : Pinned) (c : ClientConfig)
        → build_client crates proxies env request pinned ≡ ok c
        → c.pinned ≡ pinned
    unfolding build_client finish_client
    build_client-pinned pinned c h =
        let (pins, e, h') = Error.>>=-eq-ok (install_pins env request.cert_pinning) _ h in
        let (routing, e', h'') =
          Error.>>=-eq-ok (apply crates proxies env.variable request.proxy) _ h' in
        ground arith

    pub resolve_pin-sent :
        (host : ValidatedHost) (port : ℕ) (w : World)
        → (resolve_pin crates proxies env request host port w).1.sent ≡ w.sent
    unfolding resolve_pin
    resolve_pin-sent host port w = elim (Option-cases host.ip_addr) [
      | inl n ↦
          let same = resolve-sent host.host w in
          elim (Result-cases (resolve env host.host w).0) [
            | inl (addresses, e) ↦ ground (arith, same)
            | inr (x, e) ↦ ground (arith, same)
          ]
      | inr (a, e) ↦ ground arith
    ]

    module _ (public_only : request.allow_private_addresses ≡ false) where
      pin_addresses-IsPinnedFor :
          (host : ValidatedHost) (port : ℕ) (addresses : List IpAddr) (pinned : Pinned)
          → pin_addresses crates proxies env request host.host port addresses ≡ ok pinned
          → IsPinnedFor crates host pinned
      unfolding pin_addresses
      pin_addresses-IsPinnedFor host port addresses pinned h =
          elim (Result-cases (refuse_blocked crates addresses)) [
            | inl (u, e) ↦
                let same : pinned ≡ some (host.host, with_port port addresses) = ground arith in
                rw same (refl, refuse_blocked-All crates port addresses e)
            | inr (x, e) ↦ absurd (ground arith)
          ]

      pub resolve_pin-IsPinnedFor :
          (host : ValidatedHost) (port : ℕ) (w : World) (pinned : Pinned)
          → (resolve_pin crates proxies env request host port w).0 ≡ ok pinned
          → IsPinnedFor crates host pinned
      unfolding resolve_pin
      resolve_pin-IsPinnedFor host port w pinned h = elim (Option-cases host.ip_addr) [
        | inl n ↦ elim (Result-cases (resolve env host.host w).0) [
          | inl (addresses, e) ↦ pin_addresses-IsPinnedFor host port addresses pinned (ground arith)
          | inr (x, e) ↦ absurd (ground arith)
        ]
        | inr (a, e) ↦ let same : pinned ≡ none = ground arith in rw same (a, e)
      ]
