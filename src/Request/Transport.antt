-- ===== src/Request/Transport.antt =====
-- `resolve_pin`, `build_client` and `send_target` of request_handler.rs.
pub mod Pins
use beanstream.Prelude.{
  ℕ, zero, suc, ◌+◌, ◌-◌, ◌*◌, ◌/◌, ◌%◌, ◌^◌, ◌≤◌, ◌<◌, min, max, code, String, ◌≡◌, refl, sym, ap,
  subst, ◌∙◌, ◌≢◌, ◌↔◌, ◌⊎◌, inl, inr, Bool, true, false, not, ◌&&◌, ◌||◌, Option, none, some, List,
  [], ◌∷◌, ◌++◌, map, reverse, arith, ltb, leb, ◌==◌, if◌then◌else◌, between, ==_iff, Bool-cases,
  Option-cases, length, any, all, find, keep, length-append, any-append, all-append, All, all_iff,
  All-keep, keep_of_All, keep_idempotent, All-append, All-map,
}
use beanstream.Text.{Str, codes}
use beanstream.Net.{IpAddr}
use beanstream.Error.{
  BeanStreamError, Result, ok, err, invalid_configuration, invalid_host, header_error,
  network_timeout, request_failed, request_aborted, lit, about,
}
use beanstream.Error
use beanstream.Crates.{Crates}
use beanstream.HeaderValidation.{Header}
use beanstream.UrlValidation.Validate.{ValidatedHost}
use beanstream.UrlValidation.Resolve.{resolve_host, refuse_blocked}
use beanstream.Cookies.{cookie_store}
use beanstream.CertPinning.{CertPinConfig, build_rustls_config}
use beanstream.ProxyConfig.{ProxyCrate, apply}
use beanstream.Request.{Method, HttpRequest}
use beanstream.Request.Exec.{Exec, pure, raise, lift, ◌>>=◌}
use beanstream.Request.World.{
  SocketAddr, Pinned, ClientConfig, Outbound, RawResponse, Reply, timed_out, failed, body_failed,
  received, World, Env,
}

-- What an `await` gives that has left this world: the answer, unless the future is dropped.
unfoldable pub awaited {ℓ} : {A : Type ℓ} → Env → World → Result A → Result A
awaited env w answer = if env.dropped w then err request_aborted else answer

-- `tokio::net::lookup_host` and the loop of `resolve_host`
unfoldable pub resolve : Env → Str → Exec World (List IpAddr)
resolve env name w =
    let after = record w { resolved = name ∷ w.resolved } in
    (awaited env after (resolve_host name (env.lookup_host w.resolved name)), after)

abbrev pub with_port : ℕ → List IpAddr → List SocketAddr
with_port port addresses = map (λ a. (a, port)) addresses

abbrev is_empty : List IpAddr → Bool
is_empty [] = true
is_empty (a ∷ addresses) = false

-- `HeaderName::from_bytes` and `HeaderValue::from_str` on each header
unfoldable pub check_wire_headers : Crates → List Header → Result (Unit {0})
check_wire_headers crates [] = ok tt
check_wire_headers crates ((name, value) ∷ headers) =
    let rest = check_wire_headers crates headers in
    if not (crates.header_name_ok name)
    then err (header_error (lit "Invalid header name"))
    else if not (crates.header_value_ok value)
    then err (header_error (lit "Invalid header value"))
    else rest

-- `(k.to_string(), v.to_str().unwrap_or("").to_string())`
unfoldable pub text_headers : List (Str × Option Str) → List Header
text_headers [] = []
text_headers ((k, none) ∷ headers) = (k, []) ∷ text_headers headers
text_headers ((k, some v) ∷ headers) = (k, v) ∷ text_headers headers

-- `(status, headers, body, url)`
pub record Exchange : Type 0 where
  pub status : ℕ
  pub headers : List Header
  pub body : List ℕ
  pub url : Str

unfoldable pub read_reply : ℕ → Reply → Result Exchange
unfolding text_headers
read_reply timeout timed_out = err (network_timeout (timeout % 2 ^ 64))
read_reply timeout (failed e) = err (request_failed (about "{}" (e ∷ [])))
read_reply timeout (body_failed e) = err (request_failed (about "{}" (e ∷ [])))
read_reply timeout (received r) =
    ok (record { status = r.status; headers = text_headers r.headers; body = r.body; url = r.url })

-- `request.send().await`: the exchange is recorded, and time passes.
unfoldable pub exchange : Env → ℕ → Outbound → Exec World Exchange
unfolding read_reply
exchange env timeout out w =
    let after = record w { sent = out ∷ w.sent; now = w.now + env.duration (out ∷ w.sent) } in
    (awaited env after (read_reply timeout (env.exchange w.sent out)), after)

-- The pins to install: an error where they cannot be installed.
unfoldable pub install_pins : Env → Option CertPinConfig → Result (Option CertPinConfig)
install_pins env none = ok none
install_pins env (some pinning) =
    if env.rustls_tls
    then Error.◌>>=◌ (build_rustls_config env.webpki_error pinning) (λ c. ok (some c))
    else err (invalid_configuration (lit "Certificate pinning requires the 'rustls-tls' feature"))

module _ (crates : Crates) (proxies : ProxyCrate crates) (env : Env) where
  module _ (request : HttpRequest crates proxies) where
    -- What is resolved is checked before it is pinned, unless private addresses are allowed.
    unfoldable pub pin_addresses : Str → ℕ → List IpAddr → Result Pinned
    pin_addresses name port addresses =
        if is_empty addresses
        then err (invalid_host (about "Host '{name}' did not resolve to an address" (name ∷ [])))
        else Error.◌>>=◌
            (if request.allow_private_addresses then ok tt else refuse_blocked crates addresses)
            (λ _. ok (some (name, with_port port addresses)))

    unfoldable pub resolve_pin : ValidatedHost → ℕ → Exec World Pinned
    resolve_pin host port = elim host.ip_addr [
      | some address ↦ pure none
      | none ↦ do addresses ← resolve env host.host; lift (pin_addresses host.host port addresses)
    ]

    unfoldable pub pinned_addresses : Exec World Pinned
    unfolding resolve_pin
    pinned_addresses = resolve_pin request.parsed_url.host request.parsed_url.port

    unfoldable pub finish_client : ClientConfig → Result ClientConfig
    finish_client config = elim (env.client_error config) [
      | none ↦ ok config
      | some e ↦ err (request_failed (about "{}" (e ∷ [])))
    ]

    unfoldable pub build_client : Pinned → Result ClientConfig
    unfolding install_pins finish_client
    build_client pinned = Error.◌>>=◌ (install_pins env request.cert_pinning) λ pins.
        Error.◌>>=◌ (apply crates proxies env.variable request.proxy) λ routing.
          finish_client (record {
            timeout = request.timeout;
            pinned = pinned;
            cookies = cookie_store request.cookie_jar;
            pins = pins;
            routing = routing;
          })

    unfoldable pub send_target :
        Pinned → Method → Str → List Header → Option Str → Option Str → Exec World Exchange
    send_target pinned method target headers body if_none_match = do
      client ← lift (build_client pinned)
      _ ← lift (check_wire_headers crates headers)
      exchange env request.timeout (record {
        client = client;
        method = method;
        target = target;
        headers = headers;
        if_none_match = if_none_match;
        body = body;
      })
