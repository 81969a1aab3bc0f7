-- ===== src/WebSocket.antt =====
-- websocket.rs: the checks ahead of a WebSocket connection, and the loop over its addresses.
pub mod Open
use beanstream.Prelude.{
  ℕ, zero, suc, ◌+◌, ◌-◌, ◌*◌, ◌/◌, ◌%◌, ◌^◌, ◌≤◌, ◌<◌, min, max, code, String, ◌≡◌, refl, sym, ap,
  subst, ◌∙◌, ◌≢◌, ◌↔◌, ◌⊎◌, inl, inr, Bool, true, false, not, ◌&&◌, ◌||◌, Option, none, some, List,
  [], ◌∷◌, ◌++◌, map, reverse, arith, ltb, leb, ◌==◌, if◌then◌else◌, between, ==_iff, Bool-cases,
  Option-cases, length, any, all, find, keep, length-append, any-append, all-append, All, all_iff,
  All-keep, keep_of_All, keep_idempotent, All-append, All-map,
}
use beanstream.Text.{Str, codes, str_eq, strip_prefix}
use beanstream.Net.{IpAddr, v4, v6}
use beanstream.Net.Display.{show_ip, show_decimal}
use beanstream.Error.{
  BeanStreamError, Result, ok, err, refuse_if, invalid_scheme, invalid_host, web_socket_error, lit,
  about,
}
use beanstream.Error
use beanstream.Crates.{Crates}
use beanstream.UrlValidation.Resolve.{Lookup, validate_ip_access_async}
use beanstream.UrlValidation.Validate.{ParsedUrl, ValidatedHost}
use beanstream.RedirectPolicy.Scope.{check_url}
use beanstream.ProxyConfig.{ProxyCrate}
use beanstream.Request.{HttpRequest, new}
use beanstream.Request
use beanstream.Request.Exec.{Exec, pure, raise, lift, ◌>>=◌}
use beanstream.Request.World.{SocketAddr}
use beanstream.Request.Transport.{with_port}

unfoldable pub websocket_target_for_validation : Str → Str
websocket_target_for_validation url = elim (strip_prefix (codes "ws://") url) [
  | some rest ↦ codes "http://" ++ rest
  | none ↦ elim (strip_prefix (codes "wss://") url) [
    | some rest ↦ codes "https://" ++ rest
    | none ↦ url
  ]
]

-- `TcpStream::connect` and then the handshake on the socket; an error is its text.
pub data Attempt : Type 0 where
  not_connected : Str → Attempt
  no_handshake : Str → Attempt
  established : Attempt

-- The names handed to the resolver, and the addresses connected to, the last ones first.
pub record Sockets : Type 0 where
  pub resolved : List Str
  pub connected : List SocketAddr

-- `into_client_request`'s error, if it fails, and what the resolver and the connections answer.
pub record WsEnv : Type 0 where
  pub request_error : Str → Option Str
  pub lookup_host : List Str → Str → Lookup
  pub attempt : List SocketAddr → SocketAddr → Attempt

unfoldable pub connect : WsEnv → SocketAddr → Exec Sockets Attempt
connect env address w =
    (ok (env.attempt w.connected address), record w { connected = address ∷ w.connected })

-- `SocketAddr`'s display
unfoldable pub show_socket : SocketAddr → Str
show_socket (v4 x, port) = show_ip (v4 x) ++ b':' ∷ show_decimal port
show_socket (v6 x, port) = codes "[" ++ show_ip (v6 x) ++ codes "]:" ++ show_decimal port

-- The error of an attempt, if it fails.
unfoldable pub failure : SocketAddr → Attempt → Option BeanStreamError
failure address established = none
failure address (not_connected e) =
    some
      (web_socket_error (about "connecting to {address}: {error}" (show_socket address ∷ e ∷ [])))
failure address (no_handshake e) = some (web_socket_error (about "{}" (e ∷ [])))

-- The loop over the addresses. The stream that is returned is the one to the first address that is
-- connected to and completes the handshake.
unfoldable pub try_addresses :
    WsEnv → Option BeanStreamError → List SocketAddr → Exec Sockets SocketAddr
unfolding connect failure
try_addresses env last_error [] = raise (elim last_error [
  | none ↦ web_socket_error (lit "no validated address could be connected")
  | some e ↦ e
])
try_addresses env last_error (address ∷ addresses) = connect env address >>= λ outcome.
    elim (failure address outcome) [
      | none ↦ pure address
      | some e ↦ try_addresses env (some e) addresses
    ]

module _ (crates : Crates) (proxies : ProxyCrate crates) (env : WsEnv) where
  -- `validate_ip_access_async(host).await`
  unfoldable pub resolve_open : Str → Exec Sockets (List IpAddr)
  resolve_open host w = (
    validate_ip_access_async crates host (env.lookup_host w.resolved host),
    record w { resolved = host ∷ w.resolved },
  )

  unfoldable pub addresses_of : ParsedUrl → Exec Sockets (List SocketAddr)
  unfolding resolve_open
  addresses_of parsed = elim parsed.host.ip_addr [
    | some address ↦ pure ((address, parsed.port) ∷ [])
    | none ↦ resolve_open parsed.host.host >>= λ addresses. pure (with_port parsed.port addresses)
  ]

  abbrev no_address : List SocketAddr → Bool
  no_address [] = true
  no_address (a ∷ addresses) = false

  -- `into_client_request`
  unfoldable pub client_request : Str → Result (Unit {0})
  client_request url = elim (env.request_error url) [
    | none ↦ ok tt
    | some e ↦ err (web_socket_error (about "invalid WebSocket URL: {e}" (e ∷ [])))
  ]

  unfoldable pub refuse_unresolved : Str → List SocketAddr → Result (Unit {0})
  refuse_unresolved host addresses =
      refuse_if (no_address addresses)
        (invalid_host (about "WebSocket host '{}' did not resolve to an address" (host ∷ [])))

  -- From the addresses to the stream.
  unfoldable pub connect_addresses : Str → Str → List SocketAddr → Exec Sockets SocketAddr
  unfolding refuse_unresolved client_request try_addresses
  connect_addresses url host addresses = do
    _ ← lift (refuse_unresolved host addresses)
    _ ← lift (client_request url)
    try_addresses env none addresses

  unfoldable pub connect_websocket : Str → Exec Sockets SocketAddr
  unfolding websocket_target_for_validation addresses_of connect_addresses
  connect_websocket url = do
    let normalized = websocket_target_for_validation url
    _ ← lift (
        refuse_if (str_eq normalized url)
          (invalid_scheme (codes "WebSocket URLs must use the ws:// or wss:// scheme")))
    request ← lift (new crates proxies Request.get normalized)
    _ ← lift (check_url crates request.scope_validator normalized)
    addresses ← addresses_of request.parsed_url
    connect_addresses url request.parsed_url.host.host addresses
