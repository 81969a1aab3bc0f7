-- ===== src/WebSocket/Open.antt =====
-- What a WebSocket connects to.
use beanstream.Prelude.{
  ℕ, ◌≡◌, inl, inr, false, Option, none, some, List, [], ◌∷◌, Option-cases, All,
}
use beanstream.Text.{Str, str_eq}
use beanstream.Net.{IpAddr}
use beanstream.Error.{BeanStreamError, ok, refuse_if}
use beanstream.Crates.{Crates}
use beanstream.UrlValidation.Ip.{is_blocked_ip}
use beanstream.UrlValidation.Resolve.Addresses.{validate_ip_access_async-IsOpen}
use beanstream.UrlValidation.Validate.{ParsedUrl}
use beanstream.UrlValidation.Validate.Safe.{
  IsPublicHost, IsAllowedHost-IsPublicHost, validate_url-IsSafe,
}
use beanstream.RedirectPolicy.Scope.{check_url}
use beanstream.ProxyConfig.{ProxyCrate}
use beanstream.Request.{HttpRequest, new}
use beanstream.Request
use beanstream.Request.Exec.{pure, raise, Ensures, Ensures-try, Ensures-bind, Ensures-pure}
use beanstream.Request.World.{SocketAddr}
use beanstream.Request.Transport.{with_port}
use beanstream.Request.Built.{new-IsWellFormed}
use beanstream.WebSocket.{
  websocket_target_for_validation, failure, Sockets, WsEnv, connect, try_addresses, resolve_open,
  addresses_of, client_request, refuse_unresolved, connect_addresses, connect_websocket,
}

module _ (crates : Crates) where
  abbrev pub IsOpenSocket : SocketAddr → Type 0
  IsOpenSocket a = is_blocked_ip crates a.0 ≡ false

  abbrev pub AllOpen : Sockets → Type 0
  AllOpen w = All IsOpenSocket w.connected

  connect-Ensures :
      (env : WsEnv) (address : SocketAddr)
      → IsOpenSocket address
      → Ensures AllOpen (connect env address) (λ _. Unit)
  unfolding connect Ensures
  connect-Ensures env address a w h = ((a, h), λ _ _. tt)

  raise-Ensures : (e : BeanStreamError) → Ensures {A = SocketAddr} AllOpen (raise e) (λ _. Unit)
  unfolding Ensures
  raise-Ensures e w h = (h, λ _ _. tt)

  try_addresses-Ensures :
      (env : WsEnv) (last_error : Option BeanStreamError) (addresses : List SocketAddr)
      → All IsOpenSocket addresses
      → Ensures AllOpen (try_addresses env last_error addresses) (λ _. Unit)
  unfolding try_addresses
  try_addresses-Ensures env last_error [] a = raise-Ensures _
  try_addresses-Ensures env last_error (address ∷ addresses) a =
      Ensures-bind AllOpen (λ _. Unit) (λ _. Unit) (connect env address)
        (λ outcome. elim (failure address outcome) [
          | none ↦ pure address
          | some e ↦ try_addresses env (some e) addresses
        ])
        (connect-Ensures env address a.0)
        λ outcome _. elim (Option-cases (failure address outcome)) [
          | inl n ↦ rw n (Ensures-pure AllOpen (λ _. Unit) address tt)
          | inr (e, n) ↦ rw n (try_addresses-Ensures env (some e) addresses a.1)
        ]

  open_ports :
      (port : ℕ) (addresses : List IpAddr)
      → All (λ x. is_blocked_ip crates x ≡ false) addresses
      → All IsOpenSocket (with_port port addresses)
  open_ports port [] h = tt
  open_ports port (x ∷ addresses) h = (h.0, open_ports port addresses h.1)

  module _ (proxies : ProxyCrate crates) (env : WsEnv) where
    resolve_open-Ensures :
        (host : Str)
        → Ensures AllOpen
            (resolve_open crates proxies env host)
            (λ addresses. All (λ x. is_blocked_ip crates x ≡ false) addresses)
    unfolding resolve_open Ensures
    resolve_open-Ensures host w h =
        (h, λ addresses e. (validate_ip_access_async-IsOpen crates host _ addresses e).1)

    new-IsPublicHost :
        (request : HttpRequest crates proxies) (url : Str)
        → new crates proxies Request.get url ≡ ok request
        → IsPublicHost crates request.parsed_url.host
    new-IsPublicHost request url built =
        let good = new-IsWellFormed crates proxies Request.get url request built in
        let safe = validate_url-IsSafe crates request.url request.parsed_url good.validated in
        IsAllowedHost-IsPublicHost crates _ request.parsed_url.host safe.allowed_host

    addresses_of-Ensures :
        (parsed : ParsedUrl)
        → IsPublicHost crates parsed.host
        → Ensures AllOpen (addresses_of crates proxies env parsed) (λ a. All IsOpenSocket a)
    unfolding addresses_of
    addresses_of-Ensures parsed public = elim (Option-cases parsed.host.ip_addr) [
      | inl n ↦ rw n (
          Ensures-bind AllOpen (λ a. All (λ x. is_blocked_ip crates x ≡ false) a)
            (λ a. All IsOpenSocket a) (resolve_open crates proxies env parsed.host.host) _
            (resolve_open-Ensures parsed.host.host)
            λ addresses all_open.
              Ensures-pure AllOpen (λ a. All IsOpenSocket a) (with_port parsed.port addresses)
                (open_ports parsed.port addresses all_open))
      | inr (x, e) ↦ rw e (
          Ensures-pure AllOpen (λ a. All IsOpenSocket a) ((x, parsed.port) ∷ [])
            (rw e at public, tt))
    ]

    connect_addresses-Ensures :
        (url host : Str) (addresses : List SocketAddr)
        → All IsOpenSocket addresses
        → Ensures AllOpen (connect_addresses crates proxies env url host addresses) (λ _. Unit)
    unfolding connect_addresses
    connect_addresses-Ensures url host addresses all_open =
        Ensures-try AllOpen (λ _. Unit) (refuse_unresolved crates proxies env host addresses) _
          λ _ _.
            Ensures-try AllOpen (λ _. Unit) (client_request crates proxies env url)
              (λ _. try_addresses env none addresses)
              λ _ _. try_addresses-Ensures env none addresses all_open

    -- Whatever the resolver and the connections answer, every address that `connect_websocket`
    -- connects to is one that is not blocked, when this holds of the addresses connected to before.
    pub connect_websocket-AllOpen :
        (url : Str) (w : Sockets)
        → AllOpen w
        → AllOpen (connect_websocket crates proxies env url w).1
    unfolding connect_websocket Ensures
    connect_websocket-AllOpen url w h =
        (Ensures-try AllOpen (λ _. Unit)
          (refuse_if (str_eq (websocket_target_for_validation url) url) _) _
          (λ _ _.
            Ensures-try AllOpen (λ _. Unit) (new crates proxies Request.get _) _
              λ request built.
                Ensures-try AllOpen (λ _. Unit) (check_url crates request.scope_validator _) _
                  λ _ _.
                    Ensures-bind AllOpen (λ a. All IsOpenSocket a) (λ _. Unit)
                      (addresses_of crates proxies env request.parsed_url) _
                      (addresses_of-Ensures request.parsed_url (new-IsPublicHost request _ built))
                      λ addresses all_open. connect_addresses-Ensures url _ addresses all_open)
          w h).0
