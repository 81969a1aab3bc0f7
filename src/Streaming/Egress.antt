-- ===== src/Streaming/Egress.antt =====
-- What streaming hands to a client.
use beanstream.Prelude.{◌≡◌, refl, inl, inr, false, none, List}
use beanstream.Error.{ok, Result-cases}
use beanstream.Crates.{Crates}
use beanstream.UrlValidation.Validate.{validate_url, ParsedUrl}
use beanstream.ProxyConfig.{ProxyCrate}
use beanstream.Request.{HttpRequest, validate}
use beanstream.Request.Exec.{Ensures, Ensures-try, Ensures-bind}
use beanstream.Request.World.{Pinned, Outbound, World, Env}
use beanstream.Request.Transport.{
  pinned_addresses, build_client, check_wire_headers, send_target, exchange,
}
use beanstream.Request.Transport.Pins.{IsPinnedFor}
use beanstream.Request.Send.{InterceptorChain, run_on_request}
use beanstream.Request.Vetted.{AllVetted, send_target-Ensures, resolve_pin-Ensures}
use beanstream.Request.Vetted.Run.{validate-checks}
use beanstream.Streaming.{Opened, hand_over, open_stream, download_stream}

module _ (crates : Crates) (proxies : ProxyCrate crates) (env : Env)
    (open_response : List Outbound → Outbound → Opened) where
  -- Opening a stream leaves the world as sending the request once does: what is handed to the
  -- client, and the client, are the same.
  pub open_stream-send_target :
      (request : HttpRequest crates proxies) (pinned : Pinned) (w : World)
      → (open_stream crates proxies env open_response request pinned w).1
        ≡ (send_target crates proxies env request pinned request.method request.url request.headers
            request.body none w).1
  unfolding open_stream send_target hand_over exchange
  open_stream-send_target request pinned w =
      elim (Result-cases (build_client crates proxies env request pinned)) [
        | inl (client, e) ↦ elim (Result-cases (check_wire_headers crates request.headers)) [
          | inl (u, k) ↦ rw (e, k) refl
          | inr (x, k) ↦ rw (e, k) refl
        ]
        | inr (x, e) ↦ rw e refl
      ]

  open_stream-Ensures :
      (request : HttpRequest crates proxies) (pinned : Pinned)
      → ((p : ParsedUrl) × (validate_url crates request.url ≡ ok p)
          × IsPinnedFor crates p.host pinned)
      → validate crates proxies request ≡ ok tt
      → Ensures
          (AllVetted crates proxies request)
          (open_stream crates proxies env open_response request pinned)
          (λ _. Unit)
  unfolding Ensures
  open_stream-Ensures request pinned v h w k =
      let (in_scope, clean) = validate-checks crates proxies request env h in
      let sent =
        send_target-Ensures crates proxies request env pinned request.method request.url
          request.headers request.body none (v, in_scope, clean) w k in
      (rw (open_stream-send_target request pinned w) sent.0, λ _ _. tt)

  -- Where the interceptors make of a request one whose URL is the validated one and that allows no
  -- private addresses, whatever its headers are, all that `download_stream` hands to a client is vetted for that request, as
  -- for a request that is sent, when all that was sent before is.
  pub download_stream-AllVetted :
      (interceptors : InterceptorChain crates proxies)
      (request prepared : HttpRequest crates proxies) (w : World)
      → run_on_request crates proxies interceptors request ≡ ok prepared
      → prepared.allow_private_addresses ≡ false
      → validate_url crates prepared.url ≡ ok prepared.parsed_url
      → AllVetted crates proxies prepared w
      → AllVetted crates proxies prepared
          (download_stream crates proxies env open_response interceptors request w).1
  unfolding download_stream pinned_addresses Ensures
  download_stream-AllVetted interceptors request prepared w e public_only validated before =
      rw e
        (Ensures-try (AllVetted crates proxies prepared) (λ _. Unit)
          (validate crates proxies prepared) _
          (λ u valid.
            Ensures-bind _ (λ pinned. IsPinnedFor crates prepared.parsed_url.host pinned) _ _ _
              (resolve_pin-Ensures crates proxies prepared env public_only prepared.parsed_url.host
                prepared.parsed_url.port)
              λ pinned p.
                open_stream-Ensures prepared pinned (prepared.parsed_url, validated, p) valid)
          w before).0
