-- ===== src/Streaming.antt =====
-- streaming.rs: a response whose body is read chunk by chunk.
pub mod Chunks
pub mod Egress
use beanstream.Prelude.{
  ℕ, zero, suc, ◌+◌, ◌-◌, ◌*◌, ◌/◌, ◌%◌, ◌^◌, ◌≤◌, ◌<◌, min, max, code, String, ◌≡◌, refl, sym, ap,
  subst, ◌∙◌, ◌≢◌, ◌↔◌, ◌⊎◌, inl, inr, Bool, true, false, not, ◌&&◌, ◌||◌, Option, none, some, List,
  [], ◌∷◌, ◌++◌, map, reverse, arith, ltb, leb, ◌==◌, if◌then◌else◌, between, ==_iff, Bool-cases,
  Option-cases, length, any, all, find, keep, length-append, any-append, all-append, All, all_iff,
  All-keep, keep_of_All, keep_idempotent, All-append, All-map,
}
use beanstream.Text.{Str}
use beanstream.Error.{
  BeanStreamError, Result, ok, err, server_error, streaming_error, network_timeout, request_failed,
  about,
}
use beanstream.Crates.{Crates}
use beanstream.HeaderValidation.{Header}
use beanstream.ProxyConfig.{ProxyCrate}
use beanstream.Request.{Method, HttpRequest, validate}
use beanstream.Request.Exec.{Exec, lift, ◌>>=◌}
use beanstream.Request.World.{Pinned, Outbound, World, Env}
use beanstream.Request.Transport.{pinned_addresses, build_client, check_wire_headers}
use beanstream.Request.Send.{InterceptorChain, run_on_request}

-- `std::task::Poll`
pub data Poll (A : Type 0) : Type 0 where
  pending : Poll A
  ready : A → Poll A

abbrev pub Bytes : Type 0
Bytes = List ℕ

-- `inner` has what its polls answer from now on: the first, the second, and so on without end. The
-- body may never end, and it may be pending for ever.
pub record ByteStream : Type 0 where
  pub inner : ℕ → Poll (Option (Result Bytes))
  pub total_received : ℕ

unfoldable pub count : Poll (Option (Result Bytes)) → ℕ → ℕ
count (ready (some (ok chunk))) total = (total + length chunk) % 2 ^ 64
count (ready (some (err e))) total = total
count (ready none) total = total
count pending total = total

unfoldable pub poll_next : ByteStream → Poll (Option (Result Bytes)) × ByteStream
unfolding count
poll_next s = (
  s.inner 0,
  record { inner = λ n. s.inner (suc n); total_received = count (s.inner 0) s.total_received },
)

-- The loop of `to_end`, each `next().await` of which polls until it is ready. The fuel is a number
-- of polls, and `none` means that the loop is still running after so many.
unfoldable pub drain : ℕ → Bytes → ByteStream → Option (Result Bytes)
unfolding poll_next
drain zero buffer s = none
drain (suc fuel) buffer s =
    let polled = poll_next s in
    elim polled.0 [
      | pending ↦ drain fuel buffer polled.1
      | ready none ↦ some (ok buffer)
      | ready (some (ok chunk)) ↦ drain fuel (buffer ++ chunk) polled.1
      | ready (some (err e)) ↦ some (err e)
    ]

unfoldable pub to_end : ℕ → ByteStream → Option (Result Bytes)
unfolding drain
to_end fuel s = drain fuel [] s

-- What `bytes_stream` of a response answers to a poll; an error is its text.
pub data Arrival : Type 0 where
  nothing_yet : Arrival
  chunk : Bytes → Arrival
  broken : Str → Arrival
  over : Arrival

-- A response whose body is not read yet: what the polls of the body answer.
pub record OpenResponse : Type 0 where
  pub status : ℕ
  pub url : Str
  pub body : ℕ → Arrival

pub data Opened : Type 0 where
  timed_out : Opened
  failed : Str → Opened
  opened : OpenResponse → Opened

-- The item of the stream that an arrival makes.
unfoldable pub arrived : Str → Arrival → Poll (Option (Result Bytes))
arrived url nothing_yet = pending
arrived url (chunk bytes) = ready (some (ok bytes))
arrived url (broken e) = ready (some (err (streaming_error (about "{e} ({url})" (e ∷ url ∷ [])))))
arrived url over = ready none

unfoldable pub stream_from_response : OpenResponse → Result ByteStream
unfolding arrived
stream_from_response response =
    if leb 200 response.status && ltb response.status 300
    then ok (record { inner = λ n. arrived response.url (response.body n); total_received = 0 })
    else err (server_error response.status)

unfoldable pub read_opened : ℕ → Opened → Result ByteStream
unfolding stream_from_response
read_opened timeout timed_out = err (network_timeout (timeout % 2 ^ 64))
read_opened timeout (failed e) = err (request_failed (about "{}" (e ∷ [])))
read_opened timeout (opened response) = stream_from_response response

-- `open` answers a request that is handed to a client, like `exchange` of `Env`.
module _ (crates : Crates) (proxies : ProxyCrate crates) (env : Env)
    (open_response : List Outbound → Outbound → Opened) where
  unfoldable pub hand_over : ℕ → Outbound → Exec World ByteStream
  unfolding read_opened
  hand_over timeout out w = (
    read_opened timeout (open_response w.sent out),
    record w { sent = out ∷ w.sent; now = w.now + env.duration (out ∷ w.sent) },
  )

  -- From the addresses to the stream.
  unfoldable pub open_stream : HttpRequest crates proxies → Pinned → Exec World ByteStream
  unfolding hand_over
  open_stream prepared pinned = do
    client ← lift (build_client crates proxies env prepared pinned)
    _ ← lift (check_wire_headers crates prepared.headers)
    hand_over prepared.timeout (record {
      client = client;
      method = prepared.method;
      target = prepared.url;
      headers = prepared.headers;
      if_none_match = none;
      body = prepared.body;
    })

  unfoldable pub download_stream :
      InterceptorChain crates proxies → HttpRequest crates proxies → Exec World ByteStream
  unfolding open_stream
  download_stream interceptors request = do
    prepared ← lift (run_on_request crates proxies interceptors request)
    _ ← lift (validate crates proxies prepared)
    pinned ← pinned_addresses crates proxies env prepared
    open_stream prepared pinned
