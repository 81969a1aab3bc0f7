-- ===== src/Request/Execute.antt =====
-- `execute_inner` of request_handler.rs.
pub mod Retries
pub mod Statuses
use beanstream.Prelude.{
  ℕ, zero, suc, ◌+◌, ◌-◌, ◌*◌, ◌/◌, ◌%◌, ◌^◌, ◌≤◌, ◌<◌, min, max, code, String, ◌≡◌, refl, sym, ap,
  subst, ◌∙◌, ◌≢◌, ◌↔◌, ◌⊎◌, inl, inr, Bool, true, false, not, ◌&&◌, ◌||◌, Option, none, some, List,
  [], ◌∷◌, ◌++◌, map, reverse, arith, ltb, leb, ◌==◌, if◌then◌else◌, between, ==_iff, Bool-cases,
  Option-cases, length, any, all, find, keep, length-append, any-append, all-append, All, all_iff,
  All-keep, keep_of_All, keep_idempotent, All-append, All-map,
}
use beanstream.Text.{Str, byte_len}
use beanstream.Error.{
  BeanStreamError, Result, ok, err, request_aborted, rate_limited, server_error, internal_error,
  lit, ok_or,
}
use beanstream.Crates.{Crates}
use beanstream.Response.{HttpResponse, is_success, redact}
use beanstream.Retry.{RetryConfig, should_retry, should_retry_status, backoff, next_delay}
use beanstream.Cache.{get_response, get_etag, insert_response}
use beanstream.ProxyConfig.{ProxyCrate}
use beanstream.Request.{HttpRequest, is_get_or_head, method_as_str, validate}
use beanstream.Request.Exec.{Exec, pure, raise, lift, ◌>>=◌}
use beanstream.Request.World.{Pinned, World, Env}
use beanstream.Request.Transport.{Exchange, awaited, pinned_addresses, send_target}
use beanstream.Request.Chain.{follow_chain}

-- Whether the outcome of an attempt is repeated.
unfoldable pub is_retryable : Option RetryConfig → Result Exchange → Bool
is_retryable none outcome = false
is_retryable (some retry) (ok reply) = should_retry_status retry reply.status
is_retryable (some retry) (err e) = should_retry retry e

-- `tokio::time::sleep(retry.next_delay(backoff))`
unfoldable pub sleep : Env → Option RetryConfig → World → World
sleep env none w = w
sleep env (some retry) w =
    let delay = next_delay retry (env.next_backoff (backoff retry) w.slept) in
    record w { slept = delay ∷ w.slept; now = w.now + delay }

-- The retry loop; the number counts the attempts that are left after this one. It ends, whatever
-- the configuration repeats, where the future is dropped in an attempt or in a sleep.
unfoldable pub attempts : Env → Option RetryConfig → ℕ → Exec World Exchange → Exec World Exchange
attempts env retry zero send w = send w
attempts env retry (suc left) send w =
    let r = send w in
    let slept = sleep env retry r.1 in
    let later = attempts env retry left send slept in
    let woken = if env.dropped slept then (err request_aborted, slept) else later in
    let resumed = if env.dropped r.1 then (err request_aborted, r.1) else woken in
    if is_retryable retry r.0 then resumed else r

-- `retry.map(|r| r.max_attempts).unwrap_or(1).max(1)`, less the first attempt
unfoldable pub retries_left : Option RetryConfig → ℕ
retries_left none = 0
retries_left (some retry) = retry.max_attempts - 1

unfoldable pub refuse_status : ℕ → Result (Unit {0})
refuse_status status =
    if status == 429
    then err rate_limited
    else if leb 500 status && ltb status 600
    then err (server_error status)
    else ok tt

-- `NoopProgress`
unfoldable pub noop_progress : ℕ → Option ℕ → Bool
noop_progress uploaded total = true

module _ (crates : Crates) (proxies : ProxyCrate crates) (env : Env) where
  module _ (request : HttpRequest crates proxies) where
    -- The progress callback; `false` aborts the request.
    unfoldable pub report : ℕ → Option ℕ → Exec World (Unit {0})
    report done total w =
        if request.has_progress
        then (
          if env.on_progress w.progressed done total then ok tt else err request_aborted,
          record w { progressed = (done, total) ∷ w.progressed },
        )
        else (ok tt, w)

    -- `report_complete` of progress.rs
    unfoldable pub report_complete : ℕ → Exec World (Unit {0})
    report_complete len = report len (some len)

    abbrev pub body_len : Option Str → Option ℕ
    body_len none = none
    body_len (some body) = some (byte_len body)

    unfoldable pub acquire : Exec World (Unit {0})
    acquire w =
        if request.has_limiter
        then (awaited env w (if env.limiter_closed w then err rate_limited else ok tt), w)
        else (ok tt, w)

    abbrev pub cacheable : Bool
    cacheable = is_get_or_head request.method

    unfoldable pub read_cache : Exec World (Option HttpResponse)
    read_cache w =
        let read = get_response w.now (method_as_str request.method) request.url w.cache in
        if request.has_cache then (ok read.0, record w { cache = read.1 }) else (ok none, w)

    -- The lookup before anything is sent, for safe methods.
    unfoldable pub lookup_cache : Exec World (Option HttpResponse)
    lookup_cache w = let found = read_cache w in if cacheable then found else (ok none, w)

    unfoldable pub conditional_etag : Exec World (Option Str)
    conditional_etag w = (
      ok (
          if cacheable && request.has_cache
          then get_etag (method_as_str request.method) request.url w.cache
          else none),
      w,
    )

    unfoldable pub store : HttpResponse → Exec World HttpResponse
    store response w =
        if request.has_cache
        then (
          ok response,
          record w {
            cache = insert_response env.order w.now (method_as_str request.method) response w.cache;
          },
        )
        else (ok response, w)

    -- A 304 is answered from the cache, and a success goes into it.
    unfoldable pub update_cache : HttpResponse → Exec World HttpResponse
    update_cache response w =
        let found = read_cache w in
        let stored = store response w in
        if response.status == 304
        then (if cacheable
            then (
              elim found.0 [ ok (some hit) ↦ ok (record hit { status = 304 }) | _ ↦ ok response ],
              found.1,
            )
            else (ok response, w))
        else if cacheable && is_success response
        then stored
        else (ok response, w)

    unfoldable pub first_exchange : Pinned → Option Str → Exec World Exchange
    first_exchange pinned etag = attempts env request.retry (retries_left request.retry) (
        send_target crates proxies env request pinned request.method request.url request.headers
          request.body etag)

    unfoldable pub last_exchange : Pinned → Exchange → Exec World Exchange
    last_exchange pinned outcome =
        if request.redirect_policy.follow_redirects
        then (do
          final ← follow_chain crates proxies env request pinned outcome
          lift (ok_or final (internal_error (lit "out of fuel"))))
        else pure outcome

    -- From the exchange to what the caller gets.
    unfoldable pub finish : Exchange → Exec World HttpResponse
    finish outcome = do
      _ ← lift (refuse_status outcome.status)
      response ← update_cache (
          redact (record {
            status = outcome.status;
            headers = outcome.headers;
            body = outcome.body;
            url = outcome.url;
          }))
      _ ← report_complete (length response.body)
      pure response

    unfoldable pub fetch : Exec World HttpResponse
    fetch = do
      etag ← conditional_etag
      pinned ← pinned_addresses crates proxies env request
      outcome ← first_exchange pinned etag
      final ← last_exchange pinned outcome
      finish final

    unfoldable pub serve_hit : HttpResponse → Exec World HttpResponse
    serve_hit hit = do _ ← report_complete (length hit.body); pure hit

    unfoldable pub execute_inner : Exec World HttpResponse
    execute_inner = do
      _ ← lift (validate crates proxies request)
      _ ← report 0 (body_len request.body)
      _ ← acquire
      found ← lookup_cache
      elim found [ some hit ↦ serve_hit hit | none ↦ fetch ]
