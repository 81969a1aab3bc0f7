-- ===== src/Lib.antt =====
-- A model of BeanStream, an HTTP client that validates what it is asked to do before it connects.
--
-- The parts, and the files that model them:
--   Prelude, Prelude/*: shared names, Boolean tests, lists, and the lemmas on them.
--   Text, Text/*: texts as lists of code points, with the functions of `str` that the source calls.
--   Net, Net/Display: the address types of the standard library, their tests and their display.
--   Error: `BeanStreamError` and `Result` of src/error_handling_impl.rs.
--   Crates: what the source calls of the crates `url`, `ipnet` and `http`, as a record of functions,
--     and a record of laws with what the documentation of `ipnet` says.
--   UrlValidation, UrlValidation/*: src/url_validation.rs. `Ip` has the blocked ranges, `Path` the
--     percent-decoding and the dangerous sequences, `Domain` the names, `Validate` has `validate_url`
--     and `Resolve` the checks on what a name resolves to.
--   HeaderValidation: src/header_validation.rs.
--   RedirectPolicy, RedirectPolicy/*: src/redirect_policy.rs. `Pattern` has `matches_host_pattern`,
--     `Policy` has `RedirectPolicy` and `Scope` has `ScopeValidator`.
--   Retry: src/retry.rs. Cache, Cache/*: src/cache.rs. ProxyConfig: src/proxy_config.rs.
--   CertPinning, CertPinning/*: src/cert_pinning.rs. `Der` has the walk to a certificate's key, in
--     which an index out of range is a panic (`Walk`), and
--     `Verifier` what the TLS verifier decides.
--   Tokio: what the source calls of `tokio::sync`, as records of functions and of laws.
--   Abort, Abort/Wakeup: src/abort.rs. `poll` is one step of `AbortSignal::cancelled`, and `Next` any
--     step of the calls that share a signal.
--   RateLimiter, RateLimiter/*: src/rate_limit.rs. `Steps` has the calls on one limiter, interleaved;
--     `Slots` has the counter that they implement, and `Spacing` the interval.
--   Response, Request, Request/*: src/request_handler.rs. `Request` has `HttpRequest` with its
--     construction and `validate`; `World` has the state that requests share and the answers of the
--     outside; `Transport` has `resolve_pin`, `build_client` and `send_target`; `Hop` has `plan_hop`;
--     `Chain` has `follow_chain`; `Execute` has `execute_inner`; `Send` has src/interceptor.rs and
--     `send`. `Exec` has the state-passing functions. `Dropped` says what
--     it means that a run is dropped where it waits, and `Origin` what stays with the origin of the
--     request; they, `Vetted`, `Built`, `Sends`, `Carried` and the modules below the others hold
--     proofs. `Sends/Each` lifts a property of each request sent to a whole run.
--     `Setters` has the setters, `build_request` and `execute`.
--   Cookies: src/cookies.rs.
--   Builder, Builder/*: src/builder.rs. `Create` has `create_request`; the others hold proofs.
--   Streaming, Streaming/*: src/streaming.rs. WebSocket, WebSocket/Open: src/websocket.rs.
--   PlatformConfig, PlatformConfig/*: src/platform_config.rs.
--   Examples, Examples/*: concrete parameters, and the theorems applied to them.
--
-- How they interact: `send` runs the interceptors and then `execute_inner`, which validates the
-- request, looks into the cache, resolves and pins the host, repeats the exchange by the retry
-- configuration, follows redirects hop by hop, and stores and redacts the response. A builder creates
-- such requests, `download_stream` shares their validation, pinning and client, and
-- `connect_websocket` their validation.
--
-- State: an asynchronous function is a function from a `World` to a result and the next `World`,
-- which records what was handed to a client, to the resolver and to the progress callback, the sleeps,
-- the cache and the clock. Each answer of the network, the resolver and the callbacks is a function of
-- what came before it, in `Env`. An error leaves the world as it was when the error arose.
--
-- Interleavings: an abort signal and a rate limiter are shared between tasks. Each call is cut where
-- another task can run, and a relation `Next` makes one step of any of the calls. How the
-- race between a request and its signal begins is an argument of `send`; afterwards `Env` says in which
-- worlds a request that waits (for the limiter, the resolver, a response or the end of a sleep) is
-- dropped, by its signal or by the caller. Its result is then that of an abort, and nothing repeats it.
--
-- Fuel: the loop of `follow_chain` is given `max_redirects + 1` rounds. The visited list starts with
-- one URL, grows by one in each round that goes on, and a round goes on only while the list is shorter
-- than `max_redirects`, so the rounds suffice. The retry loop recurses on the attempts that are left,
-- and the decoding loop on its five rounds. `to_end` is given a number of polls: its
-- loop has no bound in the code either, and a body may never end. `trim_prefix` is given as many rounds
-- as the text has characters, each of which takes one away.
--
-- Not modelled: the panic of `Semaphore::new` above its limit, other tasks between the steps of one
-- insertion into the cache, what a cookie store holds, Debug and Clone, the handshake signatures of the
-- certificate verifier, which are passed on, and the crate root, which has only documentation and
-- re-exports. A request that is sent acquires its limiter in one step, and `Env` says whether that fails.
pub mod Prelude
pub mod Text
pub mod Tokio
pub mod Abort
pub mod RateLimiter
pub mod Net
pub mod Error
pub mod Crates
pub mod UrlValidation
pub mod HeaderValidation
pub mod RedirectPolicy
pub mod Retry
pub mod Response
pub mod Cache
pub mod ProxyConfig
pub mod CertPinning
pub mod Request
pub mod Builder
pub mod Cookies
pub mod Streaming
pub mod WebSocket
pub mod PlatformConfig
pub mod Examples
