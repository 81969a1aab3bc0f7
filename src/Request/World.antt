-- ===== src/Request/World.antt =====
-- What a request sees of the outside: the network, the resolver, the clock and the objects that
-- requests share. `World` is what changes; `Env` answers, and may answer anew each time.
use beanstream.Prelude.{ℕ, Bool, Option, List}
use beanstream.Text.{Str}
use beanstream.Net.{IpAddr}
use beanstream.HeaderValidation.{Header}
use beanstream.UrlValidation.Resolve.{Lookup}
use beanstream.Retry.{BackoffSettings}
use beanstream.CertPinning.{CertPinConfig}
use beanstream.ProxyConfig.{Routing}
use beanstream.Cache.Entries.{Table}
use beanstream.Cache.{CacheEntry, InMemoryCache}
use beanstream.Request.{Method}

abbrev pub SocketAddr : Type 0
SocketAddr = IpAddr × ℕ

-- A host with the addresses that it is pinned to.
abbrev pub Pinned : Type 0
Pinned = Option (Str × List SocketAddr)

-- The settings of the `reqwest::Client` that `build_client` makes. Its redirect policy is
-- `Policy::none()` and is left out.
pub record ClientConfig : Type 0 where
  pub timeout : ℕ
  pub pinned : Pinned
  -- the number of the cookie store, if there is one
  pub cookies : Option ℕ
  pub pins : Option CertPinConfig
  pub routing : Routing

-- One request that is handed to the client.
pub record Outbound : Type 0 where
  pub client : ClientConfig
  pub method : Method
  pub target : Str
  pub headers : List Header
  pub if_none_match : Option Str
  pub body : Option Str

-- A response as `reqwest` hands it over; a header value is `none` where `to_str` fails.
pub record RawResponse : Type 0 where
  pub status : ℕ
  pub headers : List (Str × Option Str)
  pub body : List ℕ
  pub url : Str

-- The outcome of one exchange: the error is a timeout or another one, before the response or
-- while its body is read.
pub data Reply : Type 0 where
  timed_out : Reply
  failed : Str → Reply
  body_failed : Str → Reply
  received : RawResponse → Reply

pub record World : Type 0 where
  -- the requests handed to a client, the last one first
  pub sent : List Outbound
  -- the names handed to the resolver, the last one first
  pub resolved : List Str
  -- the delays slept between attempts
  pub slept : List ℕ
  -- the calls of the progress callback
  pub progressed : List (ℕ × Option ℕ)
  pub cache : InMemoryCache
  pub now : ℕ

-- Each answer may depend on all that came before it.
pub record Env : Type 0 where
  pub exchange : List Outbound → Outbound → Reply
  pub duration : List Outbound → ℕ
  pub lookup_host : List Str → Str → Lookup
  pub on_progress : List (ℕ × Option ℕ) → ℕ → Option ℕ → Bool
  pub next_backoff : BackoffSettings → List ℕ → Option ℕ
  -- whether the future of the request is dropped where it waits in this world: by the signal that
  -- it races with, or by the caller, who then sees no result
  pub dropped : World → Bool
  -- whether the limiter's semaphore is closed, its only error
  pub limiter_closed : World → Bool
  -- the environment variables, the build's TLS feature, the errors of two builders
  pub variable : Str → Option Str
  pub rustls_tls : Bool
  pub webpki_error : Option Str
  pub client_error : ClientConfig → Option Str
  pub order : Table CacheEntry → Table CacheEntry
