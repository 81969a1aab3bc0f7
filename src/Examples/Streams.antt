-- ===== src/Examples/Streams.antt =====
-- The theorems about streams, WebSockets and platform files, applied to small ones.
use beanstream.Prelude.{
  ℕ, zero, suc, ◌<◌, ◌≡◌, refl, ◌≢◌, ◌↔◌, true, false, none, some, List, [], ◌∷◌,
}
use beanstream.Text.{Str, codes}
use beanstream.Error.{Result, ok}
use beanstream.Request.World.{Outbound}
use beanstream.Request.Send.{run_on_request}
use beanstream.Request.Vetted.{AllVetted}
use beanstream.Streaming.{
  pending, ready, ByteStream, to_end, drain, Bytes, Arrival, over, Opened, opened, chunk,
  download_stream,
}
use beanstream.Streaming.Chunks.{Polls, EndsAt, to_end_iff}
use beanstream.Streaming.Egress.{download_stream-AllVetted}
use beanstream.UrlValidation.Resolve.{answered}
use beanstream.WebSocket.{established, Sockets, WsEnv, connect_websocket}
use beanstream.WebSocket.Open.{AllOpen, connect_websocket-AllOpen}
use beanstream.PlatformConfig.{AtsException, xml_escape}
use beanstream.PlatformConfig.Escape.{xml_escape-each}
use beanstream.Examples.Urls.{request-valid}
use beanstream.Examples.{crates, proxies, env, request, start, public_address}

-- A chunk, a poll that has to wait, another chunk, and the end.
abbrev polls : Polls
polls zero = ready (some (ok (1 ∷ 2 ∷ [])))
polls (suc zero) = pending
polls (suc (suc zero)) = ready (some (ok (3 ∷ [])))
polls (suc (suc (suc n))) = ready none

abbrev stream : ByteStream
stream = record { inner = polls; total_received = 0 }

to_end_iff_example :
    (to_end 4 stream ≡ some (ok (1 ∷ 2 ∷ 3 ∷ [])))
    ↔ ((last : ℕ) × (last < 4) × EndsAt last [] polls (ok (1 ∷ 2 ∷ 3 ∷ [])))
to_end_iff_example = to_end_iff 4 stream (ok (1 ∷ 2 ∷ 3 ∷ []))

whole_stream : to_end 4 stream ≡ some (ok (1 ∷ 2 ∷ 3 ∷ []))
unfolding to_end drain
whole_stream = refl

-- A body that is pending for ever.
abbrev silent : ByteStream
silent = record { inner = λ n. pending; total_received = 0 }

silent-none : (fuel : ℕ) (r : Result Bytes) → to_end fuel silent ≢ some r
silent-none fuel r h = let (last, k, e) = (to_end_iff fuel silent r).0 h in cc e.ends

abbrev body : ℕ → Arrival
body zero = chunk (1 ∷ [])
body (suc n) = over

abbrev answer_stream : List Outbound → Outbound → Opened
answer_stream before out = opened (record { status = 200; url = out.target; body = body })

nothing_intercepted : run_on_request crates proxies [] request ≡ ok request
unfolding run_on_request
nothing_intercepted = refl

download_stream-AllVetted_example :
    AllVetted crates proxies request
      (download_stream crates proxies env answer_stream [] request start).1
download_stream-AllVetted_example =
    download_stream-AllVetted crates proxies env answer_stream [] request request start
      nothing_intercepted refl request-valid tt

-- The name resolves to a public address, which answers.
abbrev ws_env : WsEnv
ws_env = record {
  request_error = λ url. none;
  lookup_host = λ before name. answered (public_address ∷ []);
  attempt = λ before address. established;
}

abbrev no_sockets : Sockets
no_sockets = record { resolved = []; connected = [] }

connect_websocket-AllOpen_example :
    AllOpen crates (connect_websocket crates proxies ws_env (codes "wss://a.com/x") no_sockets).1
connect_websocket-AllOpen_example =
    connect_websocket-AllOpen crates proxies ws_env (codes "wss://a.com/x") no_sockets tt

xml_escape-each_example : xml_escape (codes "a<b&\"c") ≡ codes "a&lt;b&amp;&quot;c"
xml_escape-each_example = xml_escape-each (codes "a<b&\"c")

-- The line ends and quotes in the texts of `PlatformConfig` are single characters.
text-codes : codes "\n\"" ≡ 10 ∷ 34 ∷ []
text-codes = refl

abbrev exception : Str → AtsException
exception domain = record {
  domain = domain;
  allows_arbitrary_loads = false;
  allows_insecure_httptls = true;
}

abbrev exceptions : List AtsException
exceptions = exception (codes "a.com") ∷ exception (codes "b</key>") ∷ []
