-- ===== src/Request/Origin/Run.antt =====
-- What a whole run of `execute_inner` sends to other origins.
use beanstream.Prelude.{◌≡◌, refl, inl}
use beanstream.Crates.{Crates}
use beanstream.ProxyConfig.{ProxyCrate}
use beanstream.Request.{HttpRequest}
use beanstream.Request.Exec.{Ensures}
use beanstream.Request.World.{World, Env}
use beanstream.Request.Execute.{execute_inner}
use beanstream.Request.Sends.Each.{execute_inner-Ensures}
use beanstream.Request.Origin.{OriginLaws, KeepsHome, AllKeepHome, send_target-Ensures}
use beanstream.Request.Origin.Hops.{follow_chain-Ensures}

module _ (crates : Crates) (proxies : ProxyCrate crates) (request : HttpRequest crates proxies)
    (env : Env) where
  open crates use {parse}

  -- Where `url` and `reqwest` behave as documented: each request that `execute_inner` hands to a
  -- client goes to the URL of the request or to one of the same origin, or it carries no sensitive
  -- header and no body, whatever the servers answer, when this holds of all that was sent before.
  pub execute_inner-AllKeepHome :
      OriginLaws crates env
      → (w : World) → AllKeepHome crates proxies request env w
      → AllKeepHome crates proxies request env (execute_inner crates proxies env request w).1
  unfolding Ensures
  execute_inner-AllKeepHome laws w h =
      (execute_inner-Ensures crates proxies request env (KeepsHome crates proxies request env)
        (λ reply. parse reply.url ≡ parse request.url)
        (λ pinned etag.
          send_target-Ensures crates proxies request env laws pinned request.method request.url
            request.headers request.body etag (inl (inl refl)))
        (λ pinned outcome e. follow_chain-Ensures crates proxies request env laws pinned outcome e)
        w h).0
