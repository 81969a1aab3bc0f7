-- ===== src/Request/Carried/Run.antt =====
-- The clients of a whole run of `execute_inner`.
use beanstream.Crates.{Crates}
use beanstream.ProxyConfig.{ProxyCrate}
use beanstream.Request.{HttpRequest}
use beanstream.Request.Exec.{Ensures}
use beanstream.Request.World.{World, Env}
use beanstream.Request.Execute.{execute_inner}
use beanstream.Request.Sends.Each.{execute_inner-Ensures}
use beanstream.Request.Carried.{IsCarried, AllCarried, send_target-Ensures, follow_chain-Ensures}

module _ (crates : Crates) (proxies : ProxyCrate crates) (request : HttpRequest crates proxies)
    (env : Env) where
  -- Whether `execute_inner` succeeds or fails, every client that it uses, for retries and the hops
  -- of redirects too, has the request's timeout, the routing of its proxy configuration and exactly
  -- its certificate pins, when this holds of all that was sent before.
  pub execute_inner-AllCarried :
      (w : World)
      → AllCarried crates proxies request env w
      → AllCarried crates proxies request env (execute_inner crates proxies env request w).1
  unfolding Ensures
  execute_inner-AllCarried w h =
      (execute_inner-Ensures crates proxies request env
        (λ out. IsCarried crates proxies request env out.client) (λ _. Unit)
        (λ pinned etag.
          send_target-Ensures crates proxies request env pinned request.method request.url
            request.headers request.body etag)
        (λ pinned outcome _. follow_chain-Ensures crates proxies request env pinned outcome) w h).0
