-- ===== src/Request/Sends/Total.antt =====
-- The requests of a whole run of `execute_inner`.
use beanstream.Prelude.{ℕ, suc, ◌+◌, ◌-◌}
use beanstream.Crates.{Crates}
use beanstream.ProxyConfig.{ProxyCrate}
use beanstream.Request.{HttpRequest}
use beanstream.Request.Exec.{Exec}
use beanstream.Request.World.{World, Env}
use beanstream.Request.Execute.{retries_left}

module _ (crates : Crates) (proxies : ProxyCrate crates) (env : Env)
    (request : HttpRequest crates proxies) where
  -- The most requests that a run sends: the first attempt, the retries and the hops.
  abbrev pub request_limit : ℕ
  request_limit = suc (retries_left request.retry) + (request.redirect_policy.max_redirects - 1)
