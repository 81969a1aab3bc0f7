-- ===== src/Examples/Cancelled.antt =====
-- A request that is dropped while it waits for the first response.
use beanstream.Prelude.{[], leb, length}
use beanstream.Request.World.{Env}
use beanstream.Request.Send.{unfired, send}
use beanstream.Request.Dropped.{undropped, IsCutOff}
use beanstream.Request.Dropped.Sent.{send-IsCutOff}
use beanstream.Examples.{crates, proxies, env, request, start}

-- The signal fires as soon as one request is under way.
abbrev impatient : Env
impatient = record env { dropped = λ w. leb 1 (length w.sent) }

send-IsCutOff_example :
    IsCutOff impatient
      (send crates proxies impatient [] request unfired start)
      (send crates proxies (undropped impatient) [] request unfired start)
send-IsCutOff_example = send-IsCutOff crates proxies impatient [] request unfired start
