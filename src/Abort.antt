-- ===== src/Abort.antt =====
-- abort.rs: the signal that cancels a request. The controllers and signals share one `Inner`.
-- `cancelled` and `abort` are cut where another task can run: the loop of `cancelled` into a program
-- counter, and `abort` into its store and its `notify_waiters`.
pub mod Wakeup
use beanstream.Prelude.{
  ℕ, zero, suc, ◌+◌, ◌-◌, ◌*◌, ◌/◌, ◌%◌, ◌^◌, ◌≤◌, ◌<◌, min, max, code, String, ◌≡◌, refl, sym, ap,
  subst, ◌∙◌, ◌≢◌, ◌↔◌, ◌⊎◌, inl, inr, Bool, true, false, not, ◌&&◌, ◌||◌, Option, none, some, List,
  [], ◌∷◌, ◌++◌, map, reverse, arith, ltb, leb, ◌==◌, if◌then◌else◌, between, ==_iff, Bool-cases,
  Option-cases, length, any, all, find, keep, length-append, any-append, all-append, All, all_iff,
  All-keep, keep_of_All, keep_idempotent, All-append, All-map,
}
use beanstream.Error.{Result, err, request_aborted}
use beanstream.Crates.{Crates}
use beanstream.Tokio.{NotifyCrate}
use beanstream.ProxyConfig.{ProxyCrate}
use beanstream.Response.{HttpResponse}
use beanstream.Request.{HttpRequest}
use beanstream.Request.Exec.{Exec}
use beanstream.Request.World.{World, Env}
use beanstream.Request.Send.{InterceptorChain, Race, fired_before, unfired, send}

module _ (crate : NotifyCrate) where
  open crate use {Notify, Notified, new_notify, notified, notify_waiters, is_ready}

  pub record Inner : Type 0 where
    pub aborted : Bool
    pub notify : Notify

  -- `AbortController::new`; `create_abort_signal` hands out two handles on it
  unfoldable pub new_controller : Inner
  new_controller = record { aborted = false; notify = new_notify }

  unfoldable pub is_aborted : Inner → Bool
  is_aborted inner = inner.aborted

  -- The two halves of `abort`
  unfoldable pub store_aborted : Inner → Inner
  store_aborted inner = record inner { aborted = true }

  unfoldable pub wake_waiters : Inner → Inner
  wake_waiters inner = record inner { notify = notify_waiters inner.notify }

  unfoldable pub abort : Inner → Inner
  unfolding store_aborted wake_waiters
  abort inner = wake_waiters (store_aborted inner)

  -- Where a call of `cancelled` stands: before the first test of the loop, between it and the call
  -- of `notified`, at the `await`, before the second test, or after its return.
  pub data Cancelled : Type 0 where
    checking : Cancelled
    registering : Cancelled
    waiting : Notified → Cancelled
    rechecking : Cancelled
    returned : Cancelled

  -- What the call does when it is polled, up to the next place where another task can run.
  unfoldable pub poll : Cancelled → Inner → Cancelled × Inner
  unfolding is_aborted
  poll checking inner = (if is_aborted inner then returned else registering, inner)
  poll registering inner =
      let r = notified inner.notify in (waiting r.0, record inner { notify = r.1 })
  poll (waiting t) inner = (if is_ready inner.notify t then rechecking else waiting t, inner)
  poll rechecking inner = (if is_aborted inner then returned else checking, inner)
  poll returned inner = (returned, inner)

  -- One call of `cancelled`, and how many calls of `abort` are between their two halves.
  pub record System : Type 0 where
    pub inner : Inner
    pub aborting : ℕ
    pub waiter : Cancelled

  unfoldable pub polled : System → System
  unfolding poll
  polled s = let r = poll s.waiter s.inner in record s { inner = r.1; waiter = r.0 }

  unfoldable pub polled_times : ℕ → System → System
  unfolding polled
  polled_times zero s = s
  polled_times (suc n) s = polled_times n (polled s)

  unfoldable pub woken : System → System
  unfolding wake_waiters
  woken s = record s { inner = wake_waiters s.inner; aborting = s.aborting - 1 }

  -- Any interleaving of calls of `abort`, of this call of `cancelled` and of others, which register
  -- with the same `Notify`.
  pub data Next (s : System) : System → Type 0 where
    abort_begins : Next s (record s { inner = store_aborted s.inner; aborting = suc s.aborting })
    abort_ends : 0 < s.aborting → Next s (woken s)
    polls : Next s (polled s)
    other_registers :
        Next s (record s { inner = record s.inner { notify = (notified s.inner.notify).1 } })

  pub data Reachable : System → Type 0 where
    starts : Reachable (record { inner = new_controller; aborting = 0; waiter = checking })
    continues : {s t : System} → Reachable s → Next s t → Reachable t

module _ (crates : Crates) (proxies : ProxyCrate crates) (env : Env) where
  -- The request races with the signal, which may have fired before, and with its own signal. `race`
  -- and `own` say how these races begin.
  unfoldable pub execute_with_abort :
      InterceptorChain crates proxies
      → HttpRequest crates proxies
      → (race own : Race) → Exec World HttpResponse
  execute_with_abort interceptors request race own w =
      let run = send crates proxies env interceptors request own w in
      elim race [ fired_before ↦ (err request_aborted, w) | unfired ↦ run ]
