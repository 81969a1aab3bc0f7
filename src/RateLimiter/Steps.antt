-- ===== src/RateLimiter/Steps.antt =====
-- The calls on one limiter, interleaved in any order.
use beanstream.Prelude.{ℕ, suc, ◌+◌, ◌-◌, ◌≤◌, ◌<◌, ◌≡◌, Option, none, some, List, [], ◌∷◌}
use beanstream.Error.{ok}
use beanstream.Tokio.{SemaphoreCrate}
use beanstream.RateLimiter.{
  RateLimiter, new, with_min_interval, acquire_permit, wake_time, started, try_acquire, released,
}

module _ (crate : SemaphoreCrate) where
  pub record System : Type 0 where
    pub limiter : RateLimiter crate
    pub now : ℕ
    -- the calls of `acquire` that have a permit and wait for the lock
    pub queued : ℕ
    -- when the sleep of the call that has the lock is over
    pub locked : Option ℕ
    -- the guards that are alive
    pub held : ℕ
    -- when the calls of `acquire` set the last start, the last one first
    pub starts : List ℕ

  -- Any interleaving of `acquire`, cancelled or not, of `try_acquire`, of guards that are dropped and
  -- of time that passes.
  pub data Next (s : System) : System → Type 0 where
    acquires :
        (limiter : RateLimiter crate)
        → s.limiter.min_interval ≡ none
        → acquire_permit crate s.limiter ≡ some (ok limiter)
        → Next s (record s { limiter = limiter; held = suc s.held })
    queues :
        (interval : ℕ) (limiter : RateLimiter crate)
        → s.limiter.min_interval ≡ some interval
        → acquire_permit crate s.limiter ≡ some (ok limiter)
        → Next s (record s { limiter = limiter; queued = suc s.queued })
    locks :
        s.locked ≡ none
        → 0 < s.queued
        → Next s
            (record s { queued = s.queued - 1; locked = some (wake_time crate s.limiter s.now) })
    enters :
        (at : ℕ)
        → s.locked ≡ some at
        → at ≤ s.now
        → Next s (record s {
          limiter = started crate s.now s.limiter;
          locked = none;
          held = suc s.held;
          starts = s.now ∷ s.starts;
        })
    tries :
        (limiter : RateLimiter crate)
        → try_acquire crate s.limiter ≡ ok limiter
        → Next s (record s { limiter = limiter; held = suc s.held })
    drops : 0 < s.held → Next s (record s { limiter = released crate s.limiter; held = s.held - 1 })
    queue_cancelled :
        0 < s.queued
        → Next s (record s { limiter = released crate s.limiter; queued = s.queued - 1 })
    lock_cancelled :
        (at : ℕ)
        → s.locked ≡ some at
        → Next s (record s { limiter = released crate s.limiter; locked = none })
    passes : (time : ℕ) → Next s (record s { now = s.now + time })

  abbrev pub idle : RateLimiter crate → ℕ → System
  idle limiter now = record {
    limiter = limiter;
    now = now;
    queued = 0;
    locked = none;
    held = 0;
    starts = [];
  }

  -- `RateLimiter::new`, with an interval or without
  abbrev pub built : ℕ → Option ℕ → RateLimiter crate
  built permits none = new crate permits
  built permits (some interval) = with_min_interval crate interval (new crate permits)

  pub data Reachable (limiter : RateLimiter crate) : System → Type 0 where
    begins : (now : ℕ) → Reachable limiter (idle limiter now)
    continues : {s t : System} → Reachable limiter s → Next s t → Reachable limiter t

  abbrev pub slots : Option ℕ → ℕ
  slots none = 0
  slots (some at) = 1

  -- The permits that are out: the guards, and what the calls of `acquire` under way have.
  abbrev pub in_use : System → ℕ
  in_use s = s.held + s.queued + slots s.locked
