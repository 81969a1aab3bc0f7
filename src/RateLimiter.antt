-- ===== src/RateLimiter.antt =====
-- rate_limit.rs: a semaphore, and a clock that spaces the starts. An instant is a number of
-- nanoseconds. `acquire` is cut where another task can run: at the semaphore, at the lock on the last
-- start, and at the sleep under the lock.
pub mod Steps
pub mod Slots
pub mod Spacing
pub mod Waiting
use beanstream.Prelude.{
  ℕ, zero, suc, ◌+◌, ◌-◌, ◌*◌, ◌/◌, ◌%◌, ◌^◌, ◌≤◌, ◌<◌, min, max, code, String, ◌≡◌, refl, sym, ap,
  subst, ◌∙◌, ◌≢◌, ◌↔◌, ◌⊎◌, inl, inr, Bool, true, false, not, ◌&&◌, ◌||◌, Option, none, some, List,
  [], ◌∷◌, ◌++◌, map, reverse, arith, ltb, leb, ◌==◌, if◌then◌else◌, between, ==_iff, Bool-cases,
  Option-cases, length, any, all, find, keep, length-append, any-append, all-append, All, all_iff,
  All-keep, keep_of_All, keep_idempotent, All-append, All-map,
}
use beanstream.Error.{Result, ok, err, rate_limited}
use beanstream.Tokio.{SemaphoreCrate}

module _ (crate : SemaphoreCrate) where
  open crate use {
    Semaphore, new_semaphore, available_permits, is_closed, take_permit, return_permit,
  }

  pub record RateLimiter : Type 0 where
    pub semaphore : Semaphore
    pub min_interval : Option ℕ
    pub last_started : Option ℕ

  unfoldable pub new : ℕ → RateLimiter
  new max_concurrent = record {
    semaphore = new_semaphore (max max_concurrent 1);
    min_interval = none;
    last_started = none;
  }

  unfoldable pub with_min_interval : ℕ → RateLimiter → RateLimiter
  with_min_interval interval limiter = record limiter { min_interval = some interval }

  unfoldable pub max_concurrent : RateLimiter → ℕ
  max_concurrent limiter = available_permits limiter.semaphore

  unfoldable pub taken : RateLimiter → RateLimiter
  taken limiter = record limiter { semaphore = take_permit limiter.semaphore }

  -- The guard is dropped.
  unfoldable pub released : RateLimiter → RateLimiter
  released limiter = record limiter { semaphore = return_permit limiter.semaphore }

  -- `acquire_owned().await`: `none` while no permit is free
  unfoldable pub acquire_permit : RateLimiter → Option (Result RateLimiter)
  acquire_permit limiter =
      if is_closed limiter.semaphore
      then some (err rate_limited)
      else if available_permits limiter.semaphore == 0
      then none
      else some (ok (taken limiter))

  -- When the sleep under the lock is over, if the lock is got at `now`.
  unfoldable pub wake_time : RateLimiter → ℕ → ℕ
  wake_time limiter now = elim limiter.min_interval [
    | none ↦ now
    | some interval ↦ elim limiter.last_started [
      | none ↦ now
      | some previous ↦
          let elapsed = now - previous in
          if ltb elapsed interval then now + (interval - elapsed) else now
    ]
  ]

  -- `*last = Some(Instant::now())`
  unfoldable pub started : ℕ → RateLimiter → RateLimiter
  started now limiter = record limiter { last_started = some now }

  unfoldable pub try_acquire : RateLimiter → Result RateLimiter
  try_acquire limiter =
      if is_closed limiter.semaphore || available_permits limiter.semaphore == 0
      then err rate_limited
      else ok (taken limiter)
