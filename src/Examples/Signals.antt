-- ===== src/Examples/Signals.antt =====
-- The theorems about abort signals and rate limiters, applied to a `Notify` that counts its wake-ups
-- and a `Semaphore` that is a number.
use beanstream.Prelude.{
  ℕ, suc, ◌+◌, ◌-◌, ◌≤◌, ◌<◌, ◌≡◌, refl, ◌≢◌, false, none, some, [], ◌∷◌, arith, ltb,
}
use beanstream.Tokio.{NotifyCrate, NotifyLaws, SemaphoreCrate, SemaphoreLaws}
use beanstream.Abort
use beanstream.Abort.{
  Inner, Cancelled, checking, registering, waiting, rechecking, returned, polled, polled_times,
  woken, Next, abort_begins, abort_ends, polls, Reachable, starts, continues,
}
use beanstream.Abort.Wakeup.{woken-returns, woken-lost}
use beanstream.RateLimiter.{max_concurrent}
use beanstream.RateLimiter
use beanstream.RateLimiter.Steps.{in_use, built}
use beanstream.RateLimiter.Steps
use beanstream.RateLimiter.Slots.{Move, max_concurrent-balance, Next-Move}
use beanstream.RateLimiter.Waiting.{HasEntered, acquire_permit-HasEntered}
use beanstream.RateLimiter.Spacing.{IsSpaced, starts-IsSpaced}

-- A future is complete when the waiters were woken after its creation.
abbrev counter : NotifyCrate
counter = record {
  Notify = ℕ;
  Notified = ℕ;
  new_notify = 0;
  notified = λ n. (n, n);
  notify_waiters = λ n. suc n;
  is_ready = λ n t. ltb t n;
}

counter_laws : NotifyLaws counter
counter_laws = record {
  Waits = λ n t. t ≤ n;
  notified-Waits = λ n. omega arith;
  notified-fresh = λ n. ground arith;
  Waits-notified = λ n t h. h;
  Waits-notify_waiters = λ n t h. omega (arith, h);
  notify_waiters-ready = λ n t h. ground arith;
}

abbrev fresh : Abort.System counter
fresh = record { inner = Abort.new_controller counter; aborting = 0; waiter = checking }

abbrev stored : Abort.System counter → Abort.System counter
stored s = record s { inner = Abort.store_aborted counter s.inner; aborting = suc s.aborting }

-- The abort is stored first, and then `cancelled` is polled.
returned_early : (polled counter (stored fresh)).waiter ≡ returned
unfolding polled Abort.store_aborted
returned_early = refl

-- The call awaits its future when the abort comes.
abbrev awaiting : Abort.System counter
awaiting = polled counter (polled counter fresh)

awaits : (stored awaiting).waiter ≡ waiting 0
unfolding polled Abort.new_controller
awaits = refl

awaiting_late : (stored awaiting).waiter ≢ registering
awaiting_late h = absurd (ground (arith, awaits, h))

woken-returns_example : (polled_times counter 2 (woken counter (stored awaiting))).waiter ≡ returned
unfolding Abort.store_aborted
woken-returns_example =
    woken-returns counter counter_laws (stored awaiting)
      (continues (continues (continues starts polls) polls) abort_begins) refl awaiting_late

-- The abort comes between the test and `notified`.
between_both : (stored (polled counter fresh)).waiter ≡ registering
unfolding polled Abort.new_controller
between_both = refl

woken-lost_example :
    (polled_times counter 5 (woken counter (stored (polled counter fresh)))).waiter ≢ returned
woken-lost_example = woken-lost counter counter_laws (stored (polled counter fresh)) 5 between_both

abbrev permits : SemaphoreCrate
permits = record {
  Semaphore = ℕ;
  new_semaphore = λ n. n;
  available_permits = λ s. s;
  is_closed = λ s. false;
  take_permit = λ s. s - 1;
  return_permit = λ s. suc s;
}

permits_laws : SemaphoreLaws permits
permits_laws = record {
  new-available = λ n. refl;
  new-open = λ n. refl;
  take-available = λ s. refl;
  return-available = λ s. refl;
  take-open = λ s. refl;
  return-open = λ s. refl;
}

-- A limiter of two permits and an interval of 100, made at time 7. Two calls of `acquire` start, the
-- second one a whole interval after the first.
abbrev pace : RateLimiter.RateLimiter permits
pace = record { semaphore = 2; min_interval = some 100; last_started = none }

abbrev one_started : Steps.System permits
one_started = record {
  limiter = record { semaphore = 1; min_interval = some 100; last_started = some 7 };
  now = 7;
  queued = 0;
  locked = none;
  held = 1;
  starts = 7 ∷ [];
}

abbrev two_started : Steps.System permits
two_started = record {
  limiter = record { semaphore = 0; min_interval = some 100; last_started = some 107 };
  now = 107;
  queued = 0;
  locked = none;
  held = 2;
  starts = 107 ∷ 7 ∷ [];
}

one_started_reached : Steps.Reachable permits (built permits 2 (some 100)) one_started
unfolding RateLimiter.with_min_interval RateLimiter.acquire_permit RateLimiter.new RateLimiter.taken
    RateLimiter.wake_time RateLimiter.started
one_started_reached =
    Steps.continues
      (Steps.continues
        (Steps.continues (Steps.begins 7)
          (Steps.queues 100 (record pace { semaphore = 1 }) refl refl))
        (Steps.locks refl (omega arith)))
      (Steps.enters 7 refl (omega arith))

two_started_reached : Steps.Reachable permits (built permits 2 (some 100)) two_started
unfolding RateLimiter.acquire_permit RateLimiter.taken RateLimiter.wake_time RateLimiter.started
two_started_reached =
    Steps.continues
      (Steps.continues
        (Steps.continues
          (Steps.continues one_started_reached
            (Steps.queues 100 (record one_started.limiter { semaphore = 0 }) refl refl))
          (Steps.locks refl (omega arith)))
        (Steps.passes 100))
      (Steps.enters 107 refl (omega arith))

starts-IsSpaced_example : IsSpaced 100 (107 ∷ 7 ∷ [])
starts-IsSpaced_example = starts-IsSpaced permits 100 2 two_started two_started_reached

max_concurrent-balance_example : max_concurrent permits two_started.limiter + 2 ≡ 2
max_concurrent-balance_example =
    max_concurrent-balance permits permits_laws 2 (some 100) two_started two_started_reached

abbrev one_dropped : Steps.System permits
one_dropped = record two_started {
  limiter = record two_started.limiter { semaphore = 1 };
  held = 1;
}

-- Both permits are in use, and one of the guards is dropped.
Next-Move_example : Move 2 2 1
unfolding RateLimiter.released
Next-Move_example =
    Next-Move permits permits_laws 2 (some 100) two_started one_dropped two_started_reached
      (Steps.drops (omega arith))

-- A call on the limiter with one guard alive and the last start at 7.
one_free : 0 < max_concurrent permits one_started.limiter
unfolding max_concurrent
one_free = omega arith

acquire_permit-HasEntered_example :
    (t : Steps.System permits) × HasEntered permits permits_laws 100 one_started t
acquire_permit-HasEntered_example =
    acquire_permit-HasEntered permits permits_laws 2 100 one_started one_started_reached one_free
      refl
