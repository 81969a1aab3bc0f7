-- ===== src/RateLimiter/Waiting.antt =====
-- How long a call of `acquire` waits.
use beanstream.Prelude.{
  ℕ, suc, ◌+◌, ◌-◌, ◌≤◌, ◌<◌, max, ◌≡◌, refl, inl, inr, false, none, some, arith, ◌==◌,
  Option-cases,
}
use beanstream.Error.{ok}
use beanstream.Tokio.{SemaphoreCrate, SemaphoreLaws}
use beanstream.RateLimiter.{RateLimiter, acquire_permit, wake_time, started, taken, max_concurrent}
use beanstream.RateLimiter.Steps.{System, Next, queues, locks, enters, passes, built, Reachable}
use beanstream.RateLimiter.Slots.{IsBalanced, Reachable-IsBalanced}
use beanstream.RateLimiter.Spacing.{Reachable-IsPaced}

module _ (crate : SemaphoreCrate) (laws : SemaphoreLaws crate) where
  open crate use {available_permits}

  -- Any number of steps.
  pub data Leads (s : System crate) : System crate → Type 0 where
    stays : Leads s s
    steps : {t u : System crate} → Leads s t → Next crate t u → Leads s u

  acquire_permit-free :
      (n : ℕ) (s : System crate)
      → IsBalanced crate laws n s
      → 0 < max_concurrent crate s.limiter
      → acquire_permit crate s.limiter ≡ some (ok (taken crate s.limiter))
  unfolding acquire_permit max_concurrent
  acquire_permit-free n s b h =
      let is_open = b.is_open in
      let some_free : (available_permits s.limiter.semaphore == 0) ≡ false = ground (arith, h) in
      rw (is_open, some_free) refl

  wake_time-le :
      (limiter : RateLimiter crate) (interval now : ℕ)
      → limiter.min_interval ≡ some interval
      → wake_time crate limiter now ≤ now + interval
  unfolding wake_time
  wake_time-le limiter interval now e = elim (Option-cases limiter.last_started) [
    | inl n ↦ rw (e, n) (omega arith)
    | inr (before, n) ↦ rw (e, n) (ground arith)
  ]

  -- What a call of `acquire` has come to.
  pub record HasEntered (interval : ℕ) (s t : System crate) : Type 0 where
    pub leads : Leads s t
    pub one_more : t.held ≡ suc s.held
    pub in_time : t.now ≤ s.now + interval
    pub is_last : t.limiter.last_started ≡ some t.now

  -- In every interleaving on a limiter with a minimal interval, where a permit is free and no call
  -- has the lock, a call of `acquire` can go through to its guard, and sleeps no longer than the
  -- interval.
  pub acquire_permit-HasEntered :
      (permits interval : ℕ) (s : System crate)
      → Reachable crate (built crate permits (some interval)) s
      → 0 < max_concurrent crate s.limiter
      → s.locked ≡ none
      → (t : System crate) × HasEntered interval s t
  unfolding taken started
  acquire_permit-HasEntered permits interval s r h unlocked =
      let b = Reachable-IsBalanced crate laws permits (some interval) r in
      let p = Reachable-IsPaced crate interval permits r in
      let free = acquire_permit-free (max permits 1) s b h in
      let limiter = taken crate s.limiter in
      let at = wake_time crate limiter s.now in
      let wait = at - s.now in
      let bound = wake_time-le limiter interval s.now p.set in
      (
        _,
        record {
          leads =
              steps
                (steps
                  (steps (steps stays (queues interval limiter p.set free))
                    (locks unlocked (omega arith)))
                  (passes wait))
                (enters at refl (omega arith));
          one_more = refl;
          in_time = omega (arith, bound);
          is_last = refl;
        },
      )
