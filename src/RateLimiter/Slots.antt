-- ===== src/RateLimiter/Slots.antt =====
-- The limiter as a number of slots.
use beanstream.Prelude.{
  ℕ, suc, ◌+◌, ◌≤◌, ◌<◌, max, ◌≡◌, refl, ap, ◌∙◌, ◌↔◌, inl, inr, false, ◌||◌, Option, none, some,
  arith, ◌==◌, ==_iff, Bool-cases,
}
use beanstream.Error.{ok, err, rate_limited}
use beanstream.Tokio.{SemaphoreCrate, SemaphoreLaws}
use beanstream.RateLimiter.{
  RateLimiter, new, with_min_interval, acquire_permit, started, try_acquire, released, taken,
  max_concurrent,
}
use beanstream.RateLimiter.Steps.{
  System, Next, acquires, queues, locks, enters, tries, drops, queue_cancelled, lock_cancelled,
  passes, idle, built, Reachable, begins, continues, slots, in_use,
}

-- What a limiter of `n` slots promises: a slot is taken while one is free, or given back.
pub data Move (n used after : ℕ) : Type 0 where
  takes : used < n → after ≡ suc used → Move n used after
  gives : used ≡ suc after → Move n used after
  keeps : after ≡ used → Move n used after

module _ (crate : SemaphoreCrate) (laws : SemaphoreLaws crate) where
  open crate use {available_permits, is_closed}

  abbrev free : RateLimiter crate → ℕ
  free limiter = available_permits limiter.semaphore

  -- Every permit is free or in use, and the semaphore is open.
  pub record IsBalanced (n : ℕ) (s : System crate) : Type 0 where
    pub balance : free s.limiter + in_use crate s ≡ n
    pub is_open : is_closed s.limiter.semaphore ≡ false

  taken_of_acquire_permit :
      (limiter after : RateLimiter crate)
      → acquire_permit crate limiter ≡ some (ok after)
      → (after ≡ taken crate limiter) × (0 < free limiter)
  unfolding acquire_permit
  taken_of_acquire_permit limiter after h = elim (Bool-cases (is_closed limiter.semaphore)) [
    | inl e ↦ absurd (ground arith)
    | inr e ↦ elim (Bool-cases (free limiter == 0)) [
      | inl z ↦ absurd (ground arith)
      | inr z ↦ (cc, ground arith)
    ]
  ]

  taken_of_try_acquire :
      (limiter after : RateLimiter crate)
      → try_acquire crate limiter ≡ ok after
      → (after ≡ taken crate limiter) × (0 < free limiter)
  unfolding try_acquire
  taken_of_try_acquire limiter after h =
      elim (Bool-cases (is_closed limiter.semaphore || free limiter == 0)) [
        | inl e ↦ absurd (ground arith)
        | inr e ↦ (cc, ground arith)
      ]

  taken-IsBalanced :
      (n : ℕ) (s t : System crate)
      → t.limiter ≡ taken crate s.limiter
      → 0 < free s.limiter
      → in_use crate t ≡ suc (in_use crate s)
      → IsBalanced n s
      → IsBalanced n t
  unfolding taken
  taken-IsBalanced n s t same some_free more b = record {
    balance =
        rw same
          (omega (arith, laws.take-available s.limiter.semaphore, some_free, b.balance, more));
    is_open = rw same (laws.take-open s.limiter.semaphore ∙ b.is_open);
  }

  released-IsBalanced :
      (n : ℕ) (s t : System crate)
      → t.limiter ≡ released crate s.limiter
      → suc (in_use crate t) ≡ in_use crate s
      → IsBalanced n s
      → IsBalanced n t
  unfolding released
  released-IsBalanced n s t same less b = record {
    balance = rw same (omega (arith, laws.return-available s.limiter.semaphore, b.balance, less));
    is_open = rw same (laws.return-open s.limiter.semaphore ∙ b.is_open);
  }

  Next-IsBalanced : (n : ℕ) (s t : System crate) → Next crate s t → IsBalanced n s → IsBalanced n t
  unfolding started
  Next-IsBalanced n s t (acquires limiter unspaced e) b =
      let (same, some_free) = taken_of_acquire_permit s.limiter limiter e in
      taken-IsBalanced n s _ same some_free (omega arith) b
  Next-IsBalanced n s t (queues interval limiter spaced e) b =
      let (same, some_free) = taken_of_acquire_permit s.limiter limiter e in
      taken-IsBalanced n s _ same some_free (omega arith) b
  Next-IsBalanced n s t (locks unlocked k) b = record {
    balance = omega (arith, k, b.balance, ap (slots crate) unlocked);
    is_open = b.is_open;
  }
  Next-IsBalanced n s t (enters at e k) b = record {
    balance = omega (arith, b.balance, ap (slots crate) e);
    is_open = b.is_open;
  }
  Next-IsBalanced n s t (tries limiter e) b =
      let (same, some_free) = taken_of_try_acquire s.limiter limiter e in
      taken-IsBalanced n s _ same some_free (omega arith) b
  Next-IsBalanced n s t (drops k) b = released-IsBalanced n s _ refl (omega (arith, k)) b
  Next-IsBalanced n s t (queue_cancelled k) b = released-IsBalanced n s _ refl (omega (arith, k)) b
  Next-IsBalanced n s t (lock_cancelled at e) b =
      released-IsBalanced n s _ refl (omega (arith, ap (slots crate) e)) b
  Next-IsBalanced n s t (passes time) b = record { balance = b.balance; is_open = b.is_open }

  built-IsBalanced :
      (permits : ℕ) (interval : Option ℕ) (now : ℕ)
      → IsBalanced (max permits 1) (idle crate (built crate permits interval) now)
  unfolding new with_min_interval
  built-IsBalanced permits none now = record {
    balance = omega (arith, laws.new-available (max permits 1));
    is_open = laws.new-open (max permits 1);
  }
  built-IsBalanced permits (some interval) now = record {
    balance = omega (arith, laws.new-available (max permits 1));
    is_open = laws.new-open (max permits 1);
  }

  pub Reachable-IsBalanced :
      (permits : ℕ) (interval : Option ℕ) {s : System crate}
      → Reachable crate (built crate permits interval) s
      → IsBalanced (max permits 1) s
  Reachable-IsBalanced permits interval (begins now) = built-IsBalanced permits interval now
  Reachable-IsBalanced permits interval (continues r h) =
      Next-IsBalanced (max permits 1) _ _ h (Reachable-IsBalanced permits interval r)

  -- In every interleaving, the permits that are free and those in use, by guards or by calls of
  -- `acquire` under way, are together the maximum that `new` was given, or one if that is zero.
  pub max_concurrent-balance :
      (permits : ℕ) (interval : Option ℕ) (s : System crate)
      → Reachable crate (built crate permits interval) s
      → max_concurrent crate s.limiter + in_use crate s ≡ max permits 1
  unfolding max_concurrent
  max_concurrent-balance permits interval s r = (Reachable-IsBalanced permits interval r).balance

  -- In every interleaving, `try_acquire` is refused exactly where all permits are in use.
  pub try_acquire-refused_iff :
      (permits : ℕ) (interval : Option ℕ) (s : System crate)
      → Reachable crate (built crate permits interval) s
      → (try_acquire crate s.limiter ≡ err rate_limited) ↔ (in_use crate s ≡ max permits 1)
  unfolding try_acquire
  try_acquire-refused_iff permits interval s r =
      let b = Reachable-IsBalanced permits interval r in
      let all_out = b.balance in
      elim (Bool-cases (free s.limiter == 0)) [
        | inl z ↦
            let empty : free s.limiter ≡ 0 = (==_iff _ _).0 z in
            (λ _. omega (arith, empty, all_out), λ _. rw (b.is_open, z) refl)
        | inr z ↦ (λ h. absurd (cc (rw (b.is_open, z) at h)), λ h. absurd (ground (arith, all_out)))
      ]

  -- Each step of each interleaving is one of a counter of slots: it takes a slot while fewer than the
  -- maximum are taken, or gives one back, or leaves the number as it is.
  pub Next-Move :
      (permits : ℕ) (interval : Option ℕ) (s t : System crate)
      → Reachable crate (built crate permits interval) s
      → Next crate s t
      → Move (max permits 1) (in_use crate s) (in_use crate t)
  Next-Move permits interval s t r h =
      let after = Reachable-IsBalanced permits interval (continues r h) in
      (let room : in_use crate t ≤ max permits 1 = omega (arith, after.balance) in
        move_of_next (max permits 1) s t h room)
    where
      move_of_next :
          (n : ℕ) (s t : System crate)
          → Next crate s t
          → in_use crate t ≤ n
          → Move n (in_use crate s) (in_use crate t)
      move_of_next n s t (acquires limiter unspaced e) room = takes (omega arith) (omega arith)
      move_of_next n s t (queues i limiter spaced e) room = takes (omega arith) (omega arith)
      move_of_next n s t (locks unlocked k) room =
          keeps (omega (arith, k, ap (slots crate) unlocked))
      move_of_next n s t (enters at e k) room = keeps (omega (arith, ap (slots crate) e))
      move_of_next n s t (tries limiter e) room = takes (omega arith) (omega arith)
      move_of_next n s t (drops k) room = gives (omega (arith, k))
      move_of_next n s t (queue_cancelled k) room = gives (omega (arith, k))
      move_of_next n s t (lock_cancelled at e) room = gives (omega (arith, ap (slots crate) e))
      move_of_next n s t (passes time) room = keeps refl
