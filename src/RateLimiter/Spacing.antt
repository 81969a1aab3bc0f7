-- ===== src/RateLimiter/Spacing.antt =====
-- How the starts are spaced.
use beanstream.Prelude.{
  ℕ, ◌+◌, ◌≤◌, ◌≡◌, refl, sym, ap, ◌∙◌, Option, none, some, List, [], ◌∷◌, arith,
}
use beanstream.Error.{ok}
use beanstream.Tokio.{SemaphoreCrate}
use beanstream.RateLimiter.{
  RateLimiter, new, with_min_interval, acquire_permit, wake_time, started, try_acquire, released,
  taken,
}
use beanstream.RateLimiter.Steps.{
  System, Next, acquires, queues, locks, enters, tries, drops, queue_cancelled, lock_cancelled,
  passes, built, Reachable, begins, continues,
}

-- Each start but the first comes `interval` or more after the one before.
abbrev pub IsSpaced : ℕ → List ℕ → Type 0
IsSpaced interval [] = Unit {0}
IsSpaced interval (at ∷ []) = Unit
IsSpaced interval (at ∷ before ∷ starts) =
    (before + interval ≤ at) × IsSpaced interval (before ∷ starts)

abbrev IsAfter : ℕ → List ℕ → ℕ → Type 0
IsAfter interval [] at = Unit {0}
IsAfter interval (before ∷ starts) at = before + interval ≤ at

abbrev latest : List ℕ → Option ℕ
latest [] = none
latest (at ∷ starts) = some at

module _ (crate : SemaphoreCrate) where
  IsAfter-le :
      (interval : ℕ) (starts : List ℕ) (at later : ℕ)
      → at ≤ later
      → IsAfter interval starts at
      → IsAfter interval starts later
  IsAfter-le interval [] at later h k = tt
  IsAfter-le interval (before ∷ starts) at later h k = omega (arith, h, k)

  taken-set :
      (limiter after : RateLimiter crate)
      → acquire_permit crate limiter ≡ some (ok after)
      → after ≡ taken crate limiter
  unfolding acquire_permit
  taken-set limiter after e = ground arith

  tried-set :
      (limiter after : RateLimiter crate)
      → try_acquire crate limiter ≡ ok after
      → after ≡ taken crate limiter
  unfolding try_acquire
  tried-set limiter after e = ground arith

  module _ (interval : ℕ) where
    -- The limiter knows the last start, which is not in the future, and a sleep under the lock ends
    -- when the interval is over.
    pub record IsPaced (s : System crate) : Type 0 where
      pub spaced : IsSpaced interval s.starts
      pub known : s.limiter.last_started ≡ latest s.starts
      pub set : s.limiter.min_interval ≡ some interval
      pub past : IsAfter 0 s.starts s.now
      pub sleeps : (at : ℕ) → s.locked ≡ some at → IsAfter interval s.starts at

    wake_time-le :
        (limiter : RateLimiter crate) (before now : ℕ)
        → limiter.min_interval ≡ some interval
        → limiter.last_started ≡ some before
        → before ≤ now
        → before + interval ≤ wake_time crate limiter now
    unfolding wake_time
    wake_time-le limiter before now e k h = rw (e, k) (ground (arith, h))

    wake_time-IsAfter :
        (limiter : RateLimiter crate) (starts : List ℕ) (now : ℕ)
        → limiter.min_interval ≡ some interval
        → limiter.last_started ≡ latest starts
        → IsAfter 0 starts now
        → IsAfter interval starts (wake_time crate limiter now)
    wake_time-IsAfter limiter [] now e k h = tt
    wake_time-IsAfter limiter (before ∷ starts) now e k h =
        wake_time-le limiter before now e k (omega (arith, h))

    IsSpaced-cons :
        (starts : List ℕ) (at : ℕ)
        → IsSpaced interval starts
        → IsAfter interval starts at
        → IsSpaced interval (at ∷ starts)
    IsSpaced-cons [] at h k = tt
    IsSpaced-cons (before ∷ starts) at h k = (k, h)

    -- Where the interval and the last start stay.
    same_pace :
        (s t : System crate)
        → t.starts ≡ s.starts
        → t.limiter.last_started ≡ s.limiter.last_started
        → t.limiter.min_interval ≡ s.limiter.min_interval
        → s.now ≤ t.now
        → ((at : ℕ) → t.locked ≡ some at → s.locked ≡ some at)
        → IsPaced s
        → IsPaced t
    same_pace s t e k l m h p = record {
      spaced = rw e p.spaced;
      known = k ∙ p.known ∙ ap latest (sym e);
      set = l ∙ p.set;
      past = rw e (IsAfter-le 0 s.starts s.now t.now m p.past);
      sleeps = λ at q. rw e (p.sleeps at (h at q));
    }

    Next-IsPaced : (s t : System crate) → Next crate s t → IsPaced s → IsPaced t
    unfolding taken released started
    Next-IsPaced s t (acquires limiter unspaced e) p = absurd (cc (unspaced, p.set))
    Next-IsPaced s t (queues i limiter spaced e) p =
        let same = taken-set s.limiter limiter e in
        same_pace s _ refl (ap (λ l. l.last_started) same) (ap (λ l. l.min_interval) same)
          (omega arith) (λ at q. q) p
    Next-IsPaced s t (locks unlocked k) p = record {
      spaced = p.spaced;
      known = p.known;
      set = p.set;
      past = p.past;
      sleeps = λ at q.
          let same : wake_time crate s.limiter s.now ≡ at = cc in
          rw⁻¹ same (wake_time-IsAfter s.limiter s.starts s.now p.set p.known p.past);
    }
    Next-IsPaced s t (enters at e k) p = record {
      spaced =
          IsSpaced-cons s.starts s.now p.spaced
            (IsAfter-le interval s.starts at s.now k (p.sleeps at e));
      known = refl;
      set = p.set;
      past = omega arith;
      sleeps = λ later q. absurd (cc q);
    }
    Next-IsPaced s t (tries limiter e) p =
        let same = tried-set s.limiter limiter e in
        same_pace s _ refl (ap (λ l. l.last_started) same) (ap (λ l. l.min_interval) same)
          (omega arith) (λ at q. q) p
    Next-IsPaced s t (drops k) p = same_pace s _ refl refl refl (omega arith) (λ at q. q) p
    Next-IsPaced s t (queue_cancelled k) p =
        same_pace s _ refl refl refl (omega arith) (λ at q. q) p
    Next-IsPaced s t (lock_cancelled at e) p =
        same_pace s _ refl refl refl (omega arith) (λ later q. absurd (cc q)) p
    Next-IsPaced s t (passes time) p = same_pace s _ refl refl refl (omega arith) (λ at q. q) p

    pub Reachable-IsPaced :
        (permits : ℕ) {s : System crate}
        → Reachable crate (built crate permits (some interval)) s
        → IsPaced s
    unfolding new with_min_interval
    Reachable-IsPaced permits (begins now) = record {
      spaced = tt;
      known = refl;
      set = refl;
      past = tt;
      sleeps = λ at q. absurd (cc q);
    }
    Reachable-IsPaced permits (continues r h) = Next-IsPaced _ _ h (Reachable-IsPaced permits r)

  -- In every interleaving of calls on a limiter with a minimal interval, two starts that follow each
  -- other by `acquire` are at least the interval apart; `try_acquire` is not counted.
  pub starts-IsSpaced :
      (interval permits : ℕ) (s : System crate)
      → Reachable crate (built crate permits (some interval)) s
      → IsSpaced interval s.starts
  starts-IsSpaced interval permits s r = (Reachable-IsPaced interval permits r).spaced
