-- ===== src/Abort/Wakeup.antt =====
-- When a call of `cancelled` returns.
use beanstream.Prelude.{
  ℕ, zero, suc, ◌<◌, ◌≡◌, refl, subst, ◌∙◌, ◌≢◌, inl, inr, true, false, arith, Bool-cases,
}
use beanstream.Tokio.{NotifyCrate, NotifyLaws}
use beanstream.Abort.{
  Inner, is_aborted, store_aborted, wake_waiters, Cancelled, checking, registering, waiting,
  rechecking, returned, poll, System, polled, polled_times, woken, Next, abort_begins, abort_ends,
  polls, other_registers, Reachable, starts, continues,
}

module _ (crate : NotifyCrate) (laws : NotifyLaws crate) where
  open crate use {Notify, Notified, notified, notify_waiters, is_ready}
  open laws use {
    Waits, notified-Waits, notified-fresh, Waits-notified, Waits-notify_waiters,
    notify_waiters-ready,
  }

  -- A future that is awaited is known to its `Notify`, and a call has returned only after an abort.
  abbrev pub IsSoundAt : Cancelled crate → Inner crate → Type 0
  IsSoundAt checking inner = Unit {0}
  IsSoundAt registering inner = Unit
  IsSoundAt (waiting t) inner = Waits inner.notify t
  IsSoundAt rechecking inner = Unit
  IsSoundAt returned inner = inner.aborted ≡ true

  abbrev pub IsSound : System crate → Type 0
  IsSound s = IsSoundAt s.waiter s.inner × (0 < s.aborting → s.inner.aborted ≡ true)

  poll-aborted :
      (c : Cancelled crate) (inner : Inner crate) → (poll crate c inner).1.aborted ≡ inner.aborted
  unfolding poll
  poll-aborted checking inner = refl
  poll-aborted registering inner = refl
  poll-aborted (waiting t) inner = refl
  poll-aborted rechecking inner = refl
  poll-aborted returned inner = refl

  poll-IsSoundAt :
      (c : Cancelled crate) (inner : Inner crate)
      → IsSoundAt c inner
      → IsSoundAt (poll crate c inner).0 (poll crate c inner).1
  unfolding poll is_aborted
  poll-IsSoundAt checking inner h = elim (Bool-cases inner.aborted) [
    | inl e ↦ rw e refl
    | inr e ↦ rw e tt
  ]
  poll-IsSoundAt registering inner h = notified-Waits inner.notify
  poll-IsSoundAt (waiting t) inner h = elim (Bool-cases (is_ready inner.notify t)) [
    | inl e ↦ rw e tt
    | inr e ↦ rw e h
  ]
  poll-IsSoundAt rechecking inner h = elim (Bool-cases inner.aborted) [
    | inl e ↦ rw e refl
    | inr e ↦ rw e tt
  ]
  poll-IsSoundAt returned inner h = h

  store_aborted-IsSoundAt :
      (c : Cancelled crate) (inner : Inner crate)
      → IsSoundAt c inner
      → IsSoundAt c (store_aborted crate inner)
  unfolding store_aborted
  store_aborted-IsSoundAt checking inner h = tt
  store_aborted-IsSoundAt registering inner h = tt
  store_aborted-IsSoundAt (waiting t) inner h = h
  store_aborted-IsSoundAt rechecking inner h = tt
  store_aborted-IsSoundAt returned inner h = refl

  renotify-IsSoundAt :
      (c : Cancelled crate) (inner : Inner crate) (n : Notify)
      → ((t : Notified) → Waits inner.notify t → Waits n t)
      → IsSoundAt c inner
      → IsSoundAt c (record inner { notify = n })
  renotify-IsSoundAt checking inner n k h = tt
  renotify-IsSoundAt registering inner n k h = tt
  renotify-IsSoundAt (waiting t) inner n k h = k t h
  renotify-IsSoundAt rechecking inner n k h = tt
  renotify-IsSoundAt returned inner n k h = h

  Next-IsSound : {s t : System crate} → Next crate s t → IsSound s → IsSound t
  unfolding store_aborted woken wake_waiters polled
  Next-IsSound {s = s} abort_begins h = (store_aborted-IsSoundAt s.waiter s.inner h.0, λ _. refl)
  Next-IsSound {s = s} (abort_ends k) h =
      (renotify-IsSoundAt s.waiter s.inner _ (Waits-notify_waiters s.inner.notify) h.0, λ _. h.1 k)
  Next-IsSound {s = s} polls h =
      (poll-IsSoundAt s.waiter s.inner h.0, λ k. poll-aborted s.waiter s.inner ∙ h.1 k)
  Next-IsSound {s = s} other_registers h =
      (renotify-IsSoundAt s.waiter s.inner _ (Waits-notified s.inner.notify) h.0, h.1)

  pub Reachable-IsSound : {s : System crate} → Reachable crate s → IsSound s
  Reachable-IsSound starts = (tt, λ k. absurd (omega (arith, k)))
  Reachable-IsSound (continues r n) = Next-IsSound n (Reachable-IsSound r)

  -- In every interleaving, a call of `cancelled` has returned only where an abort has been stored.
  returned-aborted :
      (s : System crate) → Reachable crate s → s.waiter ≡ returned → s.inner.aborted ≡ true
  returned-aborted s r h = subst (λ c. IsSoundAt c s.inner) h (Reachable-IsSound r).0

  -- No step of any interleaving takes an abort back.
  pub Next-aborted :
      (s t : System crate) → Next crate s t → s.inner.aborted ≡ true → t.inner.aborted ≡ true
  unfolding store_aborted woken wake_waiters polled
  Next-aborted s t abort_begins h = refl
  Next-aborted s t (abort_ends k) h = h
  Next-aborted s t polls h = poll-aborted s.waiter s.inner ∙ h
  Next-aborted s t other_registers h = h

  woken_at :
      (c : Cancelled crate) (s : System crate)
      → s.waiter ≡ c
      → IsSoundAt c s.inner
      → s.inner.aborted ≡ true
      → c ≢ registering
      → (polled_times crate 2 (woken crate s)).waiter ≡ returned
  unfolding polled_times polled poll woken wake_waiters is_aborted
  woken_at checking s e h a k = rw (e, a) refl
  woken_at registering s e h a k = absurd (k refl)
  woken_at (waiting t) s e h a k = rw (e, notify_waiters-ready s.inner.notify t h, a) refl
  woken_at rechecking s e h a k = rw (e, a) refl
  woken_at returned s e h a k = rw e refl

  -- In every interleaving, where a call of `abort` has stored the abort and now wakes the waiters, a
  -- call of `cancelled` that is not between its test and `notified` returns within two polls.
  pub woken-returns :
      (s : System crate)
      → Reachable crate s
      → s.inner.aborted ≡ true
      → s.waiter ≢ registering
      → (polled_times crate 2 (woken crate s)).waiter ≡ returned
  woken-returns s r a k = woken_at s.waiter s refl (Reachable-IsSound r).0 a k

  stuck :
      (n : ℕ) (s : System crate) (t : Notified)
      → s.waiter ≡ waiting t
      → is_ready s.inner.notify t ≡ false
      → (polled_times crate n s).waiter ≡ waiting t
  unfolding polled_times polled poll
  stuck zero s t e k = e
  stuck (suc n) s t e k = stuck n (polled crate s) t (rw (e, k) refl) (rw (e, k) refl)

  -- Where the waiters are woken while a call of `cancelled` is between its test and `notified`, the
  -- call misses the abort: no number of polls makes it return, unless they are woken again.
  pub woken-lost :
      (s : System crate) (n : ℕ)
      → s.waiter ≡ registering
      → (polled_times crate n (woken crate s)).waiter ≢ returned
  unfolding woken polled_times polled poll wake_waiters
  woken-lost s zero e h = absurd (cc)
  woken-lost s (suc n) e h =
      let w = polled crate (woken crate s) in
      let t = (notified (notify_waiters s.inner.notify)).0 in
      let waits : w.waiter ≡ waiting t = rw e refl in
      let unready : is_ready w.inner.notify t ≡ false =
        rw e (notified-fresh (notify_waiters s.inner.notify)) in
      let same = stuck n w t waits unready in cc
