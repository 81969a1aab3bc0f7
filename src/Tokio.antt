-- ===== src/Tokio.antt =====
-- What the source calls from `tokio::sync`: `Notify` and `Semaphore`, as records of functions, each
-- with a record of laws that says what the documentation promises.
use beanstream.Prelude.{ℕ, suc, ◌-◌, ◌≡◌, Bool, true, false}

pub record NotifyCrate : Type 1 where
  pub Notify : Type 0
  -- a future that `notified` returned
  pub Notified : Type 0
  pub new_notify : Notify
  pub notified : Notify → Notified × Notify
  pub notify_waiters : Notify → Notify
  -- whether polling the future finds it complete
  pub is_ready : Notify → Notified → Bool

-- `Waits` holds of a future from its creation on. `notify_waiters` completes such a future, and
-- stores nothing for one that is created later.
pub record NotifyLaws (crate : NotifyCrate) : Type 1 where
  pub Waits : crate.Notify → crate.Notified → Type 0
  pub notified-Waits : (n : crate.Notify) → Waits (crate.notified n).1 (crate.notified n).0
  pub notified-fresh :
      (n : crate.Notify) → crate.is_ready (crate.notified n).1 (crate.notified n).0 ≡ false
  pub Waits-notified :
      (n : crate.Notify) (t : crate.Notified) → Waits n t → Waits (crate.notified n).1 t
  pub Waits-notify_waiters :
      (n : crate.Notify) (t : crate.Notified) → Waits n t → Waits (crate.notify_waiters n) t
  pub notify_waiters-ready :
      (n : crate.Notify) (t : crate.Notified)
      → Waits n t
      → crate.is_ready (crate.notify_waiters n) t ≡ true

pub record SemaphoreCrate : Type 1 where
  pub Semaphore : Type 0
  pub new_semaphore : ℕ → Semaphore
  pub available_permits : Semaphore → ℕ
  -- whether `close` was called
  pub is_closed : Semaphore → Bool
  pub take_permit : Semaphore → Semaphore
  pub return_permit : Semaphore → Semaphore

-- A permit that is taken is not available until it is returned. Neither closes the semaphore.
pub record SemaphoreLaws (crate : SemaphoreCrate) : Type 0 where
  pub new-available : (n : ℕ) → crate.available_permits (crate.new_semaphore n) ≡ n
  pub new-open : (n : ℕ) → crate.is_closed (crate.new_semaphore n) ≡ false
  pub take-available :
      (s : crate.Semaphore)
      → crate.available_permits (crate.take_permit s) ≡ crate.available_permits s - 1
  pub return-available :
      (s : crate.Semaphore)
      → crate.available_permits (crate.return_permit s) ≡ suc (crate.available_permits s)
  pub take-open : (s : crate.Semaphore) → crate.is_closed (crate.take_permit s) ≡ crate.is_closed s
  pub return-open :
      (s : crate.Semaphore) → crate.is_closed (crate.return_permit s) ≡ crate.is_closed s
