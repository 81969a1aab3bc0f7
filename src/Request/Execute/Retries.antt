-- ===== src/Request/Execute/Retries.antt =====
-- How often an exchange is repeated, how long is slept in between, and when it is not repeated.
use beanstream.Prelude.{
  ℕ, zero, suc, ◌+◌, ◌-◌, ◌≤◌, ◌<◌, max, ◌≡◌, refl, ap, ◌∙◌, ◌↔◌, ◌⊎◌, inl, inr, true, false,
  Option, none, some, ◌∷◌, arith, if◌then◌else◌, Bool-cases,
}
use beanstream.Error.{
  BeanStreamError, Result, ok, err, network_timeout, server_error, rate_limited, request_failed,
}
use beanstream.Retry.{
  RetryConfig, timeout_kind, server_kind, limited_kind, connection_kind, other_kind, classify_error,
  should_retry, backoff, next_delay,
}
use beanstream.Retry.Classes.{should_retry_status_iff}
use beanstream.Retry.Kinds.{Lists, retries_iff}
use beanstream.Request.Exec.{Exec}
use beanstream.Request.World.{World, Env}
use beanstream.Request.Transport.{Exchange}
use beanstream.Request.Execute.{is_retryable, sleep, attempts, retries_left}

module _ (env : Env) (retry : RetryConfig) where
  -- The failures that the configuration lists, and every other error where it lists the other kind.
  abbrev pub IsListed : BeanStreamError → Type 0
  IsListed (network_timeout ms) = Lists retry.retry_on timeout_kind
  IsListed (server_error status) = Lists retry.retry_on server_kind
  IsListed rate_limited = Lists retry.retry_on limited_kind
  IsListed (request_failed message) = Lists retry.retry_on connection_kind
  IsListed _ = Lists retry.retry_on other_kind

  -- An outcome that is repeated: a status 429 or 5xx, or an error, of a kind that is listed.
  abbrev pub IsRepeated : Result Exchange → Type 0
  IsRepeated (ok reply) =
      ((reply.status ≡ 429) × Lists retry.retry_on limited_kind)
      ⊎ ((500 ≤ reply.status) × (reply.status < 600) × Lists retry.retry_on server_kind)
  IsRepeated (err e) = IsListed e

  should_retry_iff : (e : BeanStreamError) → (should_retry retry e ≡ true) ↔ IsListed e
  unfolding should_retry classify_error
  should_retry_iff (network_timeout ms) = retries_iff retry timeout_kind
  should_retry_iff (server_error status) = retries_iff retry server_kind
  should_retry_iff rate_limited = retries_iff retry limited_kind
  should_retry_iff (request_failed message) = retries_iff retry connection_kind
  should_retry_iff _ = retries_iff retry other_kind

  is_retryable_iff :
      (outcome : Result Exchange) → (is_retryable (some retry) outcome ≡ true) ↔ IsRepeated outcome
  unfolding is_retryable
  is_retryable_iff (err e) = should_retry_iff e
  is_retryable_iff (ok reply) =
      let status = should_retry_status_iff retry reply.status in
      let limited = retries_iff retry limited_kind in
      let server = retries_iff retry server_kind in
      (
        λ h. elim (status.0 h) [
          | inl (e, k) ↦ inl (e, limited.0 k)
          | inr (l, u, k) ↦ inr (l, u, server.0 k)
        ],
        λ h. elim h [
          | inl (e, k) ↦ status.1 (inl (e, limited.1 k))
          | inr (l, u, k) ↦ status.1 (inr (l, u, server.1 k))
        ],
      )

  -- The delay that the `backoff` crate gives, with the settings of the configuration, or else the
  -- longest.
  abbrev pub delay_at : World → ℕ
  delay_at w =
      elim (env.next_backoff
        (record {
          initial_interval = retry.initial_delay;
          max_interval = retry.max_delay;
          multiplier = if retry.exponential_backoff then 2 else 1;
          max_elapsed_time = none;
        })
        w.slept) [ none ↦ retry.max_delay | some delay ↦ delay ]

  abbrev pub paused : World → World
  paused w = record w { slept = delay_at w ∷ w.slept; now = w.now + delay_at w }

  sleep-paused : (w : World) → sleep env (some retry) w ≡ paused w
  unfolding sleep backoff next_delay
  sleep-paused w =
      ap (λ (d : ℕ). record w { slept = d ∷ w.slept; now = w.now + d })
        (given (env.next_backoff (backoff retry) w.slept))
    where
      given :
          (o : Option ℕ)
          → next_delay retry o ≡ elim o [ none ↦ retry.max_delay | some delay ↦ delay ]
      given none = refl
      given (some delay) = refl

  module _ (send : Exec World Exchange) where
    -- The world before the attempt `k`, counted from 0.
    abbrev pub before_attempt : ℕ → World → World
    before_attempt zero w = w
    before_attempt (suc k) w = before_attempt k (paused (send w).1)

    -- The attempt `k` of at most `most` is the last: those before it are repeated, and it is not,
    -- or no more are allowed.
    pub record IsLastAttempt (most k : ℕ) (w : World) : Type 0 where
      pub within : k < most
      pub repeated : (i : ℕ) → i < k → IsRepeated (send (before_attempt i w)).0
      pub stops : (suc k ≡ most) ⊎ (IsRepeated (send (before_attempt k w)).0 → ⊥)

    module _ (undropped : (w : World) → env.dropped w ≡ false) where
      attempts_step :
          (left : ℕ) (w : World)
          → attempts env (some retry) (suc left) send w ≡ (
              if is_retryable (some retry) (send w).0
              then attempts env (some retry) left send (paused (send w).1)
              else send w)
      unfolding attempts
      attempts_step left w =
          rw
            (
              undropped (send w).1,
              undropped (sleep env (some retry) (send w).1),
              sleep-paused (send w).1,
            )
            refl

      attempts_zero : (w : World) → attempts env (some retry) 0 send w ≡ send w
      unfolding attempts
      attempts_zero w = refl

      -- The attempt that the loop ends with.
      last_of :
          (left : ℕ) (w : World)
          → (k : ℕ) × IsLastAttempt (suc left) k w
            × (attempts env (some retry) left send w ≡ send (before_attempt k w))
      last_of zero w = (
        0,
        record {
          within = omega arith;
          repeated = λ i h. absurd (omega (arith, h));
          stops = inl refl;
        },
        attempts_zero w,
      )
      last_of (suc left) w = elim (Bool-cases (is_retryable (some retry) (send w).0)) [
        | inl e ↦
            let (k, last, same) = last_of left (paused (send w).1) in
            let repeats = (is_retryable_iff (send w).0).0 e in
            (
              suc k,
              record {
                within = omega (arith, last.within);
                repeated = cases_of k repeats last.repeated;
                stops = elim last.stops [
                  | inl last_one ↦ inl (omega (arith, last_one))
                  | inr other ↦ inr other
                ];
              },
              attempts_step left w ∙ rw e same,
            )
        | inr e ↦ (
          0,
          record {
            within = omega arith;
            repeated = λ i h. absurd (omega (arith, h));
            stops = inr (λ h. cc (e, (is_retryable_iff (send w).0).1 h));
          },
          attempts_step left w ∙ rw e refl,
        )
      ]
        where
          cases_of :
              (k : ℕ)
              → IsRepeated (send w).0
              → ((i : ℕ) → i < k → IsRepeated (send (before_attempt i (paused (send w).1))).0)
              → (i : ℕ) → i < suc k
              → IsRepeated (send (before_attempt i w)).0
          cases_of k first rest zero h = first
          cases_of k first rest (suc i) h = rest i (omega (arith, h))

      -- Where the future is not dropped, the retry loop returns what some attempt does. There are at
      -- most `max(1, max_attempts)`; this one is the first whose outcome is not to be repeated, or
      -- the last that is allowed. To be repeated is a status 429 or 5xx, or an error, of a kind that
      -- `retry_on` lists. Each attempt starts in the world that the one before it leaves, after a
      -- sleep for the time that the `backoff` crate gives, or `max_delay`.
      pub attempts-IsLastAttempt :
          (w : World)
          → (k : ℕ) × IsLastAttempt (max 1 retry.max_attempts) k w
            × (attempts env (some retry) (retries_left (some retry)) send w
                ≡ send (before_attempt k w))
      unfolding retries_left
      attempts-IsLastAttempt w =
          let allowed : suc (retry.max_attempts - 1) ≡ max 1 retry.max_attempts = omega arith in
          let (k, last, same) = last_of (retry.max_attempts - 1) w in (k, rw allowed at last, same)
