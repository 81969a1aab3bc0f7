-- ===== src/Retry/Classes.antt =====
-- What is retried.
use beanstream.Prelude.{ℕ, ◌≤◌, ◌<◌, ◌≡◌, refl, ◌↔◌, ◌⊎◌, true, arith}
use beanstream.Error.{BeanStreamError, network_timeout, server_error, rate_limited}
use beanstream.Retry.{
  server_kind, limited_kind, RetryConfig, retries, should_retry, should_retry_status, default_retry,
}

-- The failures that the documentation calls transient and the default configuration lists.
abbrev pub IsTransient : BeanStreamError → Type 0
IsTransient (network_timeout ms) = Unit
IsTransient (server_error status) = Unit
IsTransient rate_limited = Unit
IsTransient _ = ⊥

-- By default an error is retried exactly when it is a timeout, a server error or rate limiting:
-- no refusal by validation, no transport failure and no abort is repeated.
should_retry-default_iff :
    (e : BeanStreamError) → (should_retry default_retry e ≡ true) ↔ IsTransient e
unfolding should_retry
should_retry-default_iff (network_timeout ms) = (λ h. tt, λ h. refl)
should_retry-default_iff (server_error status) = (λ h. tt, λ h. refl)
should_retry-default_iff rate_limited = (λ h. tt, λ h. refl)
should_retry-default_iff _ = (λ h. cc h, λ h. absurd h)

-- A status is retried exactly when it is 429 and rate limiting is in the configuration, or it is a
-- 5xx and server errors are.
pub should_retry_status_iff :
    (config : RetryConfig) (status : ℕ)
    → (should_retry_status config status ≡ true) ↔ (
        ((status ≡ 429) × (retries config limited_kind ≡ true))
        ⊎ ((500 ≤ status) × (status < 600) × (retries config server_kind ≡ true)))
unfolding should_retry_status
should_retry_status_iff config status = (λ h. ground arith, λ h. ground arith)
