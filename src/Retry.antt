-- ===== src/Retry.antt =====
-- retry.rs: which failures are repeated, and how long to wait.
pub mod Classes
pub mod Kinds
use beanstream.Prelude.{
  ℕ, zero, suc, ◌+◌, ◌-◌, ◌*◌, ◌/◌, ◌%◌, ◌^◌, ◌≤◌, ◌<◌, min, max, code, String, ◌≡◌, refl, sym, ap,
  subst, ◌∙◌, ◌≢◌, ◌↔◌, ◌⊎◌, inl, inr, Bool, true, false, not, ◌&&◌, ◌||◌, Option, none, some, List,
  [], ◌∷◌, ◌++◌, map, reverse, arith, ltb, leb, ◌==◌, if◌then◌else◌, between, ==_iff, Bool-cases,
  Option-cases, length, any, all, find, keep, length-append, any-append, all-append, All, all_iff,
  All-keep, keep_of_All, keep_idempotent, All-append, All-map,
}
use beanstream.Error.{BeanStreamError, network_timeout, server_error, rate_limited, request_failed}

pub data ErrorKind : Type 0 where
  timeout_kind server_kind limited_kind connection_kind other_kind : ErrorKind

-- Durations are in nanoseconds.
pub record RetryConfig : Type 0 where
  pub max_attempts : ℕ
  pub initial_delay : ℕ
  pub max_delay : ℕ
  pub exponential_backoff : Bool
  pub retry_on : List ErrorKind

abbrev pub millis : ℕ → ℕ
millis n = n * 1000000

abbrev pub default_retry : RetryConfig
default_retry = record {
  max_attempts = 3;
  initial_delay = millis 100;
  max_delay = millis 30000;
  exponential_backoff = true;
  retry_on = timeout_kind ∷ server_kind ∷ limited_kind ∷ [];
}

unfoldable pub kind_eq : ErrorKind → ErrorKind → Bool
kind_eq timeout_kind timeout_kind = true
kind_eq server_kind server_kind = true
kind_eq limited_kind limited_kind = true
kind_eq connection_kind connection_kind = true
kind_eq other_kind other_kind = true
kind_eq _ _ = false

unfoldable pub classify_error : BeanStreamError → ErrorKind
classify_error (network_timeout ms) = timeout_kind
classify_error (server_error status) = server_kind
classify_error rate_limited = limited_kind
classify_error (request_failed message) = connection_kind
classify_error _ = other_kind

-- `retry_on.contains(&kind)`
unfoldable pub retries : RetryConfig → ErrorKind → Bool
unfolding kind_eq
retries config kind = any (λ k. kind_eq k kind) config.retry_on

unfoldable pub should_retry : RetryConfig → BeanStreamError → Bool
unfolding retries classify_error
should_retry config error = retries config (classify_error error)

unfoldable pub should_retry_status : RetryConfig → ℕ → Bool
unfolding retries
should_retry_status config status =
    if status == 429
    then retries config limited_kind
    else if leb 500 status && ltb status 600
    then retries config server_kind
    else false

-- The settings that `backoff()` hands to the `backoff` crate.
pub record BackoffSettings : Type 0 where
  pub initial_interval : ℕ
  pub max_interval : ℕ
  pub multiplier : ℕ
  pub max_elapsed_time : Option ℕ

unfoldable pub backoff : RetryConfig → BackoffSettings
backoff config = record {
  initial_interval = config.initial_delay;
  max_interval = config.max_delay;
  multiplier = if config.exponential_backoff then 2 else 1;
  max_elapsed_time = none;
}

-- `next_backoff().unwrap_or(self.max_delay)`
unfoldable pub next_delay : RetryConfig → Option ℕ → ℕ
next_delay config none = config.max_delay
next_delay config (some delay) = delay
