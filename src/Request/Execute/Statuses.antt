-- ===== src/Request/Execute/Statuses.antt =====
-- The error of a status, and whether the status is retried.
use beanstream.Prelude.{ℕ, ◌≡◌, inl, inr, false, ◌&&◌, arith, ltb, leb, ◌==◌, Bool-cases}
use beanstream.Error.{BeanStreamError, ok, err, server_error, rate_limited}
use beanstream.Retry.{RetryConfig, classify_error, should_retry, should_retry_status}
use beanstream.Request.Execute.{refuse_status}

-- Under every configuration the retry loop treats a status as it would treat the error that the
-- status becomes behind the loop, and it does not repeat a status that becomes no error.
refuse_status-should_retry :
    (config : RetryConfig) (status : ℕ)
    → ((e : BeanStreamError)
        → refuse_status status ≡ err e
        → should_retry config e ≡ should_retry_status config status)
      × (refuse_status status ≡ ok tt → should_retry_status config status ≡ false)
unfolding refuse_status should_retry should_retry_status classify_error
refuse_status-should_retry config status = (
  λ e h. elim (Bool-cases (status == 429)) [
    | inl limited ↦ let same : e ≡ rate_limited = ground arith in rw same (ground arith)
    | inr other ↦ elim (Bool-cases (leb 500 status && ltb status 600)) [
      | inl server ↦ let same : e ≡ server_error status = ground arith in rw same (ground arith)
      | inr fine ↦ absurd (ground arith)
    ]
  ],
  λ h. ground arith,
)
