-- ===== src/Retry/Kinds.antt =====
-- Which kinds of failure a configuration lists.
use beanstream.Prelude.{◌≡◌, refl, ◌↔◌, ◌⊎◌, inl, inr, true, List, [], ◌∷◌, arith, Bool-cases, any}
use beanstream.Retry.{
  ErrorKind, timeout_kind, server_kind, limited_kind, connection_kind, other_kind, RetryConfig,
  kind_eq, retries,
}

kind_eq-eq : (a b : ErrorKind) → kind_eq a b ≡ true → a ≡ b
unfolding kind_eq
kind_eq-eq timeout_kind timeout_kind h = refl
kind_eq-eq server_kind server_kind h = refl
kind_eq-eq limited_kind limited_kind h = refl
kind_eq-eq connection_kind connection_kind h = refl
kind_eq-eq other_kind other_kind h = refl
kind_eq-eq _ _ h = cc h

kind_eq_refl : (a : ErrorKind) → kind_eq a a ≡ true
unfolding kind_eq
kind_eq_refl timeout_kind = refl
kind_eq_refl server_kind = refl
kind_eq_refl limited_kind = refl
kind_eq_refl connection_kind = refl
kind_eq_refl other_kind = refl

-- The kind stands in the list.
abbrev pub Lists : List ErrorKind → ErrorKind → Type 0
Lists [] kind = ⊥
Lists (k ∷ kinds) kind = (k ≡ kind) ⊎ Lists kinds kind

any-Lists :
    (kinds : List ErrorKind) (kind : ErrorKind)
    → (any (λ k. kind_eq k kind) kinds ≡ true) ↔ Lists kinds kind
any-Lists [] kind = (λ h. cc h, λ h. absurd h)
any-Lists (k ∷ kinds) kind =
    let rest = any-Lists kinds kind in
    (
      λ h. elim (Bool-cases (kind_eq k kind)) [
        | inl e ↦ inl (kind_eq-eq k kind e)
        | inr e ↦ inr (rest.0 (rw e at h))
      ],
      λ h. elim h [
        | inl e ↦ let same : kind_eq k kind ≡ true = rw e (kind_eq_refl kind) in rw same refl
        | inr e ↦ let later = rest.1 e in ground (arith, later)
      ],
    )

pub retries_iff :
    (config : RetryConfig) (kind : ErrorKind)
    → (retries config kind ≡ true) ↔ Lists config.retry_on kind
unfolding retries
retries_iff config kind = any-Lists config.retry_on kind
