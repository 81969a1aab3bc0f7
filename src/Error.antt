-- ===== src/Error.antt =====
-- error_handling_impl.rs: every failure the library reports, and its `Result`.
-- A message is kept as the literal of the source, with the text that `format!` puts into it.
use beanstream.Prelude.{
  ℕ, String, ◌≡◌, refl, ◌⊎◌, inl, inr, Bool, true, false, Option, none, some, List,
}
use beanstream.Text.{Str}
use beanstream.Net.{IpAddr}

-- The `String` of a variant: a literal, or a literal with arguments in it.
pub data Message : Type 0 where
  lit : String → Message
  about : String → List Str → Message
  of_number : String → ℕ → Message

-- What `PrivateNetworkAccess` carries: the name that was refused, or the address.
pub data Target : Type 0 where
  by_name : Str → Target
  by_address : IpAddr → Target

pub data BeanStreamError : Type 0 where
  url_error : Message → BeanStreamError
  invalid_scheme : Str → BeanStreamError
  private_network_access : Target → BeanStreamError
  invalid_host : Message → BeanStreamError
  header_error : Message → BeanStreamError
  header_injection_detected : BeanStreamError
  redirect_blocked : Message → BeanStreamError
  too_many_redirects : ℕ → BeanStreamError
  no_host : BeanStreamError
  host_not_allowed : Str → BeanStreamError
  invalid_port : ℕ → BeanStreamError
  request_failed : Message → BeanStreamError
  network_timeout : ℕ → BeanStreamError
  server_error : ℕ → BeanStreamError
  rate_limited : BeanStreamError
  missing_config : Message → BeanStreamError
  invalid_configuration : Message → BeanStreamError
  internal_error : Message → BeanStreamError
  request_aborted : BeanStreamError
  certificate_pinning_failed : Message → BeanStreamError
  web_socket_error : Message → BeanStreamError
  streaming_error : Message → BeanStreamError

pub data Result {ℓ} (A : Type ℓ) : Type ℓ where
  ok : A → Result A
  err : BeanStreamError → Result A

-- The operator `?` of the source, on a result whose value goes on.
infixl 5 ◌>>=◌
abbrev pub ◌>>=◌ {ℓ κ} : {S : Type ℓ} {T : Type κ} → Result S → (S → Result T) → Result T
ok s >>= next = next s
err x >>= next = err x

-- The operator `?` on a check.
infixl 5 ◌>>◌
abbrev pub ◌>>◌ {κ} : {T : Type κ} → Result (Unit {0}) → Result T → Result T
check >> next = check >>= λ _. next

-- `if test { return Err(e); }`
abbrev pub refuse_if : Bool → BeanStreamError → Result (Unit {0})
refuse_if true e = err e
refuse_if false e = ok tt

-- `ok_or(e)?`
abbrev pub ok_or {ℓ} : {A : Type ℓ} → Option A → BeanStreamError → Result A
ok_or none e = err e
ok_or (some a) e = ok a

abbrev pub is_ok {ℓ} : {A : Type ℓ} → Result A → Bool
is_ok (ok a) = true
is_ok (err e) = false

pub >>=-eq-ok {ℓ κ} :
    {S : Type ℓ} {T : Type κ} {out : T} (first : Result S) (next : S → Result T)
    → (first >>= next) ≡ ok out
    → (s : S) × (first ≡ ok s) × (next s ≡ ok out)
>>=-eq-ok (ok s) next e = (s, refl, e)
>>=-eq-ok (err x) next e = cc

pub Result-cases {ℓ} :
    {A : Type ℓ} (r : Result A) → ((a : A) × (r ≡ ok a)) ⊎ ((e : BeanStreamError) × (r ≡ err e))
Result-cases (ok a) = inl (a, refl)
Result-cases (err e) = inr (e, refl)

pub ok_or-eq-ok {ℓ} :
    {A : Type ℓ} (o : Option A) (e : BeanStreamError) {a : A} → ok_or o e ≡ ok a → o ≡ some a
ok_or-eq-ok none e h = cc
ok_or-eq-ok (some b) e h = cc

pub refuse_if-eq-ok : (b : Bool) (e : BeanStreamError) → refuse_if b e ≡ ok tt → b ≡ false
refuse_if-eq-ok true e h = cc
refuse_if-eq-ok false e h = refl
