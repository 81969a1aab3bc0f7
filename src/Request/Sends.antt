-- ===== src/Request/Sends.antt =====
-- How many requests a run hands to a client.
pub mod Hops
pub mod Total
pub mod Each
use beanstream.Prelude.{
  ℕ, zero, suc, ◌+◌, ◌-◌, ◌*◌, ◌/◌, ◌%◌, ◌^◌, ◌≤◌, ◌<◌, min, max, code, String, ◌≡◌, refl, sym, ap,
  subst, ◌∙◌, ◌≢◌, ◌↔◌, ◌⊎◌, inl, inr, Bool, true, false, not, ◌&&◌, ◌||◌, Option, none, some, List,
  [], ◌∷◌, ◌++◌, map, reverse, arith, ltb, leb, ◌==◌, if◌then◌else◌, between, ==_iff, Bool-cases,
  Option-cases, length, any, all, find, keep, length-append, any-append, all-append, All, all_iff,
  All-keep, keep_of_All, keep_idempotent, All-append, All-map,
}
use beanstream.Text.{Str}
use beanstream.Error.{BeanStreamError, Result, ok, err, Result-cases}
use beanstream.Crates.{Crates}
use beanstream.HeaderValidation.{Header}
use beanstream.UrlValidation.Validate.{ValidatedHost}
use beanstream.ProxyConfig.{ProxyCrate}
use beanstream.Request.{Method, HttpRequest}
use beanstream.Request.Exec.{Exec, pure, lift, continue, ◌>>=◌}
use beanstream.Request.World.{Pinned, Outbound, World, Env}
use beanstream.Request.Transport.{
  Exchange, exchange, check_wire_headers, build_client, send_target, resolve_pin,
}
use beanstream.Request.Transport.Pins.{resolve_pin-sent}

-- From every world, `m` sends at most `n` requests.
unfoldable pub SendsAtMost : {A : Type 0} → ℕ → Exec World A → Type 0
SendsAtMost n m = (w : World) → length (m w).1.sent ≤ length w.sent + n

pub SendsAtMost-lift : {A : Type 0} (r : Result A) → SendsAtMost 0 (lift r)
unfolding SendsAtMost
SendsAtMost-lift r w = omega arith

pub SendsAtMost-quiet :
    {A : Type 0} (m : Exec World A) → ((w : World) → (m w).1.sent ≡ w.sent) → SendsAtMost 0 m
unfolding SendsAtMost
SendsAtMost-quiet m k w = rw (k w) (omega arith)

SendsAtMost-continue :
    {A B : Type 0} (k : ℕ) (r : Result A) (f : A → Exec World B) (w : World)
    → ((a : A) → SendsAtMost k (f a))
    → length (continue r f w).1.sent ≤ length w.sent + k
unfolding SendsAtMost
SendsAtMost-continue k (ok a) f w l = l a w
SendsAtMost-continue k (err e) f w l = omega arith

pub SendsAtMost-bind :
    {A B : Type 0} (n k : ℕ) (m : Exec World A) (f : A → Exec World B)
    → SendsAtMost n m
    → ((a : A) → SendsAtMost k (f a))
    → SendsAtMost (n + k) (◌>>=◌ m f)
unfolding SendsAtMost
SendsAtMost-bind n k m f h l w =
    let first = h w in
    let rest = SendsAtMost-continue k (m w).0 f (m w).1 l in omega (arith, first, rest)

pub SendsAtMost-after :
    {A B : Type 0} (k : ℕ) (m : Exec World A) (f : A → Exec World B)
    → SendsAtMost 0 m
    → ((a : A) → SendsAtMost k (f a))
    → SendsAtMost k (◌>>=◌ m f)
unfolding SendsAtMost
SendsAtMost-after k m f h l w =
    let first = h w in
    let rest = SendsAtMost-continue k (m w).0 f (m w).1 l in omega (arith, first, rest)

pub SendsAtMost-weaken :
    {A : Type 0} (n k : ℕ) (m : Exec World A) → n ≤ k → SendsAtMost n m → SendsAtMost k m
unfolding SendsAtMost
SendsAtMost-weaken n k m l h w = let first = h w in omega (arith, first)

pub SendsAtMost-if :
    {A : Type 0} (n : ℕ) (b : Bool) (m k : Exec World A)
    → SendsAtMost n m
    → SendsAtMost n k
    → SendsAtMost n (if b then m else k)
SendsAtMost-if n true m k h l = h
SendsAtMost-if n false m k h l = l

module _ (crates : Crates) (proxies : ProxyCrate crates) (env : Env)
    (request : HttpRequest crates proxies) where
  one_exchange : (timeout : ℕ) (out : Outbound) → SendsAtMost 1 (exchange env timeout out)
  unfolding SendsAtMost exchange
  one_exchange timeout out w = omega arith

  pub send_target-SendsAtMost :
      (pinned : Pinned) (method : Method) (target : Str) (headers : List Header)
      (body if_none_match : Option Str)
      → SendsAtMost 1
          (send_target crates proxies env request pinned method target headers body if_none_match)
  unfolding send_target
  send_target-SendsAtMost pinned method target headers body if_none_match =
      SendsAtMost-bind 0 1 _ _ (SendsAtMost-lift (build_client crates proxies env request pinned))
        λ client.
          SendsAtMost-bind 0 1 _ _ (SendsAtMost-lift (check_wire_headers crates headers))
            λ _. one_exchange request.timeout _

  pub resolve_pin-SendsAtMost :
      (host : ValidatedHost) (port : ℕ)
      → SendsAtMost 0 (resolve_pin crates proxies env request host port)
  resolve_pin-SendsAtMost host port =
      SendsAtMost-quiet (resolve_pin crates proxies env request host port)
        (resolve_pin-sent crates proxies env request host port)
