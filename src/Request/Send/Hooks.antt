-- ===== src/Request/Send/Hooks.antt =====
-- The chain of interceptors, and the header of `AuthInterceptor`.
use beanstream.Prelude.{
  ◌≡◌, refl, inl, inr, Bool, true, not, some, List, [], ◌∷◌, arith, Bool-cases, find, keep,
}
use beanstream.Text.{Str, eq_ignore_ascii_case}
use beanstream.Text.Laws.{eq_ignore_ascii_case_iff}
use beanstream.Error.{Result, ok, err, Result-cases}
use beanstream.Error
use beanstream.Crates.{Crates}
use beanstream.HeaderValidation.{Header}
use beanstream.ProxyConfig.{ProxyCrate}
use beanstream.Request.{HttpRequest}
use beanstream.Request.Send.{set_header, Interceptor, InterceptorChain, run_on_request, add}

eq_ignore_ascii_case_refl : (s : Str) → eq_ignore_ascii_case s s ≡ true
eq_ignore_ascii_case_refl s = (eq_ignore_ascii_case_iff s s).1 refl

is_named : Str → Header → Bool
is_named name h = eq_ignore_ascii_case h.0 name

-- After a header is set, there is a header of that name, in any case, and the first has the value
-- that was set.
find-set_header :
    (name value : Str) (headers : List Header)
    → (given : Str) × (find (λ h. eq_ignore_ascii_case h.0 name) (set_header name value headers)
        ≡ some (given, value))
unfolding set_header
find-set_header name value [] = (name, ground (arith, eq_ignore_ascii_case_refl name))
find-set_header name value ((n, old) ∷ headers) =
    let (given, ih) = find-set_header name value headers in
    elim (Bool-cases (eq_ignore_ascii_case n name)) [
      | inl e ↦ (n, ground arith)
      | inr e ↦ (given, ground arith)
    ]

-- Setting a header again, with another value, is as setting it once.
set_header-set_header :
    (name first second : Str) (headers : List Header)
    → set_header name second (set_header name first headers) ≡ set_header name second headers
unfolding set_header
set_header-set_header name first second [] = ground (arith, eq_ignore_ascii_case_refl name)
set_header-set_header name first second ((n, old) ∷ headers) =
    let ih = set_header-set_header name first second headers in ground arith

-- Setting a header leaves the headers of other names, and their order, as they are.
keep-set_header :
    (name value : Str) (headers : List Header)
    → let others = λ (h : Header). not (eq_ignore_ascii_case h.0 name) in
      keep others (set_header name value headers) ≡ keep others headers
unfolding set_header
keep-set_header name value [] = ground (arith, eq_ignore_ascii_case_refl name)
keep-set_header name value ((n, old) ∷ headers) =
    let ih = keep-set_header name value headers in ground arith

module _ (crates : Crates) (proxies : ProxyCrate crates) where
  -- An interceptor that is added runs after all the others, on what they made of the request.
  run_on_request-add :
      (interceptors : InterceptorChain crates proxies) (i : Interceptor crates proxies)
      (request : HttpRequest crates proxies)
      → run_on_request crates proxies (add crates proxies i interceptors) request
        ≡ Error.◌>>=◌ (run_on_request crates proxies interceptors request) i.on_request
  unfolding run_on_request add
  run_on_request-add [] i request = elim (Result-cases (i.on_request request)) [
    | inl (r, e) ↦ ground arith
    | inr (x, e) ↦ ground arith
  ]
  run_on_request-add (j ∷ interceptors) i request = elim (Result-cases (j.on_request request)) [
    | inl (r, e) ↦ ground (arith, run_on_request-add interceptors i r)
    | inr (x, e) ↦ ground arith
  ]
