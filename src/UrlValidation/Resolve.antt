-- ===== src/UrlValidation/Resolve.antt =====
-- Name resolution of url_validation.rs, over the answer of the system's resolver.
pub mod Addresses
use beanstream.Prelude.{
  ℕ, zero, suc, ◌+◌, ◌-◌, ◌*◌, ◌/◌, ◌%◌, ◌^◌, ◌≤◌, ◌<◌, min, max, code, String, ◌≡◌, refl, sym, ap,
  subst, ◌∙◌, ◌≢◌, ◌↔◌, ◌⊎◌, inl, inr, Bool, true, false, not, ◌&&◌, ◌||◌, Option, none, some, List,
  [], ◌∷◌, ◌++◌, map, reverse, arith, ltb, leb, ◌==◌, if◌then◌else◌, between, ==_iff, Bool-cases,
  Option-cases, length, any, all, find, keep, length-append, any-append, all-append, All, all_iff,
  All-keep, keep_of_All, keep_idempotent, All-append, All-map,
}
use beanstream.Text.{Str}
use beanstream.Net.{IpAddr, ip_eq}
use beanstream.Error.{
  BeanStreamError, Result, ok, err, ◌>>=◌, invalid_host, private_network_access, about, by_address,
}
use beanstream.Crates.{Crates}
use beanstream.UrlValidation.Ip.{is_blocked_ip}
use beanstream.UrlValidation.Validate.{ParsedUrl, validate_url}

-- What `lookup_host` returns: the text of an I/O error, or the socket addresses' IP parts.
pub data Lookup : Type 0 where
  failed : Str → Lookup
  answered : List IpAddr → Lookup

unfoldable pub contains_ip : List IpAddr → IpAddr → Bool
contains_ip addresses address = any (λ x. ip_eq x address) addresses

-- The loop that pushes each address once.
unfoldable pub push_distinct : List IpAddr → List IpAddr → List IpAddr
unfolding contains_ip
push_distinct addresses [] = addresses
push_distinct addresses (a ∷ rest) =
    push_distinct (if contains_ip addresses a then addresses else addresses ++ a ∷ []) rest

unfoldable pub resolve_host : Str → Lookup → Result (List IpAddr)
unfolding push_distinct
resolve_host host (failed error) =
    err (invalid_host (about "Unable to resolve '{host}': {error}" (host ∷ error ∷ [])))
resolve_host host (answered []) =
    err (invalid_host (about "Host '{host}' did not resolve to an address" (host ∷ [])))
resolve_host host (answered (a ∷ rest)) = ok (push_distinct [] (a ∷ rest))

module _ (crates : Crates) where
  -- `for address in &addresses { if is_blocked_ip(address) { return Err(…) } }`
  unfoldable pub refuse_blocked : List IpAddr → Result (Unit {0})
  refuse_blocked [] = ok tt
  refuse_blocked (a ∷ rest) =
      let later = refuse_blocked rest in
      if is_blocked_ip crates a then err (private_network_access (by_address a)) else later

  unfoldable pub validate_ip_access_async : Str → Lookup → Result (List IpAddr)
  validate_ip_access_async host lookup = do
    addresses ← resolve_host host lookup
    _ ← refuse_blocked addresses
    ok addresses

  unfoldable pub validate_ip_access : Str → Lookup → Result (Unit {0})
  validate_ip_access host (failed error) =
      err (invalid_host (about "Unable to resolve '{host}': {error}" (host ∷ error ∷ [])))
  validate_ip_access host (answered []) =
      err (invalid_host (about "Host '{host}' did not resolve to an address" (host ∷ [])))
  validate_ip_access host (answered (a ∷ rest)) = refuse_blocked (a ∷ rest)

  unfoldable pub validate_url_async : (Str → Lookup) → Str → Result ParsedUrl
  validate_url_async lookup_host url = do
    parsed ← validate_url crates url
    _ ← require_public parsed
    ok parsed
    where
      require_public : ParsedUrl → Result (List IpAddr)
      require_public p = elim p.host.ip_addr [
        | none ↦ validate_ip_access_async p.host.host (lookup_host p.host.host)
        | some address ↦ ok []
      ]
