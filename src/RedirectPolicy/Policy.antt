-- ===== src/RedirectPolicy/Policy.antt =====
-- `RedirectPolicy` of redirect_policy.rs.
pub mod Rules
use beanstream.Prelude.{
  ℕ, zero, suc, ◌+◌, ◌-◌, ◌*◌, ◌/◌, ◌%◌, ◌^◌, ◌≤◌, ◌<◌, min, max, code, String, ◌≡◌, refl, sym, ap,
  subst, ◌∙◌, ◌≢◌, ◌↔◌, ◌⊎◌, inl, inr, Bool, true, false, not, ◌&&◌, ◌||◌, Option, none, some, List,
  [], ◌∷◌, ◌++◌, map, reverse, arith, ltb, leb, ◌==◌, if◌then◌else◌, between, ==_iff, Bool-cases,
  Option-cases, length, any, all, find, keep, length-append, any-append, all-append, All, all_iff,
  All-keep, keep_of_All, keep_idempotent, All-append, All-map,
}
use beanstream.Text.{Str, codes, str_eq}
use beanstream.Error.{
  BeanStreamError, Result, ok, err, ◌>>=◌, ◌>>◌, refuse_if, ok_or, too_many_redirects,
  redirect_blocked, no_host, host_not_allowed, lit, about,
}
use beanstream.Crates.{Crates}
use beanstream.RedirectPolicy.Pattern.{normalize_host, matches_host_pattern}

-- `HashSet::insert`; the order of a set is not used.
unfoldable pub set_insert : Str → List Str → List Str
set_insert host hosts = if any (λ h. str_eq h host) hosts then hosts else host ∷ hosts

pub record RedirectPolicy : Type 0 where
  pub max_redirects : ℕ
  pub track_all_redirects : Bool
  pub allowed_hosts : List Str
  pub denied_hosts : List Str
  pub allow_any_redirect : Bool
  pub follow_redirects : Bool
  pub allow_scheme_downgrade : Bool

abbrev pub default_policy : RedirectPolicy
default_policy = record {
  max_redirects = 10;
  track_all_redirects = true;
  allowed_hosts = [];
  denied_hosts = [];
  allow_any_redirect = false;
  follow_redirects = false;
  allow_scheme_downgrade = false;
}

unfoldable pub allow_host : Str → RedirectPolicy → RedirectPolicy
unfolding set_insert
allow_host host policy = record policy {
  allowed_hosts = set_insert (normalize_host host) policy.allowed_hosts;
}

unfoldable pub deny_host : Str → RedirectPolicy → RedirectPolicy
unfolding set_insert
deny_host host policy = record policy {
  denied_hosts = set_insert (normalize_host host) policy.denied_hosts;
}

unfoldable pub allow_hosts : List Str → RedirectPolicy → RedirectPolicy
unfolding allow_host
allow_hosts [] policy = policy
allow_hosts (host ∷ hosts) policy = allow_hosts hosts (allow_host host policy)

unfoldable pub strict : List Str → RedirectPolicy
unfolding allow_hosts
strict hosts = allow_hosts hosts default_policy

unfoldable pub relaxed : ℕ → RedirectPolicy
relaxed max_redirects = record default_policy {
  max_redirects = max_redirects;
  track_all_redirects = false;
  allow_any_redirect = true;
  follow_redirects = true;
}

-- The builder methods `allow_scheme_downgrade` and `follow_redirects`.
unfoldable pub with_scheme_downgrade : Bool → RedirectPolicy → RedirectPolicy
with_scheme_downgrade allow policy = record policy { allow_scheme_downgrade = allow }

unfoldable pub with_follow_redirects : Bool → RedirectPolicy → RedirectPolicy
with_follow_redirects follow policy = record policy { follow_redirects = follow }

unfoldable pub matches_any : List Str → Str → Bool
matches_any patterns host = any (λ pattern. matches_host_pattern pattern host) patterns

module _ (crates : Crates) where
  open crates use {Url, scheme, host_str, as_str}

  abbrev pub is_http : Url → Bool
  is_http url = str_eq (scheme url) (codes "http")

  abbrev pub is_https : Url → Bool
  is_https url = str_eq (scheme url) (codes "https")

  unfoldable pub is_downgrade : List Url → Url → Bool
  is_downgrade previous_urls next_url =
      let chain_used_tls = any is_https (previous_urls ++ next_url ∷ []) in
      chain_used_tls && is_http next_url

  unfoldable pub check_hosts : RedirectPolicy → Str → Result (Unit {0})
  check_hosts policy next_host =
      if matches_any policy.denied_hosts next_host
      then err (redirect_blocked (about "Redirect to '{next_host}' is forbidden" (next_host ∷ [])))
      else if not policy.track_all_redirects && policy.allow_any_redirect
      then ok tt
      else if matches_any policy.allowed_hosts next_host
      then ok tt
      else err (host_not_allowed next_host)

  unfoldable pub check_redirect : RedirectPolicy → List Url → Url → Result (Unit {0})
  check_redirect policy previous_urls next_url = do
    refuse_if (leb policy.max_redirects (length previous_urls))
        (too_many_redirects policy.max_redirects)
    refuse_if (not (is_http next_url) && not (is_https next_url))
        (redirect_blocked (about "Redirect scheme '{}' is not allowed" (scheme next_url ∷ [])))
    refuse_if (not policy.allow_scheme_downgrade && is_downgrade previous_urls next_url) (
        redirect_blocked (
          lit
            "Refusing https -> http downgrade: redirect would move an encrypted connection to plaintext"))
    next_host ← ok_or (host_str next_url) no_host
    check_hosts policy next_host

  unfoldable pub get_redirect_history : List Url → List Str
  get_redirect_history urls = map as_str urls

  unfoldable pub get_redirect_hosts : List Url → List Str
  get_redirect_hosts [] = []
  get_redirect_hosts (u ∷ urls) = elim (host_str u) [
    | none ↦ get_redirect_hosts urls
    | some host ↦ normalize_host host ∷ get_redirect_hosts urls
  ]
