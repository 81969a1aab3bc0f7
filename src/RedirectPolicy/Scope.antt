-- ===== src/RedirectPolicy/Scope.antt =====
-- `ScopeValidator` of redirect_policy.rs.
pub mod Decision
pub mod Built
use beanstream.Prelude.{
  ℕ, zero, suc, ◌+◌, ◌-◌, ◌*◌, ◌/◌, ◌%◌, ◌^◌, ◌≤◌, ◌<◌, min, max, code, String, ◌≡◌, refl, sym, ap,
  subst, ◌∙◌, ◌≢◌, ◌↔◌, ◌⊎◌, inl, inr, Bool, true, false, not, ◌&&◌, ◌||◌, Option, none, some, List,
  [], ◌∷◌, ◌++◌, map, reverse, arith, ltb, leb, ◌==◌, if◌then◌else◌, between, ==_iff, Bool-cases,
  Option-cases, length, any, all, find, keep, length-append, any-append, all-append, All, all_iff,
  All-keep, keep_of_All, keep_idempotent, All-append, All-map,
}
use beanstream.Text.{Str, codes, str_eq}
use beanstream.Error.{
  Result, ok, err, ◌>>=◌, ◌>>◌, refuse_if, ok_or, invalid_scheme, redirect_blocked, no_host, about,
}
use beanstream.Crates.{Crates}
use beanstream.UrlValidation.Validate.{parse_url}
use beanstream.RedirectPolicy.Pattern.{normalize_host}
use beanstream.RedirectPolicy.Policy.{set_insert, matches_any, is_http, is_https}

pub record ScopeValidator : Type 0 where
  pub allow_list : List Str
  pub deny_list : List Str
  pub default_deny : Bool

unfoldable pub new_scope : Bool → ScopeValidator
new_scope default_deny = record { allow_list = []; deny_list = []; default_deny = default_deny }

-- `extend` with the normalised hosts
unfoldable pub insert_hosts : List Str → List Str → List Str
unfolding set_insert
insert_hosts [] set = set
insert_hosts (host ∷ hosts) set = insert_hosts hosts (set_insert (normalize_host host) set)

unfoldable pub with_allow_list : List Str → ScopeValidator → ScopeValidator
unfolding insert_hosts
with_allow_list hosts v = record v { allow_list = insert_hosts hosts v.allow_list }

unfoldable pub with_deny_list : List Str → ScopeValidator → ScopeValidator
unfolding insert_hosts
with_deny_list hosts v = record v { deny_list = insert_hosts hosts v.deny_list }

unfoldable pub allow_scope_host : Str → ScopeValidator → ScopeValidator
unfolding set_insert
allow_scope_host host v = record v { allow_list = set_insert (normalize_host host) v.allow_list }

unfoldable pub deny_scope_host : Str → ScopeValidator → ScopeValidator
unfolding set_insert
deny_scope_host host v = record v { deny_list = set_insert (normalize_host host) v.deny_list }

unfoldable pub allow_list_len : ScopeValidator → ℕ
allow_list_len v = length v.allow_list

unfoldable pub deny_list_len : ScopeValidator → ℕ
deny_list_len v = length v.deny_list

module _ (crates : Crates) where
  open crates use {Url, scheme, host_str}

  unfoldable pub check_scope_host : ScopeValidator → Str → Result (Unit {0})
  check_scope_host v host =
      if matches_any v.deny_list host
      then err (redirect_blocked (about "Access to '{host}' is denied" (host ∷ [])))
      else if matches_any v.allow_list host
      then ok tt
      else if v.default_deny
      then err (
          redirect_blocked
            (about "Access to '{host}' is not permitted by scope policy" (host ∷ [])))
      else ok tt

  unfoldable pub check_url : ScopeValidator → Str → Result (Unit {0})
  unfolding check_scope_host
  check_url v url = do
    parsed ← parse_url crates url
    refuse_if (not (is_http crates parsed) && not (is_https crates parsed))
        (invalid_scheme (scheme parsed))
    host ← ok_or (host_str parsed) no_host
    check_scope_host v host
