-- ===== src/Request/Hop.antt =====
-- `validate_hop`, `plan_hop` and `location_of` of request_handler.rs.
pub mod Rewrite
use beanstream.Prelude.{
  ℕ, zero, suc, ◌+◌, ◌-◌, ◌*◌, ◌/◌, ◌%◌, ◌^◌, ◌≤◌, ◌<◌, min, max, code, String, ◌≡◌, refl, sym, ap,
  subst, ◌∙◌, ◌≢◌, ◌↔◌, ◌⊎◌, inl, inr, Bool, true, false, not, ◌&&◌, ◌||◌, Option, none, some, List,
  [], ◌∷◌, ◌++◌, map, reverse, arith, ltb, leb, ◌==◌, if◌then◌else◌, between, ==_iff, Bool-cases,
  Option-cases, length, any, all, find, keep, length-append, any-append, all-append, All, all_iff,
  All-keep, keep_of_All, keep_idempotent, All-append, All-map,
}
use beanstream.Text.{Str, codes, eq_ignore_ascii_case}
use beanstream.Error.{
  Result, ok, err, ◌>>=◌, ◌>>◌, refuse_if, ok_or, redirect_blocked, about, of_number,
}
use beanstream.Crates.{Crates}
use beanstream.HeaderValidation.{Header, is_sensitive_header}
use beanstream.UrlValidation.Validate.{validate_url}
use beanstream.RedirectPolicy.Policy.{check_redirect}
use beanstream.RedirectPolicy.Scope.{check_url}
use beanstream.ProxyConfig.{ProxyCrate}
use beanstream.Request.{Method, get, is_post, HttpRequest}

unfoldable pub location_of : List Header → ℕ → Result Str
location_of headers status =
    elim (find (λ h. eq_ignore_ascii_case h.0 (codes "location")) headers) [
      | some h ↦ ok h.1
      | none ↦
          err (
            redirect_blocked (of_number "Redirect response {status} has no Location header" status))
    ]

-- 303, and 301 or 302 on POST
unfoldable pub rewrite_to_get : ℕ → Method → Bool
unfolding is_post
rewrite_to_get status method = status == 303 || (status == 301 || status == 302) && is_post method

unfoldable pub strip_sensitive : List Header → List Header
strip_sensitive headers = keep (λ h. not (is_sensitive_header h.0)) headers

module _ (crates : Crates) (proxies : ProxyCrate crates) where
  open crates use {Url, as_str, join, url_eq, same_origin}

  pub record RedirectHop : Type 0 where
    pub url : Url
    pub method : Method
    pub headers : List Header
    pub body : Option Str

  module _ (request : HttpRequest crates proxies) where
    unfoldable pub validate_hop : List Url → Url → Result (Unit {0})
    validate_hop visited next = do
      check_redirect crates request.redirect_policy visited next
      _ ← validate_url crates (as_str next)
      check_url crates request.scope_validator (as_str next)

    -- The method, the headers and the body that the next hop carries.
    unfoldable pub rewrite_hop : Url → Url → ℕ → Method → List Header → Option Str → RedirectHop
    unfolding rewrite_to_get strip_sensitive
    rewrite_hop current next status method headers body =
        let rewritten = rewrite_to_get status method in
        let same = same_origin current next in
        record {
          url = next;
          method = if rewritten then get else method;
          headers = if same then headers else strip_sensitive headers;
          body = if not same then none else if rewritten then none else body;
        }

    unfoldable pub plan_hop :
        List Url → Url → ℕ → Str → Method → List Header → Option Str → Result RedirectHop
    unfolding rewrite_hop
    plan_hop visited current status location method headers body = do
      next ←
          ok_or (join current location)
            (redirect_blocked (about "Invalid redirect target '{location}'" (location ∷ [])))
      refuse_if (any (λ seen. url_eq seen next) visited)
          (redirect_blocked (about "Redirect loop detected at '{next}'" (as_str next ∷ [])))
      validate_hop visited next
      ok (rewrite_hop current next status method headers body)
