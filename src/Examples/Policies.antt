-- ===== src/Examples/Policies.antt =====
-- The theorems about redirect policies, scopes and retries, applied to concrete ones.
use beanstream.Prelude.{ℕ, ◌≡◌, refl, ◌↔◌, ◌⊎◌, true, [], ◌∷◌, ◌++◌}
use beanstream.Text.{Str, codes}
use beanstream.Error.{ok}
use beanstream.RedirectPolicy.Pattern.{normalize_host, matches_host_pattern}
use beanstream.RedirectPolicy.Pattern.Matches.{HasNoStar, matches_host_pattern-wildcard_iff}
use beanstream.RedirectPolicy.Policy.{check_redirect}
use beanstream.RedirectPolicy.Policy.Rules.{IsAcceptable, check_redirect_iff}
use beanstream.RedirectPolicy.Scope.{
  check_url, new_scope, with_allow_list, with_deny_list, allow_scope_host, deny_scope_host,
}
use beanstream.RedirectPolicy.Scope.Built.{IsPermitted, check_url-built_iff}
use beanstream.RedirectPolicy.Scope.Decision.{IsInScope, check_url_iff}
use beanstream.Examples.{crates, policy, request, home, moved}

check_redirect_iff_example :
    (check_redirect crates policy (home ∷ []) moved ≡ ok tt)
    ↔ IsAcceptable crates policy (home ∷ []) moved
check_redirect_iff_example = check_redirect_iff crates policy (home ∷ []) moved

check_url_iff_example :
    (check_url crates request.scope_validator moved.text ≡ ok tt)
    ↔ IsInScope crates request.scope_validator moved.text
check_url_iff_example = check_url_iff crates request.scope_validator moved.text

star_normal : normalize_host (codes "*.A.com") ≡ codes "*." ++ codes "a.com"
unfolding normalize_host beanstream.Text.to_ascii_lowercase beanstream.Text.trim_end_matches
    beanstream.Text.trim beanstream.Text.is_whitespace beanstream.Text.lower_char
star_normal = refl

matches_host_pattern-wildcard_iff_example :
    (matches_host_pattern (codes "*.A.com") (codes "x.y.a.com") ≡ true) ↔ (
      (normalize_host (codes "x.y.a.com") ≡ codes "a.com")
      ⊎ ((sub : Str) × (normalize_host (codes "x.y.a.com") ≡ sub ++ b'.' ∷ codes "a.com")))
matches_host_pattern-wildcard_iff_example =
    matches_host_pattern-wildcard_iff (codes "a.com") (codes "*.A.com") (codes "x.y.a.com")
      star_normal

a_normal : normalize_host (codes "A.com") ≡ codes "a.com"
unfolding normalize_host beanstream.Text.to_ascii_lowercase beanstream.Text.trim_end_matches
    beanstream.Text.trim beanstream.Text.is_whitespace beanstream.Text.lower_char
a_normal = refl

plain_normal : HasNoStar (normalize_host (codes "A.com"))
unfolding beanstream.Text.starts_with beanstream.Text.strip_prefix beanstream.Text.ends_with
plain_normal = rw a_normal (refl, refl)

abbrev unavailable : ℕ
unavailable = 503

check_url-built_iff_example :
    (check_url crates
        (deny_scope_host (codes "c.com") (
          allow_scope_host
            (codes "A.com")
            (with_deny_list [] (with_allow_list (codes "b.com" ∷ []) (new_scope true)))))
        home.text
      ≡ ok tt)
    ↔ IsPermitted crates (codes "A.com" ∷ codes "b.com" ∷ []) (codes "c.com" ∷ []) true home.text
check_url-built_iff_example =
    check_url-built_iff crates (codes "b.com" ∷ []) [] (codes "A.com") (codes "c.com") true
      home.text
