-- ===== src/RedirectPolicy/Policy/Rules.antt =====
-- Which redirect hops `check_redirect` accepts, and how it refuses the others.
use beanstream.Prelude.{
  ◌<◌, ◌≡◌, refl, ◌≢◌, ◌↔◌, ◌⊎◌, inl, inr, true, false, not, ◌&&◌, some, List, [], ◌∷◌, arith,
  Bool-cases, Option-cases, length, any, any-append, All,
}
use beanstream.Text.{Str, codes, str_eq}
use beanstream.Text.Laws.{str_eq_iff}
use beanstream.Error.{ok}
use beanstream.Crates.{Crates}
use beanstream.RedirectPolicy.Policy.{
  RedirectPolicy, matches_any, is_http, is_https, is_downgrade, check_hosts, check_redirect,
}

module _ (crates : Crates) where
  open crates use {Url, scheme, host_str}

  -- What the policy's lists say of the host of a hop.
  pub record IsAcceptableHost (policy : RedirectPolicy) (host : Str) : Type 0 where
    pub not_denied : matches_any policy.denied_hosts host ≡ false
    pub permitted :
        ((policy.track_all_redirects ≡ false) × (policy.allow_any_redirect ≡ true))
        ⊎ (matches_any policy.allowed_hosts host ≡ true)

  pub check_hosts_iff :
      (policy : RedirectPolicy) (host : Str)
      → (check_hosts crates policy host ≡ ok tt) ↔ IsAcceptableHost policy host
  unfolding check_hosts
  check_hosts_iff policy host =
      (λ h. record { not_denied = ground arith; permitted = ground arith }, λ h. ground arith)

  -- A hop that may be taken, stated without the order of the tests.
  pub record IsAcceptable (policy : RedirectPolicy) (previous : List Url) (next : Url)
      : Type 0 where
    pub in_length : length previous < policy.max_redirects
    pub web_scheme : (scheme next ≡ codes "http") ⊎ (scheme next ≡ codes "https")
    pub no_downgrade :
        (policy.allow_scheme_downgrade ≡ true)
        ⊎ (scheme next ≢ codes "http")
        ⊎ All (λ u. scheme u ≢ codes "https") previous
    pub host : Str
    pub has_host : host_str next ≡ some host
    pub host_ok : IsAcceptableHost policy host

  -- No hop so far used TLS, or this one does not leave it.
  is_downgrade_iff :
      (previous : List Url) (next : Url)
      → (is_downgrade crates previous next ≡ false)
        ↔ ((scheme next ≢ codes "http") ⊎ All (λ u. scheme u ≢ codes "https") previous)
  unfolding is_downgrade
  is_downgrade_iff previous next =
      let http = str_eq_iff (scheme next) (codes "http") in
      let https = str_eq_iff (scheme next) (codes "https") in
      let split = any-append (is_https crates) previous (next ∷ []) in
      (
        λ h. elim (Bool-cases (is_http crates next)) [
          | inl e ↦ inr (no_tls previous (ground arith))
          | inr e ↦ inl (λ s. cc (e, http.1 s))
        ],
        elim [
          | inl n ↦ elim (Bool-cases (is_http crates next)) [
            | inl e ↦ absurd (n (http.0 e))
            | inr e ↦ ground arith
          ]
          | inr l ↦ elim (Bool-cases (is_http crates next)) [
            | inl e ↦ ground (arith, not_any previous l, not_https (http.0 e))
            | inr e ↦ ground arith
          ]
        ],
      )
    where
      not_https : scheme next ≡ codes "http" → is_https crates next ≡ false
      not_https e = rw e (unfold str_eq in refl)

      no_tls :
          (urls : List Url)
          → any (is_https crates) urls ≡ false
          → All (λ u. scheme u ≢ codes "https") urls
      no_tls [] h = tt
      no_tls (u ∷ urls) h =
          let head : is_https crates u ≡ false = ground arith in
          (λ s. cc (head, (str_eq_iff (scheme u) (codes "https")).1 s), no_tls urls (ground arith))

      not_any :
          (urls : List Url)
          → All (λ u. scheme u ≢ codes "https") urls
          → any (is_https crates) urls ≡ false
      not_any [] h = refl
      not_any (u ∷ urls) h = ground (arith, str_eq_iff (scheme u) (codes "https"), not_any urls h.1)

  -- A hop is accepted exactly when fewer than `max_redirects` URLs came before it, its scheme is
  -- `http` or `https`, it does not go to `http` in a chain that has used `https` (unless downgrades
  -- are allowed), it has a host that no deny pattern matches, and an allow pattern matches the host
  -- or any host is allowed and not all redirects are tracked.
  pub check_redirect_iff :
      (policy : RedirectPolicy) (previous : List Url) (next : Url)
      → (check_redirect crates policy previous next ≡ ok tt) ↔ IsAcceptable policy previous next
  unfolding check_redirect
  check_redirect_iff policy previous next =
      let http = str_eq_iff (scheme next) (codes "http") in
      let https = str_eq_iff (scheme next) (codes "https") in
      let downgrade = is_downgrade_iff previous next in
      (
        λ h. elim (Option-cases (host_str next)) [
          | inl n ↦ absurd (ground arith)
          | inr (host, e) ↦ record {
            in_length = ground arith;
            web_scheme = ground (arith, http, https);
            no_downgrade = elim (Bool-cases policy.allow_scheme_downgrade) [
              | inl allowed ↦ inl allowed
              | inr strictly ↦ inr (downgrade.0 (ground arith))
            ];
            host = host;
            has_host = e;
            host_ok = (check_hosts_iff policy host).0 (ground arith);
          }
        ],
        λ a.
            let hosts = (check_hosts_iff policy a.host).1 a.host_ok in
            let kept : (not policy.allow_scheme_downgrade && is_downgrade crates previous next)
                ≡ false =
              elim a.no_downgrade [
                | inl allowed ↦ rw allowed refl
                | inr tls ↦ ground (arith, downgrade.1 tls)
              ] in
            ground (arith, http, https, a.has_host),
      )
