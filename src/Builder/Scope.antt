-- ===== src/Builder/Scope.antt =====
-- What the requests of a builder may reach.
use beanstream.Prelude.{
  ◌≡◌, refl, sym, ap, subst, ◌∙◌, ◌↔◌, inl, inr, Bool, true, false, ◌||◌, List, [], ◌∷◌, arith,
  Bool-cases, any, All,
}
use beanstream.Text.{Str, codes, str_eq, trim, trim_start_matches, trim_end_matches}
use beanstream.Text.Laws.{str_eq_iff}
use beanstream.Error.{ok, >>=-eq-ok}
use beanstream.Crates.{Crates}
use beanstream.RedirectPolicy.Pattern.{normalize_host, matches_host_pattern}
use beanstream.RedirectPolicy.Policy.{matches_any, set_insert}
use beanstream.RedirectPolicy.Scope.{
  ScopeValidator, new_scope, with_deny_list, insert_hosts, allow_scope_host, check_scope_host,
}
use beanstream.ProxyConfig.{ProxyCrate}
use beanstream.UrlValidation.Validate.{validate_url}
use beanstream.Request.{Method, HttpRequest, new}
use beanstream.Request.Send.{InterceptorChain}
use beanstream.Builder.{HttpClientBuilder}
use beanstream.Builder.Create.{private_names, configure, create_request, resolve_target}

-- A host that stands in a set decides nothing that the set does not decide.
any_listed :
    (p : Str → Bool) (host : Str) (set : List Str)
    → any (λ h. str_eq h host) set ≡ true
    → any p set ≡ (p host || any p set)
any_listed p host [] h = absurd (ground arith)
any_listed p host (first ∷ set) h = elim (Bool-cases (str_eq first host)) [
  | inl e ↦ let same = ap p ((str_eq_iff first host).0 e) in ground arith
  | inr e ↦ ground (arith, any_listed p host set (ground arith))
]

any-set_insert :
    (p : Str → Bool) (host : Str) (set : List Str)
    → any p (set_insert host set) ≡ (p host || any p set)
unfolding set_insert
any-set_insert p host set = elim (Bool-cases (any (λ h. str_eq h host) set)) [
  | inl e ↦ rw e (any_listed p host set e)
  | inr e ↦ rw e refl
]

any-insert_hosts :
    (p : Str → Bool) (hosts set : List Str)
    → All (λ h. normalize_host h ≡ h) hosts
    → any p (insert_hosts hosts set) ≡ (any p hosts || any p set)
unfolding insert_hosts
any-insert_hosts p [] set h = refl
any-insert_hosts p (host ∷ hosts) set h =
    let ih = any-insert_hosts p hosts (set_insert (normalize_host host) set) h.1 in
    let one = any-set_insert p (normalize_host host) set in let same = ap p h.0 in ground arith

private_names-normal : All (λ h. normalize_host h ≡ h) private_names
unfolding normalize_host beanstream.Text.to_ascii_lowercase trim_end_matches trim
    beanstream.Text.is_whitespace beanstream.Text.lower_char
private_names-normal = (
  refl,
  (
    refl,
    (
      refl,
      (refl, (refl, (refl, (refl, (refl, (refl, (refl, (refl, (refl, (refl, (refl, tt))))))))))),
    ),
  ),
)

private_names-denied :
    (host : Str) → matches_any (insert_hosts private_names []) host ≡ matches_any private_names host
unfolding matches_any
private_names-denied host =
    let each =
      any-insert_hosts (λ p. matches_host_pattern p host) private_names [] private_names-normal in
    each ∙ or_false (any (λ p. matches_host_pattern p host) private_names)
  where
    or_false : (b : Bool) → (b || false) ≡ b
    or_false true = refl
    or_false false = refl

module _ (crates : Crates) (proxies : ProxyCrate crates) where
  with_deny_list-check_scope_host :
      (v : ScopeValidator) (host : Str)
      → v.deny_list ≡ []
      → (check_scope_host crates (with_deny_list private_names v) host ≡ ok tt)
        ↔ ((check_scope_host crates v host ≡ ok tt) × (matches_any private_names host ≡ false))
  unfolding check_scope_host with_deny_list matches_any
  with_deny_list-check_scope_host v host e =
      let denied : matches_any (insert_hosts private_names v.deny_list) host
          ≡ matches_any private_names host =
        rw e (private_names-denied host) in
      let open_before : matches_any v.deny_list host ≡ false = rw (e, matches_any) refl in
      (λ h. (ground arith, ground arith), λ h. ground arith)

  -- What `create_request` succeeds with comes from a request that `new` built.
  pub record IsConfigured (b : HttpClientBuilder crates proxies) (method : Method) (target : Str)
      (request : HttpRequest crates proxies) (interceptors : InterceptorChain crates proxies)
      : Type 0 where
    pub bare : HttpRequest crates proxies
    pub resolved : resolve_target crates proxies b.base_url target ≡ ok request.url
    pub built : new crates proxies method request.url ≡ ok bare
    pub configured : request ≡ configure crates proxies b bare
    pub carried : interceptors ≡ b.interceptors

  new-url :
      (method : Method) (url : Str) (request : HttpRequest crates proxies)
      → new crates proxies method url ≡ ok request
      → request.url ≡ url
  unfolding new
  new-url method url request h = let (p, valid, h1) = >>=-eq-ok (validate_url crates url) _ h in cc

  pub create_request-IsConfigured :
      (b : HttpClientBuilder crates proxies) (method : Method) (target : Str)
      (request : HttpRequest crates proxies) (interceptors : InterceptorChain crates proxies)
      → create_request crates proxies b method target ≡ ok (request, interceptors)
      → IsConfigured b method target request interceptors
  unfolding create_request configure
  create_request-IsConfigured b method target request interceptors h =
      let (url, e, h1) = >>=-eq-ok (resolve_target crates proxies b.base_url target) _ h in
      let (bare, e', h2) = >>=-eq-ok (new crates proxies method url) _ h1 in
      let same : request ≡ configure crates proxies b bare = cc in
      let carried : interceptors ≡ b.interceptors = cc in
      let here : request.url ≡ url =
        ap (λ (r : HttpRequest crates proxies). r.url) same ∙ new-url method url bare e' in
      record {
        bare = bare;
        resolved = e ∙ ap ok (sym here);
        built = subst (λ u. new crates proxies method u ≡ ok bare) (sym here) e';
        configured = same;
        carried = carried;
      }

  new-scope :
      (method : Method) (url : Str) (bare : HttpRequest crates proxies)
      → new crates proxies method url ≡ ok bare
      → bare.scope_validator.deny_list ≡ []
  unfolding new new_scope allow_scope_host
  new-scope method url bare h = let (p, valid, h1) = >>=-eq-ok (validate_url crates url) _ h in cc

  -- With the check of private addresses on, the scope of a request that the builder creates admits
  -- a host exactly where the scope of a bare request for that URL does and no internal name matches.
  pub create_request-check_scope_host_iff :
      (b : HttpClientBuilder crates proxies) (method : Method) (target : Str)
      (request bare : HttpRequest crates proxies) (interceptors : InterceptorChain crates proxies)
      (host : Str)
      → b.check_private_ips ≡ true
      → create_request crates proxies b method target ≡ ok (request, interceptors)
      → new crates proxies method request.url ≡ ok bare
      → (check_scope_host crates request.scope_validator host ≡ ok tt) ↔ (
          (check_scope_host crates bare.scope_validator host ≡ ok tt)
          × (matches_any private_names host ≡ false))
  unfolding configure
  create_request-check_scope_host_iff b method target request bare interceptors host on h k =
      let c = create_request-IsConfigured b method target request interceptors h in
      let same : c.bare ≡ bare = cc (c.built, k) in
      let scope : request.scope_validator ≡ with_deny_list private_names bare.scope_validator =
        rw (c.configured, same, on) refl in
      rw scope (
        with_deny_list-check_scope_host bare.scope_validator host
          (new-scope method request.url bare k))
