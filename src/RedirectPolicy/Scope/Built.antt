-- ===== src/RedirectPolicy/Scope/Built.antt =====
-- What a scope decides that is built from lists of hosts.
use beanstream.Prelude.{
  ◌≡◌, refl, ap, ◌∙◌, ◌↔◌, ◌⊎◌, inl, inr, Bool, true, false, ◌||◌, some, List, [], ◌∷◌, arith,
  Bool-cases, any,
}
use beanstream.Text.{Str, codes, str_eq}
use beanstream.Text.Laws.{str_eq_iff}
use beanstream.Error.{ok}
use beanstream.Crates.{Crates, parsed}
use beanstream.RedirectPolicy.Pattern.{normalize_host, matches_host_pattern}
use beanstream.RedirectPolicy.Policy.{set_insert, matches_any}
use beanstream.RedirectPolicy.Scope.{
  new_scope, insert_hosts, with_allow_list, with_deny_list, allow_scope_host, deny_scope_host,
  check_url,
}
use beanstream.RedirectPolicy.Scope.Decision.{check_url_iff}

-- A host that is in the set already adds no match, and any other adds its own.
any-set_insert :
    (p : Str → Bool) (x : Str) (set : List Str) → any p (set_insert x set) ≡ (p x || any p set)
unfolding set_insert
any-set_insert p x set = elim (Bool-cases (any (λ h. str_eq h x) set)) [
  | inl e ↦ elim (Bool-cases (p x)) [
    | inl k ↦ rw (e, k) (any_of_member p x set e k)
    | inr k ↦ rw (e, k) refl
  ]
  | inr e ↦ rw e refl
]
  where
    any_of_member :
        (p : Str → Bool) (x : Str) (ys : List Str)
        → any (λ h. str_eq h x) ys ≡ true
        → p x ≡ true
        → any p ys ≡ true
    any_of_member p x [] h k = absurd (cc h)
    any_of_member p x (y ∷ ys) h k = elim (Bool-cases (str_eq y x)) [
      | inl e ↦ let same : y ≡ x = (str_eq_iff y x).0 e in rw (same, k) refl
      | inr e ↦ let later = any_of_member p x ys (rw e at h) k in ground (arith, later)
    ]

-- Some given host, normalised, matches.
abbrev pub covered : List Str → Str → Bool
covered hosts host = any (λ h. matches_host_pattern (normalize_host h) host) hosts

matches_any-insert_hosts :
    (host : Str) (hosts set : List Str)
    → matches_any (insert_hosts hosts set) host ≡ (covered hosts host || matches_any set host)
unfolding insert_hosts matches_any
matches_any-insert_hosts host [] set = refl
matches_any-insert_hosts host (x ∷ hosts) set =
    let rest = matches_any-insert_hosts host hosts (set_insert (normalize_host x) set) in
    let first = any-set_insert (λ p. matches_host_pattern p host) (normalize_host x) set in
    ground (arith, rest, first)

-- The same for a list and one more host.
matches_any-insert_one :
    (host also : Str) (hosts : List Str)
    → matches_any (set_insert (normalize_host also) (insert_hosts hosts [])) host
      ≡ covered (also ∷ hosts) host
unfolding matches_any
matches_any-insert_one host also hosts =
    let rest : matches_any (insert_hosts hosts []) host ≡ covered hosts host =
      ground (arith, matches_any-insert_hosts host hosts []) in
    any-set_insert (λ p. matches_host_pattern p host) (normalize_host also) (insert_hosts hosts [])
    ∙ ap (λ b. matches_host_pattern (normalize_host also) host || b) rest

module _ (crates : Crates) where
  open crates use {Url, scheme, host_str, parse}

  -- The URL parses, has the scheme `http` or `https` and a host that none of the denied hosts
  -- covers, and that one of the allowed hosts covers where unknown hosts are refused.
  pub record IsPermitted (allowed denied : List Str) (default_deny : Bool) (url : Str)
      : Type 0 where
    pub target : Url
    pub parses : parse url ≡ parsed target
    pub web_scheme : (scheme target ≡ codes "http") ⊎ (scheme target ≡ codes "https")
    pub host : Str
    pub has_host : host_str target ≡ some host
    pub not_denied : covered denied host ≡ false
    pub admitted : (covered allowed host ≡ true) ⊎ (default_deny ≡ false)

  -- A scope that is made by `new`, `with_allow_list` and `with_deny_list`, with one more host from
  -- `allow_host` and one from `deny_host`, accepts exactly the URLs that these hosts permit, each in
  -- its normal form as a pattern: the URL parses, has the scheme `http` or `https` and a host that
  -- no denied host covers, and that an allowed one covers where unknown hosts are refused.
  pub check_url-built_iff :
      (allowed denied : List Str) (also_allowed also_denied : Str) (default_deny : Bool) (url : Str)
      → (check_url crates
            (deny_scope_host also_denied (
              allow_scope_host also_allowed
                (with_deny_list denied (with_allow_list allowed (new_scope default_deny)))))
            url
          ≡ ok tt)
        ↔ IsPermitted (also_allowed ∷ allowed) (also_denied ∷ denied) default_deny url
  unfolding new_scope with_allow_list with_deny_list allow_scope_host deny_scope_host
  check_url-built_iff allowed denied also_allowed also_denied default_deny url =
      let decision = check_url_iff crates _ url in
      (
        λ h.
            let s = decision.0 h in
            record {
              target = s.target;
              parses = s.parses;
              web_scheme = s.web_scheme;
              host = s.host;
              has_host = s.has_host;
              not_denied = rw (denials s.host) at s.not_denied;
              admitted = rw (allowances s.host) at s.admitted;
            },
        λ s. decision.1 (record {
          target = s.target;
          parses = s.parses;
          web_scheme = s.web_scheme;
          host = s.host;
          has_host = s.has_host;
          not_denied = rw (denials s.host) s.not_denied;
          admitted = rw (allowances s.host) s.admitted;
        }),
      )
    where
      denials :
          (host : Str)
          → matches_any (set_insert (normalize_host also_denied) (insert_hosts denied [])) host
            ≡ covered (also_denied ∷ denied) host
      denials host = matches_any-insert_one host also_denied denied

      allowances :
          (host : Str)
          → matches_any (set_insert (normalize_host also_allowed) (insert_hosts allowed [])) host
            ≡ covered (also_allowed ∷ allowed) host
      allowances host = matches_any-insert_one host also_allowed allowed
