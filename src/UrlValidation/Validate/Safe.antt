-- ===== src/UrlValidation/Validate/Safe.antt =====
-- What a URL that `validate_url` accepts has been checked for.
use beanstream.Prelude.{
  ℕ, ◌≡◌, refl, ◌≢◌, ◌↔◌, inl, inr, false, not, ◌||◌, Option, none, some, [], ◌∷◌, arith, ◌==◌,
  if◌then◌else◌, Bool-cases, Option-cases,
}
use beanstream.Text.{Str, codes, to_ascii_lowercase, str_eq}
use beanstream.Text.Laws.{str_eq_iff}
use beanstream.Net.{v4, v6}
use beanstream.Net.Display.{show_ipv4, show_ipv6}
use beanstream.Error.{ok, >>=-eq-ok, ok_or, refuse_if, ok_or-eq-ok, refuse_if-eq-ok}
use beanstream.Crates.{Crates, parsed, parse_error, UrlHost, domain, host_v4, host_v6}
use beanstream.UrlValidation.Ip.{
  is_private_or_loopback, is_ipv6_loopback_or_multicast, is_blocked_ip,
}
use beanstream.UrlValidation.Path.{
  contains_dangerous_sequences, validate_path, raw_path, path_has_dangerous_sequence,
  validate_raw_url_path,
}
use beanstream.UrlValidation.Domain.{validate_domain}
use beanstream.UrlValidation.Domain.Names.{IsPublicName, validate_domain_iff}
use beanstream.UrlValidation.Validate.{
  Scheme, parse_scheme, scheme_as_str, ValidatedHost, ParsedUrl, http, https, is_empty, is_some,
  parse_url, validate_port, validate_host, validate_url,
}

no_credentials :
    (user : Str) (secret : Option Str)
    → (not (is_empty user) || is_some secret) ≡ false
    → (user ≡ []) × (secret ≡ none)
no_credentials [] none h = (refl, refl)
no_credentials [] (some x) h = cc
no_credentials (c ∷ user) secret h = cc

module _ (crates : Crates) where
  open crates use {Url, parse, scheme, username, password, port, path, host}

  -- A host that is a public name, or an address that is not refused.
  abbrev pub IsPublicHost : ValidatedHost → Type 0
  IsPublicHost h = elim h.ip_addr [
    | none ↦ IsPublicName h.host
    | some a ↦ is_blocked_ip crates a ≡ false
  ]

  -- What is kept of a host that may be used.
  abbrev pub IsAllowedHost : Option UrlHost → ValidatedHost → Type 0
  IsAllowedHost none h = ⊥
  IsAllowedHost (some (domain name)) h =
      (h ≡ (record { host = name; ip_addr = none })) × IsPublicName name
  IsAllowedHost (some (host_v4 a)) h =
      (h ≡ (record { host = show_ipv4 a; ip_addr = some (v4 a) }))
      × (is_blocked_ip crates (v4 a) ≡ false)
  IsAllowedHost (some (host_v6 a)) h =
      (h ≡ (record { host = show_ipv6 a; ip_addr = some (v6 a) }))
      × (is_blocked_ip crates (v6 a) ≡ false)

  pub IsAllowedHost-IsPublicHost :
      (given : Option UrlHost) (h : ValidatedHost) → IsAllowedHost given h → IsPublicHost h
  IsAllowedHost-IsPublicHost none h e = absurd e
  IsAllowedHost-IsPublicHost (some (domain name)) h e = rw e.0 e.1
  IsAllowedHost-IsPublicHost (some (host_v4 a)) h e = rw e.0 e.1
  IsAllowedHost-IsPublicHost (some (host_v6 a)) h e = rw e.0 e.1

  pub validate_host_iff :
      (given : Option UrlHost) (h : ValidatedHost)
      → (validate_host crates given ≡ ok h) ↔ IsAllowedHost given h
  unfolding validate_host is_blocked_ip
  validate_host_iff none h = (λ e. absurd (cc e), λ e. absurd e)
  validate_host_iff (some (domain name)) h =
      let public = validate_domain_iff name in
      (
        λ e.
            let (_, k, _) = >>=-eq-ok (validate_domain name) _ e in
            let same : h ≡ (record { host = name; ip_addr = none }) = cc in (same, public.0 k),
        λ e. rw (e.0, public.1 e.1) refl,
      )
  validate_host_iff (some (host_v4 a)) h = (
    λ e. elim (Bool-cases (is_private_or_loopback crates a)) [
      | inl k ↦ absurd (ground arith)
      | inr k ↦
          let same : h ≡ (record { host = show_ipv4 a; ip_addr = some (v4 a) }) = ground arith in
          (same, k)
    ],
    λ e. rw (e.0, e.1) refl,
  )
  validate_host_iff (some (host_v6 a)) h = (
    λ e. elim (Bool-cases (is_ipv6_loopback_or_multicast crates a)) [
      | inl k ↦ absurd (ground arith)
      | inr k ↦
          let same : h ≡ (record { host = show_ipv6 a; ip_addr = some (v6 a) }) = ground arith in
          (same, k)
    ],
    λ e. rw (e.0, e.1) refl,
  )

  -- The port that is written, which is not 0, or the scheme's own.
  abbrev pub IsPort : Url → ℕ → Type 0
  IsPort url n = elim (port url) [
    | some given ↦ (n ≡ given) × (given ≢ 0)
    | none ↦ n ≡ (if str_eq (scheme url) (codes "https") then 443 else 80)
  ]

  pub validate_port_iff : (url : Url) (n : ℕ) → (validate_port crates url ≡ ok n) ↔ IsPort url n
  unfolding validate_port
  validate_port_iff url n = elim (Option-cases (port url)) [
    | inl e ↦ rw (validate_port, IsPort, e) (λ k. ground arith, λ k. rw k refl)
    | inr (given, e) ↦
        rw (validate_port, IsPort, e)
          (
            λ k. elim (Bool-cases (given == 0)) [
              | inl zero_port ↦ absurd (ground arith)
              | inr some_port ↦ (ground arith, λ z. ground arith)
            ],
            λ k. let fine : (given == 0) ≡ false = ground arith in rw (fine, k.0) refl,
          )
  ]

  -- What holds of an accepted text, with what is kept of it.
  pub record IsSafe (text : Str) (p : ParsedUrl) : Type 0 where
    pub url : Url
    pub parses : parse text ≡ parsed url
    pub web_scheme : to_ascii_lowercase (scheme url) ≡ scheme_as_str p.scheme
    pub no_username : username url ≡ []
    pub no_password : password url ≡ none
    pub port_ok : IsPort url p.port
    pub own_path : p.path.text ≡ path url
    pub safe_path : path_has_dangerous_sequence (path url) ≡ false
    pub safe_raw_path :
        (raw : Str) → raw_path text ≡ some raw → path_has_dangerous_sequence raw ≡ false
    pub allowed_host : IsAllowedHost (host url) p.host
    pub own_text : p.original_url ≡ text

  pub parse_url-parses :
      (text : Str) (u : Url) → parse_url crates text ≡ ok u → parse text ≡ parsed u
  unfolding parse_url
  parse_url-parses text u e =
      elim (parse text) as (λ q. parse text ≡ q → parse text ≡ parsed u) [
        | parsed v ↦ λ k. ground arith
        | parse_error m ↦ λ k. absurd (ground arith)
      ]
        refl

  parse_scheme-lowercase :
      (value : Str) (s : Scheme)
      → parse_scheme value ≡ some s
      → to_ascii_lowercase value ≡ scheme_as_str s
  unfolding parse_scheme scheme_as_str
  parse_scheme-lowercase value s e =
      let plain = str_eq_iff (to_ascii_lowercase value) (codes "http") in
      let tls = str_eq_iff (to_ascii_lowercase value) (codes "https") in
      elim (Bool-cases (str_eq (to_ascii_lowercase value) (codes "http"))) [
        | inl k ↦ let same : s ≡ http = ground arith in rw same (plain.0 k)
        | inr k ↦ elim (Bool-cases (str_eq (to_ascii_lowercase value) (codes "https"))) [
          | inl l ↦ let same : s ≡ https = ground arith in rw same (tls.0 l)
          | inr l ↦ absurd (ground arith)
        ]
      ]

  raw_path-safe :
      (text raw : Str)
      → validate_raw_url_path text ≡ ok tt
      → raw_path text ≡ some raw
      → path_has_dangerous_sequence raw ≡ false
  unfolding validate_raw_url_path
  raw_path-safe text raw h e = elim (Bool-cases (path_has_dangerous_sequence raw)) [
    | inl k ↦ absurd (ground arith)
    | inr k ↦ k
  ]

  -- An accepted text has passed all of these checks.
  pub validate_url-IsSafe :
      (text : Str) (p : ParsedUrl) → validate_url crates text ≡ ok p → IsSafe text p
  unfolding validate_url validate_path contains_dangerous_sequences
  validate_url-IsSafe text p h =
      let (_, raw_ok, h1) = >>=-eq-ok (validate_raw_url_path text) _ h in
      let (u, parses, h2) = >>=-eq-ok (parse_url crates text) _ h1 in
      let (s, known, h3) = >>=-eq-ok (ok_or (parse_scheme (scheme u)) _) _ h2 in
      let (_, bare, h4) =
        >>=-eq-ok (refuse_if (not (is_empty (username u)) || is_some (password u)) _) _ h3 in
      let (n, port_fine, h5) = >>=-eq-ok (validate_port crates u) _ h4 in
      let (_, path_fine, h6) = >>=-eq-ok (validate_path (record { text = path u })) _ h5 in
      let (g, host_fine, h7) = >>=-eq-ok (validate_host crates (host u)) _ h6 in
      let same : p ≡ (record {
        scheme = s;
        host = g;
        port = n;
        path = record { text = path u };
        original_url = text;
      }) =
        cc in
      rw same (record {
        url = u;
        parses = parse_url-parses text u parses;
        web_scheme =
            parse_scheme-lowercase (scheme u) s (ok_or-eq-ok (parse_scheme (scheme u)) _ known);
        no_username = (no_credentials (username u) (password u) (refuse_if-eq-ok _ _ bare)).0;
        no_password = (no_credentials (username u) (password u) (refuse_if-eq-ok _ _ bare)).1;
        port_ok = (validate_port_iff u n).0 port_fine;
        own_path = refl;
        safe_path = elim (Bool-cases (path_has_dangerous_sequence (path u))) [
          | inl k ↦ absurd (ground arith)
          | inr k ↦ k
        ];
        safe_raw_path = λ raw e. raw_path-safe text raw raw_ok e;
        allowed_host = (validate_host_iff (host u) g).0 host_fine;
        own_text = refl;
      })
