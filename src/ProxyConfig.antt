-- ===== src/ProxyConfig.antt =====
-- proxy_config.rs: which proxy a client uses.
pub mod Routes
use beanstream.Prelude.{
  ℕ, zero, suc, ◌+◌, ◌-◌, ◌*◌, ◌/◌, ◌%◌, ◌^◌, ◌≤◌, ◌<◌, min, max, code, String, ◌≡◌, refl, sym, ap,
  subst, ◌∙◌, ◌≢◌, ◌↔◌, ◌⊎◌, inl, inr, Bool, true, false, not, ◌&&◌, ◌||◌, Option, none, some, List,
  [], ◌∷◌, ◌++◌, map, reverse, arith, ltb, leb, ◌==◌, if◌then◌else◌, between, ==_iff, Bool-cases,
  Option-cases, length, any, all, find, keep, length-append, any-append, all-append, All, all_iff,
  All-keep, keep_of_All, keep_idempotent, All-append, All-map,
}
use beanstream.Text.{Str, codes, str_eq, trim}
use beanstream.Error.{
  BeanStreamError, Result, ok, err, ◌>>=◌, ◌>>◌, refuse_if, invalid_configuration, lit, about,
}
use beanstream.Crates.{Crates, parsed, parse_error}

-- What `reqwest::Proxy` is built from: its constructor, its URL, and what is set on it.
pub data ProxyRule : Type 0 where
  all_traffic http_traffic https_traffic : ProxyRule

pub record Proxy : Type 0 where
  pub rule : ProxyRule
  pub target : Str
  pub basic_auth : Option (Str × Str)
  pub bypass : Option Str

-- What the client builder is told about proxies.
pub data Routing : Type 0 where
  platform_lookup : Routing
  no_proxy : Routing
  via : Proxy → Routing

-- `value.trim().is_empty()`
abbrev is_blank : Str → Bool
is_blank value = elim (trim value) [ [] ↦ true | c ∷ s ↦ false ]

-- The closure `first` of `select_proxy`, on its two names.
unfoldable pub first_of : (Str → Option Str) → Str → Str → Option Str
first_of get upper lower =
    let found : Option Str = elim (get upper) [ some v ↦ some v | none ↦ get lower ] in
    elim found [ none ↦ none | some value ↦ if is_blank value then none else some value ]

-- `or_else`
abbrev pub or_else : Option Str → Option Str → Option Str
or_else (some v) other = some v
or_else none other = other

unfoldable pub select_proxy : (Str → Option Str) → Option Str × Option Str
select_proxy get =
    let proxy = or_else (first_of get (codes "ALL_PROXY") (codes "all_proxy")) (
      or_else (first_of get (codes "HTTPS_PROXY") (codes "https_proxy"))
        (first_of get (codes "HTTP_PROXY") (codes "http_proxy"))) in
    (proxy, first_of get (codes "NO_PROXY") (codes "no_proxy"))

-- Third-party functions on proxies: what is left of a URL without its user and password, its port
-- or the default of its scheme, and whether `Proxy::*` and `NoProxy::from_string` accept a text.
pub record ProxyCrate (crates : Crates) : Type 0 where
  pub without_credentials : crates.Url → crates.Url
  pub port_or_known_default : crates.Url → Option ℕ
  pub proxy_error : Str → Option Str
  pub no_proxy_ok : Str → Bool

module _ (crates : Crates) (proxies : ProxyCrate crates) where
  open crates use {Url, parse, scheme, host_str, port, as_str}
  open proxies use {without_credentials, port_or_known_default, proxy_error, no_proxy_ok}

  pub record ProxyEndpoint : Type 0 where
    pub url : Url
    pub username : Option Str
    pub password : Option Str

  pub data ProxyConfig : Type 0 where
    system environment disabled : ProxyConfig
    explicit : ProxyEndpoint → ProxyConfig

  unfoldable pub new_endpoint : Str → Result ProxyEndpoint
  new_endpoint given = elim (parse given) [
    | parse_error e ↦
        err (invalid_configuration (about "Invalid proxy URL '{url}': {error}" (given ∷ e ∷ [])))
    | parsed u ↦ do
      refuse_if (not (str_eq (scheme u) (codes "http")) && not (str_eq (scheme u) (codes "https")))
          (invalid_configuration
            (about "Proxy scheme '{other}' is not supported; use http or https" (scheme u ∷ [])))
      refuse_if (elim (host_str u) [ none ↦ true | some h ↦ false ])
          (invalid_configuration (about "Proxy URL '{url}' has no host" (given ∷ [])))
      refuse_if (elim (port u) [ none ↦ false | some p ↦ p == 0 ])
          (invalid_configuration (lit "Proxy port 0 is not usable"))
      ok (record { url = u; username = none; password = none })
  ]

  unfoldable pub explicit_url : Str → Result ProxyConfig
  unfolding new_endpoint
  explicit_url url = do endpoint ← new_endpoint url; ok (explicit endpoint)

  unfoldable pub explicit_with_auth : Str → Str → Str → Result ProxyConfig
  unfolding new_endpoint
  explicit_with_auth url username password = do
    endpoint ← new_endpoint url
    ok (explicit (record endpoint { username = some username; password = some password }))

  unfoldable pub may_use_proxy : ProxyConfig → Bool
  may_use_proxy disabled = false
  may_use_proxy _ = true

  unfoldable pub redacted_url : ProxyEndpoint → Str
  redacted_url endpoint = as_str (without_credentials endpoint.url)

  unfoldable pub endpoint_host : ProxyEndpoint → Str
  endpoint_host endpoint = elim (host_str endpoint.url) [ none ↦ [] | some h ↦ h ]

  unfoldable pub endpoint_port : ProxyEndpoint → ℕ
  endpoint_port endpoint = elim (port_or_known_default endpoint.url) [
    | some p ↦ p
    | none ↦ if str_eq (scheme endpoint.url) (codes "https") then 443 else 80
  ]

  both : Option Str → Option Str → Option (Str × Str)
  both (some user) (some pass) = some (user, pass)
  both _ _ = none

  unfoldable pub credentials : ProxyEndpoint → Option (Str × Str)
  unfolding both
  credentials endpoint = both endpoint.username endpoint.password

  -- `Proxy::all(url)`, `Proxy::http(url)` or `Proxy::https(url)`
  unfoldable pub build_proxy : ProxyRule → Str → String → Result Proxy
  build_proxy rule url message = elim (proxy_error url) [
    | some e ↦ err (invalid_configuration (about message (url ∷ e ∷ [])))
    | none ↦ ok (record { rule = rule; target = url; basic_auth = none; bypass = none })
  ]

  -- A bypass list that `NoProxy::from_string` reads.
  unfoldable pub with_bypass : Option Str → Proxy → Proxy
  with_bypass none proxy = proxy
  with_bypass (some list) proxy =
      if no_proxy_ok list then record proxy { bypass = some list } else proxy

  unfoldable pub with_credentials : Option (Str × Str) → Proxy → Proxy
  with_credentials none proxy = proxy
  with_credentials (some auth) proxy = record proxy { basic_auth = some auth }

  module _ (get : Str → Option Str) where
    unfoldable pub apply : ProxyConfig → Result Routing
    unfolding build_proxy with_bypass with_credentials redacted_url credentials
    apply system = ok platform_lookup
    apply disabled = ok no_proxy
    apply environment = elim (select_proxy get).0 [
      | none ↦ ok no_proxy
      | some proxy_url ↦ do
        proxy ←
            build_proxy all_traffic proxy_url
              "Invalid proxy URL from the environment ('{proxy_url}'): {error}"
        ok (via (with_bypass (select_proxy get).1 proxy))
    ]
    apply (explicit endpoint) = do
      let url = redacted_url endpoint
      proxy ←
          build_proxy
            (if str_eq (scheme endpoint.url) (codes "https") then https_traffic else http_traffic)
            url "Invalid proxy URL '{url}': {error}"
      ok (via (with_bypass (select_proxy get).1 (with_credentials (credentials endpoint) proxy)))
