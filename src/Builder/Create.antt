-- ===== src/Builder/Create.antt =====
-- The requests that an `HttpClientBuilder` of builder.rs creates.
use beanstream.Prelude.{true, false, not, Option, none, some, List, [], ◌∷◌, ◌++◌, if◌then◌else◌}
use beanstream.Text.{Str, codes}
use beanstream.Error.{Result, ok, err, ◌>>=◌, url_error, missing_config, lit, about}
use beanstream.Crates.{Crates, parsed, parse_error}
use beanstream.RedirectPolicy.Policy.{RedirectPolicy, default_policy, allow_host}
use beanstream.RedirectPolicy.Scope.{ScopeValidator, new_scope, with_deny_list}
use beanstream.ProxyConfig.{ProxyCrate}
use beanstream.UrlValidation.Validate.{parse_url}
use beanstream.Response.{HttpResponse}
use beanstream.Request.{Method, HttpRequest, new}
use beanstream.Request.Exec
use beanstream.Request.Exec.{Exec}
use beanstream.Request.World.{World, Env}
use beanstream.Request.Send.{InterceptorChain, Race}
use beanstream.Request.Send
use beanstream.Builder.{HttpClientBuilder}

-- The hosts that `create_scope_validator` denies.
abbrev pub internal_names : List Str
internal_names =
    codes "10.*"
    ∷ codes "100.64.*"
    ∷ codes "127.0.0.1"
    ∷ codes "169.254.*"
    ∷ codes "172.16.*"
    ∷ codes "192.168.*"
    ∷ codes "198.18.*"
    ∷ codes "224.*"
    ∷ codes "240.*"
    ∷ codes "localhost"
    ∷ codes "*.localhost"
    ∷ codes "*.local"
    ∷ codes "*.internal"
    ∷ []

-- The hosts that `create_request` denies.
abbrev pub private_names : List Str
private_names = codes "0.0.0.0" ∷ internal_names

module _ (crates : Crates) (proxies : ProxyCrate crates) where
  open crates use {parse, join, join_error, as_str, host_str}

  -- The policy gets the base URL's host, if it has one.
  unfoldable pub seed_policy : Option Str → RedirectPolicy → RedirectPolicy
  seed_policy none policy = policy
  seed_policy (some base_url) policy = elim (parse base_url) [
    | parse_error e ↦ policy
    | parsed base ↦ elim (host_str base) [ none ↦ policy | some host ↦ allow_host host policy ]
  ]

  unfoldable pub get_redirect_policy : HttpClientBuilder crates proxies → RedirectPolicy
  unfolding seed_policy
  get_redirect_policy b = seed_policy b.base_url (record default_policy {
    max_redirects = b.max_redirects;
    track_all_redirects = true;
    allow_any_redirect = false;
    follow_redirects = b.follow_redirects;
  })

  unfoldable pub create_scope_validator : HttpClientBuilder crates proxies → ScopeValidator
  create_scope_validator b =
      if b.check_private_ips
      then with_deny_list internal_names (new_scope false)
      else new_scope false

  -- `base.join(target)`, of the base URL
  unfoldable pub join_target : Option Str → Str → Result Str
  join_target none target =
      err (missing_config (lit "A base URL is required for relative request targets"))
  join_target (some base_url) target = do
    base ← parse_url crates base_url
    elim (join base target) [
      | some u ↦ ok (as_str u)
      | none ↦ err (url_error (about "{}" (join_error base target ∷ [])))
    ]

  unfoldable pub resolve_target : Option Str → Str → Result Str
  resolve_target base_url target = elim (parse target) [
    | parsed u ↦ ok target
    | parse_error e ↦ join_target base_url target
  ]

  -- What the closure of `create_request` does to the request.
  unfoldable pub configure :
      HttpClientBuilder crates proxies → HttpRequest crates proxies → HttpRequest crates proxies
  configure b request = record request {
    timeout = b.timeout;
    redirect_policy = get_redirect_policy b;
    cookie_jar = elim b.cookie_jar [ none ↦ request.cookie_jar | some jar ↦ some jar ];
    cert_pinning = elim b.cert_pinning [
      | none ↦ request.cert_pinning
      | some pinning ↦ some pinning
    ];
    proxy = b.proxy;
    allow_private_addresses = not b.check_private_ips;
    headers = request.headers ++ b.default_headers;
    scope_validator =
        if b.check_private_ips
        then with_deny_list private_names request.scope_validator
        else new_scope false;
  }

  -- The request, and the chain of interceptors that it carries.
  unfoldable pub create_request :
      HttpClientBuilder crates proxies
      → Method
      → Str
      → Result (HttpRequest crates proxies × InterceptorChain crates proxies)
  unfolding configure resolve_target join_target
  create_request b method target = do
    url ← resolve_target b.base_url target
    request ← new crates proxies method url
    ok (configure b request, b.interceptors)

  unfoldable pub send :
      Env → HttpClientBuilder crates proxies → Method → Str → Race → Exec World HttpResponse
  send env b method target race =
      Exec.◌>>=◌ (Exec.lift (create_request b method target))
        λ created. Send.send crates proxies env created.1 created.0 race
