-- ===== src/Examples/Clients.antt =====
-- The theorems about the client builder, applied to one that pins a key and sends a header.
use beanstream.Prelude.{◌≡◌, refl, ◌↔◌, true, false, none, some, [], ◌∷◌}
use beanstream.Text.{Str, codes}
use beanstream.Error.{ok}
use beanstream.HeaderValidation.{Header}
use beanstream.CertPinning.{CertPinConfig}
use beanstream.RedirectPolicy.Policy.{default_policy, matches_any}
use beanstream.RedirectPolicy.Scope.{new_scope, allow_scope_host, check_scope_host}
use beanstream.ProxyConfig.{system, platform_lookup}
use beanstream.Request.{HttpRequest, new}
use beanstream.Request
use beanstream.Cookies.{CookieJar, cookie_store}
use beanstream.Request.World.{ClientConfig}
use beanstream.Request.Transport.{build_client}
use beanstream.Request.Send.{unfired}
use beanstream.Request.Vetted.{AllVetted}
use beanstream.Request.Execute.{execute_inner}
use beanstream.Request.Carried.{AllCarried}
use beanstream.Request.Carried.Run.{execute_inner-AllCarried}
use beanstream.Request.Built.{IsWellFormed}
use beanstream.Request.Setters.Made.{Made, Made-IsWellFormed}
use beanstream.Request.Setters.Made
use beanstream.Builder.{HttpClientBuilder, default_builder, ClientSettings, build}
use beanstream.Builder.Create.{configure, create_request, private_names}
use beanstream.Builder.Create
use beanstream.Builder.Scope.{create_request-check_scope_host_iff}
use beanstream.Builder.Agree.{build-build_client}
use beanstream.Builder.Sent.{send-AllVetted}
use beanstream.Examples.Urls.{request-valid}
use beanstream.Examples.{crates, proxies, env, request, start, home}

abbrev bare : HttpRequest crates proxies
bare = record request {
  headers = [];
  redirect_policy = default_policy;
  scope_validator = allow_scope_host home.name (new_scope true);
  retry = none;
  has_cache = false;
  proxy = system;
}

bare_built : new crates proxies Request.get home.text ≡ ok bare
unfolding new
bare_built = rw request-valid refl

abbrev pins : CertPinConfig
pins = record { pins = (1 ∷ 2 ∷ []) ∷ [] }

abbrev jar : CookieJar
jar = record { inner = some 7 }

abbrev builder : HttpClientBuilder crates proxies
builder = record (default_builder crates proxies) {
  default_headers = (codes "x-a", codes "b") ∷ [];
  cert_pinning = some pins;
  cookie_jar = some jar;
}

abbrev made : HttpRequest crates proxies
made = configure crates proxies builder bare

made_created : create_request crates proxies builder Request.get home.text ≡ ok (made, [])
unfolding beanstream.Text.str_eq create_request configure
made_created = rw bare_built refl

create_request-check_scope_host_iff_example :
    (check_scope_host crates made.scope_validator (codes "a.com") ≡ ok tt) ↔ (
      (check_scope_host crates bare.scope_validator (codes "a.com") ≡ ok tt)
      × (matches_any private_names (codes "a.com") ≡ false))
unfolding configure
create_request-check_scope_host_iff_example =
    create_request-check_scope_host_iff crates proxies builder Request.get home.text made bare []
      (codes "a.com") refl made_created bare_built

abbrev settings : ClientSettings
settings = record {
  timeout = 30000;
  connect_timeout = 10000;
  user_agent = codes "BeanStream/1.0";
  redirect_limit = none;
  default_headers = (codes "x-a", codes "b") ∷ [];
  cookies = some 7;
  routing = platform_lookup;
  pins = some pins;
}

settings_built : build crates proxies env (λ client. none) builder ≡ ok settings
unfolding build beanstream.ProxyConfig.apply beanstream.Request.Transport.install_pins
    beanstream.CertPinning.build_rustls_config cookie_store
settings_built = refl

abbrev config : ClientConfig
config = record {
  timeout = 30000;
  pinned = none;
  cookies = some 7;
  pins = some pins;
  routing = platform_lookup;
}

config_built : build_client crates proxies env made none ≡ ok config
unfolding build_client configure beanstream.CertPinning.build_rustls_config
    beanstream.ProxyConfig.apply cookie_store
config_built = refl

build-build_client_example :
    (config.timeout ≡ settings.timeout)
    × (config.routing ≡ settings.routing)
    × (config.cookies ≡ cookie_store (some jar))
    × (settings.cookies ≡ cookie_store (some jar))
    × (config.pins ≡ some pins)
    × (settings.pins ≡ some pins)
build-build_client_example =
    build-build_client crates proxies env (λ client. none) builder Request.get home.text made []
      none settings config settings_built made_created config_built

clean : Request.refuse_forbidden crates proxies builder.default_headers ≡ ok tt
unfolding Request.refuse_forbidden beanstream.HeaderValidation.is_blocked_header
    beanstream.Text.eq_ignore_ascii_case beanstream.Text.str_eq beanstream.Text.to_ascii_lowercase
    beanstream.Text.lower_char
clean = refl

send-AllVetted_example :
    AllVetted crates proxies made
      (Create.send crates proxies env builder Request.get home.text unfired start).1
send-AllVetted_example =
    send-AllVetted crates proxies env builder Request.get home.text unfired start made [] refl clean
      refl made_created tt

-- A request with a longer timeout and no proxy.
Made-IsWellFormed_example :
    IsWellFormed crates proxies (Made.set crates proxies (Made.timeout 60000) bare)
Made-IsWellFormed_example =
    Made-IsWellFormed crates proxies (Made.set crates proxies (Made.timeout 60000) bare)
      (Made.sets (Made.timeout 60000) (Made.constructs Request.get home.text bare_built))

execute_inner-AllCarried_example :
    AllCarried crates proxies made env (execute_inner crates proxies env made start).1
execute_inner-AllCarried_example = execute_inner-AllCarried crates proxies made env start tt
