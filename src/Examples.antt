-- ===== src/Examples.antt =====
-- Concrete parameters, on which the theorems are applied: a URL parser that knows a few URLs, IPv4
-- networks, a header syntax, a proxy library and a world whose server redirects once.
mod Urls
mod Paths
mod Certificates
mod Policies
mod Headers
mod Stores
mod Bodies
mod Requests
mod Cancelled
mod Signals
mod Clients
mod Streams
use beanstream.Prelude.{
  ℕ, zero, suc, ◌+◌, ◌-◌, ◌*◌, ◌/◌, ◌%◌, ◌^◌, ◌≤◌, ◌<◌, min, max, code, String, ◌≡◌, refl, sym, ap,
  subst, ◌∙◌, ◌≢◌, ◌↔◌, ◌⊎◌, inl, inr, Bool, true, false, not, ◌&&◌, ◌||◌, Option, none, some, List,
  [], ◌∷◌, ◌++◌, map, reverse, arith, ltb, leb, ◌==◌, if◌then◌else◌, between, ==_iff, Bool-cases,
  Option-cases, length, any, all, find, keep, length-append, any-append, all-append, All, all_iff,
  All-keep, keep_of_All, keep_idempotent, All-append, All-map,
}
use beanstream.Text.{Str, codes, str_eq}
use beanstream.Text.Laws.{str_eq_refl}
use beanstream.Net.{Ipv4Addr, Ipv6Addr, IpAddr, v4, v6, to_bits}
use beanstream.Crates.{
  Crates, Parsed, parsed, parse_error, UrlHost, domain, host_v4, host_v6, IpNetLaws,
}
use beanstream.HeaderValidation.{Header}
use beanstream.Response.{HttpResponse}
use beanstream.UrlValidation.Resolve.{Lookup, failed, answered}
use beanstream.UrlValidation.Validate.{http, https}
use beanstream.RedirectPolicy.Policy.{RedirectPolicy, default_policy}
use beanstream.Retry.{RetryConfig, default_retry}
use beanstream.Cache.Entries.{Table, get, first_key}
use beanstream.Cache.{CacheEntry, InMemoryCache, default_config}
use beanstream.Cache.Laws.{IsOrder}
use beanstream.ProxyConfig.{ProxyCrate, ProxyConfig, environment}
use beanstream.Request.{Method, HttpRequest}
use beanstream.Request
use beanstream.Request.World.{Outbound, RawResponse, Reply, received, World, Env}

pub record KnownUrl : Type 0 where
  pub text : Str
  pub scheme : Str
  pub name : Str
  pub path : Str

abbrev pub home : KnownUrl
home = record {
  text = codes "https://a.com/x";
  scheme = codes "https";
  name = codes "a.com";
  path = codes "/x";
}

abbrev pub moved : KnownUrl
moved = record {
  text = codes "https://b.com/y";
  scheme = codes "https";
  name = codes "b.com";
  path = codes "/y";
}

abbrev pub plain : KnownUrl
plain = record {
  text = codes "http://a.com/z";
  scheme = codes "http";
  name = codes "a.com";
  path = codes "/z";
}

abbrev pub known_urls : List KnownUrl
known_urls = home ∷ moved ∷ plain ∷ []

abbrev pub look_up : Str → Option KnownUrl
look_up text = find (λ u. str_eq u.text text) known_urls

abbrev pub crates : Crates
crates = record {
  Url = KnownUrl;
  parse = λ text. elim (look_up text) [ some u ↦ parsed u | none ↦ parse_error (codes "unknown") ];
  scheme = λ u. u.scheme;
  username = λ u. [];
  password = λ u. none;
  port = λ u. none;
  path = λ u. u.path;
  host = λ u. some (domain u.name);
  host_str = λ u. some u.name;
  as_str = λ u. u.text;
  join = λ u location. look_up location;
  join_error = λ u location. codes "unknown";
  url_eq = λ u v. str_eq u.text v.text;
  same_origin = λ u v. str_eq u.scheme v.scheme && str_eq u.name v.name;
  Ipv4Net = Ipv4Addr × ℕ;
  new_net = λ x prefix. if leb prefix 32 then some (x, prefix) else none;
  net_contains = λ n y. to_bits y / 2 ^ (32 - n.1) == to_bits n.0 / 2 ^ (32 - n.1);
  header_name_ok = λ name. all (λ c. ltb 32 c && ltb c 127 && not (c == b':')) name;
  header_value_ok = λ value. all (λ c. leb 32 c && not (c == 127) || c == 9) value;
}

pub net_laws : IpNetLaws crates
net_laws = record {
  net = λ x prefix. (x, prefix);
  new_net-eq = λ x prefix h. ground arith;
  net_contains-eq = λ x y prefix h. refl;
}

abbrev pub proxies : ProxyCrate crates
proxies = record {
  without_credentials = λ u. u;
  port_or_known_default = λ u. some 443;
  proxy_error = λ text. none;
  no_proxy_ok = λ text. true;
}

-- `ALL_PROXY` is blank and `https_proxy` is set.
abbrev pub variable : Str → Option Str
variable name =
    if str_eq name (codes "ALL_PROXY")
    then some (codes " ")
    else if str_eq name (codes "https_proxy")
    then some (codes "http://p:1")
    else none

-- The entries in the order in which they are stored.
abbrev pub in_order : Table CacheEntry → Table CacheEntry
in_order t = t

first_found :
    (t : Table CacheEntry) (k : Str) → first_key t ≡ some k → (v : CacheEntry) × (get k t ≡ some v)
unfolding first_key get
first_found [] k h = absurd (cc h)
first_found ((j, v) ∷ t) k h = (v, ground (arith, str_eq_refl k))

any_found :
    (t : Table CacheEntry) (p : Str × CacheEntry → Bool) (e : Str × CacheEntry)
    → find p t ≡ some e
    → (v : CacheEntry) × (get e.0 t ≡ some v)
unfolding get
any_found [] p e h = absurd (cc h)
any_found ((j, w) ∷ t) p e h = elim (Bool-cases (p (j, w))) [
  | inl hit ↦ let same : e ≡ (j, w) = ground arith in (w, rw same (ground (arith, str_eq_refl j)))
  | inr miss ↦
      let (v, g) = any_found t p e (ground arith) in
      elim (Bool-cases (str_eq j e.0)) [ inl k ↦ (w, ground arith) | inr k ↦ (v, ground arith) ]
]

nothing_listed : (t : Table CacheEntry) → first_key t ≡ none → t ≡ []
unfolding first_key
nothing_listed [] h = refl
nothing_listed ((j, v) ∷ t) h = absurd (cc h)

pub in_order-IsOrder : IsOrder in_order
in_order-IsOrder = record {
  key_found = first_found;
  entry_found = any_found;
  all_listed = nothing_listed;
}

abbrev pub public_address : IpAddr
public_address = v4 (record { a = 93; b = 184; c = 216; d = 34 })

abbrev pub policy : RedirectPolicy
policy = record default_policy {
  follow_redirects = true;
  allowed_hosts = codes "a.com" ∷ codes "b.com" ∷ [];
}

abbrev pub token : Header
token = (codes "authorization", codes "secret")

abbrev pub request : HttpRequest crates proxies
request = record {
  method = Request.get;
  url = home.text;
  parsed_url = record {
    scheme = https;
    host = record { host = home.name; ip_addr = none };
    port = 443;
    path = record { text = home.path };
    original_url = home.text;
  };
  headers = token ∷ [];
  body = none;
  timeout = 30000;
  redirect_policy = policy;
  scope_validator = record {
    allow_list = codes "a.com" ∷ codes "b.com" ∷ [];
    deny_list = [];
    default_deny = true;
  };
  has_signal = false;
  retry = some default_retry;
  has_cache = true;
  has_limiter = false;
  cookie_jar = none;
  cert_pinning = none;
  proxy = environment;
  allow_private_addresses = false;
  has_progress = false;
}

-- A redirect from the first URL to the second, which answers with a cookie.
abbrev pub answer : List Outbound → Outbound → Reply
answer before out =
    if str_eq out.target home.text
    then received (record {
      status = 302;
      headers = (codes "location", some moved.text) ∷ [];
      body = [];
      url = home.text;
    })
    else received (record {
      status = 200;
      headers = (codes "set-cookie", some (codes "c")) ∷ (codes "x-a", some (codes "b")) ∷ [];
      body = 1 ∷ 2 ∷ [];
      url = out.target;
    })

abbrev pub env : Env
env = record {
  exchange = answer;
  duration = λ out. 5;
  lookup_host = λ before name. answered (public_address ∷ []);
  on_progress = λ before done total. true;
  next_backoff = λ settings before. some 100;
  dropped = λ w. false;
  limiter_closed = λ w. false;
  variable = variable;
  rustls_tls = true;
  webpki_error = none;
  client_error = λ config. none;
  order = in_order;
}

abbrev pub start : World
start = record {
  sent = [];
  resolved = [];
  slept = [];
  progressed = [];
  cache = record { config = default_config; entries = [] };
  now = 0;
}
