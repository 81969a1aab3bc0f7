-- ===== src/Crates.antt =====
-- What the source calls from third-party crates: `url`, `ipnet` and `http` (through `reqwest`).
-- `Crates` holds the functions, and `IpNetLaws` what the documentation of `ipnet` says.
use beanstream.Prelude.{ℕ, ◌-◌, ◌/◌, ◌^◌, ◌≤◌, ◌≡◌, Bool, Option, some, ◌==◌}
use beanstream.Text.{Str}
use beanstream.Net.{Ipv4Addr, Ipv6Addr, to_bits}

-- `url::Host`
pub data UrlHost : Type 0 where
  domain : Str → UrlHost
  host_v4 : Ipv4Addr → UrlHost
  host_v6 : Ipv6Addr → UrlHost

-- `Result<Url, url::ParseError>`, the error as its text.
pub data Parsed (U : Type 0) : Type 0 where
  parsed : U → Parsed U
  parse_error : Str → Parsed U

pub record Crates : Type 1 where
  -- url: the parsed URL, its parts, its serialisation, `==`, and `==` of the origins.
  pub Url : Type 0
  pub parse : Str → Parsed Url
  pub scheme : Url → Str
  pub username : Url → Str
  pub password : Url → Option Str
  pub port : Url → Option ℕ
  pub path : Url → Str
  pub host : Url → Option UrlHost
  pub host_str : Url → Option Str
  pub as_str : Url → Str
  pub join : Url → Str → Option Url
  -- the error of `join`, where it fails
  pub join_error : Url → Str → Str
  pub url_eq : Url → Url → Bool
  pub same_origin : Url → Url → Bool
  -- ipnet
  pub Ipv4Net : Type 0
  pub new_net : Ipv4Addr → ℕ → Option Ipv4Net
  pub net_contains : Ipv4Net → Ipv4Addr → Bool
  -- http: whether `HeaderName::from_bytes` and `HeaderValue::from_str` accept a text.
  pub header_name_ok : Str → Bool
  pub header_value_ok : Str → Bool

-- `Ipv4Net::new` accepts a prefix of at most 32 bits, and the network contains the addresses that
-- share those bits.
pub record IpNetLaws (crates : Crates) : Type 0 where
  pub net : Ipv4Addr → ℕ → crates.Ipv4Net
  pub new_net-eq :
      (x : Ipv4Addr) (prefix : ℕ) → prefix ≤ 32 → crates.new_net x prefix ≡ some (net x prefix)
  pub net_contains-eq :
      (x y : Ipv4Addr) (prefix : ℕ)
      → prefix ≤ 32
      → crates.net_contains (net x prefix) y
        ≡ (to_bits y / 2 ^ (32 - prefix) == to_bits x / 2 ^ (32 - prefix))
