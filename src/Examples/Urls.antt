-- ===== src/Examples/Urls.antt =====
-- The theorems about URLs and addresses, applied to concrete ones.
use beanstream.Prelude.{◌≡◌, refl, ◌↔◌, true, false, ◌||◌, none, some, [], ◌∷◌, arith, ◌==◌}
use beanstream.Text.{
  trim, trim_start_matches, trim_end_matches, is_whitespace, codes, utf8, utf8_char,
  is_ascii_alphanumeric, contains, to_ascii_lowercase, starts_with, lower_char, is_ascii_upper,
  strip_prefix, byte_len, split, ends_with, str_eq, strip_suffix,
}
use beanstream.Error.{ok}
use beanstream.Crates.{UrlHost}
use beanstream.Net.{IpAddr, v4, v6, IsIp}
use beanstream.UrlValidation.Ip.{is_blocked_ip, is_private_or_loopback, ipv4_in_network}
use beanstream.UrlValidation.Ip.Blocked.{IsReserved, is_blocked_ip_iff}
use beanstream.UrlValidation.Domain.Names.{IsPublicName, validate_domain_iff}
use beanstream.UrlValidation.Resolve.{
  answered, resolve_host, refuse_blocked, validate_ip_access_async,
}
use beanstream.UrlValidation.Validate.Safe.{IsSafe}
use beanstream.UrlValidation.Validate.Accepted.{validate_url_iff}
use beanstream.ProxyConfig.{Proxy, all_traffic, select_proxy, first_of}
use beanstream.UrlValidation.Path.{
  raw_path, after_separator, drop_until, take_until, path_has_dangerous_sequence,
  contains_dangerous_sequences, decode_percent_encoded, decode_rounds, decode_round,
  candidate_is_dangerous, validate_raw_url_path, validate_path,
}
use beanstream.UrlValidation.Domain.{
  validate_domain, validate_labels, validate_label, is_local_name, is_label_char,
}
use beanstream.UrlValidation.Validate.{
  validate_url, parse_url, parse_scheme, validate_port, validate_host,
}
use beanstream.Examples.{crates, net_laws, variable, request, home}

home-raw_path : raw_path home.text ≡ some (codes "/x")
unfolding raw_path after_separator drop_until take_until strip_prefix
home-raw_path = refl

home-decoded : decode_percent_encoded (codes "/x") ≡ codes "/x"
unfolding decode_percent_encoded decode_rounds decode_round utf8 utf8_char
home-decoded = refl

home-path_safe : path_has_dangerous_sequence (codes "/x") ≡ false
unfolding path_has_dangerous_sequence candidate_is_dangerous contains to_ascii_lowercase lower_char
    is_ascii_upper starts_with strip_prefix
home-path_safe = rw home-decoded refl

home-labels : validate_labels (split b'.' home.name) ≡ ok tt
unfolding validate_labels validate_label is_label_char split byte_len starts_with ends_with
    strip_prefix strip_suffix utf8_char is_ascii_alphanumeric
home-labels = refl

home-domain : validate_domain home.name ≡ ok tt
unfolding validate_domain byte_len utf8_char is_local_name str_eq ends_with strip_suffix
    strip_prefix to_ascii_lowercase lower_char is_ascii_upper starts_with
home-domain = rw home-labels refl

home-raw : validate_raw_url_path home.text ≡ ok tt
unfolding validate_raw_url_path
home-raw = ground (arith, home-raw_path, home-path_safe)

home-path : validate_path (record { text = home.path }) ≡ ok tt
unfolding validate_path contains_dangerous_sequences
home-path = rw home-path_safe refl

home-host :
    validate_host crates (some (UrlHost.domain home.name))
    ≡ ok (record { host = home.name; ip_addr = none })
unfolding validate_host
home-host = rw home-domain refl

pub request-valid : validate_url crates request.url ≡ ok request.parsed_url
unfolding validate_url parse_url str_eq parse_scheme to_ascii_lowercase lower_char is_ascii_upper
    validate_port
request-valid = rw (home-raw, home-path, home-host) refl

validate_url_iff_example :
    (validate_url crates request.url ≡ ok request.parsed_url)
    ↔ IsSafe crates request.url request.parsed_url
validate_url_iff_example = validate_url_iff crates request.url request.parsed_url

-- 192.168.0.1 embedded in an IPv6 address
abbrev mapped : IpAddr
mapped = v6 (record { s0 = 0; s1 = 0; s2 = 0; s3 = 0; s4 = 0; s5 = 0xffff; s6 = 0xc0a8; s7 = 1 })

mapped-IsIp : IsIp mapped
mapped-IsIp = record {
  s0_lt = omega arith;
  s1_lt = omega arith;
  s2_lt = omega arith;
  s3_lt = omega arith;
  s4_lt = omega arith;
  s5_lt = omega arith;
  s6_lt = omega arith;
  s7_lt = omega arith;
}

is_blocked_ip_iff_example : (is_blocked_ip crates mapped ≡ true) ↔ IsReserved mapped
is_blocked_ip_iff_example = is_blocked_ip_iff crates net_laws mapped mapped-IsIp

validate_domain_iff_example :
    (validate_domain (codes "a.com") ≡ ok tt) ↔ IsPublicName (codes "a.com")
validate_domain_iff_example = validate_domain_iff (codes "a.com")

rest-skipped : take_until (λ c. c == b'?' || c == b'#') (codes "?q#f") ≡ []
unfolding take_until
rest-skipped = refl

abbrev other_address : IpAddr
other_address = v4 (record { a = 8; b = 8; c = 8; d = 8 })

selected : (select_proxy variable).0 ≡ some (codes "http://p:1")
unfolding select_proxy first_of str_eq trim trim_start_matches trim_end_matches is_whitespace
selected = refl

open_found :
    validate_ip_access_async crates (codes "a.com") (answered (other_address ∷ []))
    ≡ ok (other_address ∷ [])
unfolding validate_ip_access_async resolve_host refuse_blocked is_blocked_ip is_private_or_loopback
    ipv4_in_network
open_found = refl

abbrev chosen : Proxy
chosen = record {
  rule = all_traffic;
  target = codes "http://p:1";
  basic_auth = none;
  bypass = none;
}
