-- ===== src/UrlValidation/Validate/Accepted.antt =====
-- Which URLs `validate_url` accepts.
use beanstream.Prelude.{◌≡◌, refl, sym, ◌↔◌, inl, inr, false, some, Option-cases}
use beanstream.Text.{Str, to_ascii_lowercase, str_eq}
use beanstream.Error.{ok}
use beanstream.Crates.{Crates, parsed}
use beanstream.UrlValidation.Path.{
  contains_dangerous_sequences, validate_path, raw_path, path_has_dangerous_sequence,
  validate_raw_url_path,
}
use beanstream.UrlValidation.Validate.{
  Scheme, parse_scheme, scheme_as_str, ParsedUrl, http, https, parse_url, validate_url,
}
use beanstream.UrlValidation.Validate.Safe.{
  IsSafe, validate_url-IsSafe, validate_host_iff, validate_port_iff,
}

parse_scheme-known :
    (value : Str) (s : Scheme)
    → to_ascii_lowercase value ≡ scheme_as_str s
    → parse_scheme value ≡ some s
unfolding parse_scheme scheme_as_str str_eq
parse_scheme-known value http e = rw (parse_scheme, e) refl
parse_scheme-known value https e = rw (parse_scheme, e) refl

safe-raw_path :
    (text : Str)
    → ((raw : Str) → raw_path text ≡ some raw → path_has_dangerous_sequence raw ≡ false)
    → validate_raw_url_path text ≡ ok tt
unfolding validate_raw_url_path
safe-raw_path text h = elim (Option-cases (raw_path text)) [
  | inl e ↦ rw (validate_raw_url_path, e) refl
  | inr (raw, e) ↦ rw (validate_raw_url_path, e, h raw e) refl
]

safe-validate_path :
    (path : Str)
    → path_has_dangerous_sequence path ≡ false
    → validate_path (record { text = path }) ≡ ok tt
unfolding validate_path contains_dangerous_sequences
safe-validate_path path e = rw e refl

module _ (crates : Crates) where
  open crates use {Url, parse, scheme, username, password, path, host}

  parses-parse_url : (text : Str) (u : Url) → parse text ≡ parsed u → parse_url crates text ≡ ok u
  unfolding parse_url
  parses-parse_url text u e = rw (parse_url, e) refl

  IsSafe-validate_url :
      (text : Str) (p : ParsedUrl) → IsSafe crates text p → validate_url crates text ≡ ok p
  unfolding validate_url
  IsSafe-validate_url text p h =
      let u = parses-parse_url text h.url h.parses in
      let raw_ok = safe-raw_path text h.safe_raw_path in
      let known = parse_scheme-known (scheme h.url) p.scheme h.web_scheme in
      let port_fine = (validate_port_iff crates h.url p.port).1 h.port_ok in
      let host_fine = (validate_host_iff crates (host h.url) p.host).1 h.allowed_host in
      let path_fine = safe-validate_path (path h.url) h.safe_path in
      rw (raw_ok, u, known, h.no_username, h.no_password, port_fine, path_fine, host_fine)
        λ i. ok (record {
          scheme = p.scheme;
          host = p.host;
          port = p.port;
          path = record { text = sym h.own_path i };
          original_url = sym h.own_text i;
        })

  -- A URL is accepted exactly when it parses, has the scheme `http` or `https`, no user, no
  -- password and no port 0; no dangerous sequence is in its parsed path or in its raw path, before
  -- or after decoding; and its host is a public name or an address that is not blocked. The result
  -- has that scheme, the port (the one written, or the scheme's own), that host with its address,
  -- the parsed path and the text.
  pub validate_url_iff :
      (text : Str) (p : ParsedUrl) → (validate_url crates text ≡ ok p) ↔ IsSafe crates text p
  validate_url_iff text p = (validate_url-IsSafe crates text p, IsSafe-validate_url text p)
