-- ===== src/Request/Built.antt =====
-- What the constructors of a request establish.
use beanstream.Prelude.{◌≡◌, refl, false, List, [], ◌∷◌, ◌++◌, arith}
use beanstream.Text.{Str}
use beanstream.Error.{ok, >>=-eq-ok, refuse_if, refuse_if-eq-ok}
use beanstream.Crates.{Crates}
use beanstream.HeaderValidation.{Header, is_blocked_header, sanitize_header}
use beanstream.UrlValidation.Validate.{validate_url}
use beanstream.ProxyConfig.{ProxyCrate}
use beanstream.Request.{Method, HttpRequest, new, add_header, add_headers, refuse_forbidden}

module _ (crates : Crates) (proxies : ProxyCrate crates) where
  -- The URL is validated, private addresses are refused, and no header is a forbidden one.
  pub record IsWellFormed (request : HttpRequest crates proxies) : Type 0 where
    pub validated : validate_url crates request.url ≡ ok request.parsed_url
    pub public_only : request.allow_private_addresses ≡ false
    pub no_forbidden : refuse_forbidden crates proxies request.headers ≡ ok tt

  -- A request that `new` builds has the URL that was validated, refuses private addresses and has
  -- no forbidden header.
  pub new-IsWellFormed :
      (method : Method) (url : Str) (request : HttpRequest crates proxies)
      → new crates proxies method url ≡ ok request
      → IsWellFormed request
  unfolding new refuse_forbidden
  new-IsWellFormed method url request h =
      let (p, valid, h1) = >>=-eq-ok (validate_url crates url) _ h in
      let parsed : request.parsed_url ≡ p = cc in
      let text : request.url ≡ url = cc in
      let headers : request.headers ≡ [] = cc in
      let private : request.allow_private_addresses ≡ false = cc in
      record { validated = cc; public_only = private; no_forbidden = rw headers refl }

  pub refuse_forbidden-append :
      (headers : List Header) (h : Header)
      → refuse_forbidden crates proxies headers ≡ ok tt
      → is_blocked_header h.0 ≡ false
      → refuse_forbidden crates proxies (headers ++ h ∷ []) ≡ ok tt
  unfolding refuse_forbidden
  refuse_forbidden-append [] h k e = ground arith
  refuse_forbidden-append ((name, value) ∷ headers) h k e =
      let ih = refuse_forbidden-append headers h (ground arith) e in ground arith

  add_header-IsWellFormed :
      (name value : Str) (request extended : HttpRequest crates proxies)
      → add_header crates proxies name value request ≡ ok extended
      → IsWellFormed request
      → IsWellFormed extended
  unfolding add_header
  add_header-IsWellFormed name value request extended h w =
      let (header, _, h1) = >>=-eq-ok (sanitize_header crates name value) _ h in
      let (_, e, h2) = >>=-eq-ok (refuse_if (is_blocked_header header.0) _) _ h1 in
      let same : extended ≡ (record request { headers = request.headers ++ header ∷ [] }) = cc in
      rw same (record {
        validated = w.validated;
        public_only = w.public_only;
        no_forbidden =
            refuse_forbidden-append request.headers header w.no_forbidden (refuse_if-eq-ok _ _ e);
      })

  -- Where adding headers succeeds on a request with a validated URL, private addresses refused and
  -- no forbidden header, the extended request has these properties too.
  pub add_headers-IsWellFormed :
      (headers : List Header) (request extended : HttpRequest crates proxies)
      → add_headers crates proxies headers request ≡ ok extended
      → IsWellFormed request
      → IsWellFormed extended
  unfolding add_headers
  add_headers-IsWellFormed [] request extended h w = let same : extended ≡ request = cc in rw same w
  add_headers-IsWellFormed ((name, value) ∷ headers) request extended h w =
      let (next, e, h1) = >>=-eq-ok (add_header crates proxies name value request) _ h in
      add_headers-IsWellFormed headers next extended h1
        (add_header-IsWellFormed name value request next e w)
