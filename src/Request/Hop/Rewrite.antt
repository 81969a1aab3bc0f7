-- ===== src/Request/Hop/Rewrite.antt =====
-- What a redirect hop carries over from the request before it.
use beanstream.Prelude.{
  ℕ, ◌≡◌, ◌↔◌, ◌⊎◌, true, false, not, Option, none, List, arith, All, All-keep, All-map,
}
use beanstream.Text.{Str}
use beanstream.Crates.{Crates}
use beanstream.HeaderValidation.{Header, is_sensitive_header}
use beanstream.ProxyConfig.{ProxyCrate}
use beanstream.Request.{Method, get, post, put, delete, patch, head, other, is_post, HttpRequest}
use beanstream.Request.Hop.{rewrite_to_get, strip_sensitive, rewrite_hop}

module _ (crates : Crates) (proxies : ProxyCrate crates)
    (request : HttpRequest crates proxies) where
  open crates use {Url, same_origin}

  rewrite_to_get_iff :
      (status : ℕ) (method : Method)
      → (rewrite_to_get status method ≡ true)
        ↔ ((status ≡ 303) ⊎ (((status ≡ 301) ⊎ (status ≡ 302)) × (method ≡ post)))
  unfolding rewrite_to_get is_post
  rewrite_to_get_iff status get = ground arith
  rewrite_to_get_iff status post = ground arith
  rewrite_to_get_iff status put = ground arith
  rewrite_to_get_iff status delete = ground arith
  rewrite_to_get_iff status patch = ground arith
  rewrite_to_get_iff status head = ground arith
  rewrite_to_get_iff status (other name) = ground arith

  -- A hop to another origin carries no sensitive header and no body, whatever the status and the
  -- method are.
  pub rewrite_hop-cross_origin :
      (current next : Url) (status : ℕ) (method : Method) (headers : List Header)
      (body : Option Str)
      → same_origin current next ≡ false
      → let hop = rewrite_hop crates proxies request current next status method headers body in
        All (λ h. is_sensitive_header h.0 ≡ false) hop.headers × (hop.body ≡ none)
  unfolding rewrite_hop strip_sensitive
  rewrite_hop-cross_origin current next status method headers body e =
      let kept =
        All-map _ (λ h. is_sensitive_header h.0 ≡ false) _ (λ h k. ground arith)
          (All-keep (λ h. not (is_sensitive_header h.0)) headers) in
      (rw e kept, ground arith)

  -- A hop within the origin carries every header.
  rewrite_hop-same_origin :
      (current next : Url) (status : ℕ) (method : Method) (headers : List Header)
      (body : Option Str)
      → same_origin current next ≡ true
      → (rewrite_hop crates proxies request current next status method headers body).headers
        ≡ headers
  unfolding rewrite_hop
  rewrite_hop-same_origin current next status method headers body e = ground arith

  -- A 303, or a 301 or a 302 that answers a POST, makes the hop a GET without a body.
  rewrite_hop-get :
      (current next : Url) (status : ℕ) (method : Method) (headers : List Header)
      (body : Option Str)
      → (status ≡ 303) ⊎ (((status ≡ 301) ⊎ (status ≡ 302)) × (method ≡ post))
      → let hop = rewrite_hop crates proxies request current next status method headers body in
        (hop.method ≡ get) × (hop.body ≡ none)
  unfolding rewrite_hop
  rewrite_hop-get current next status method headers body e =
      let rewritten = (rewrite_to_get_iff status method).1 e in ground arith

  -- A 307 or a 308 within the origin repeats the request: its method, its headers and its body.
  rewrite_hop-repeated :
      (current next : Url) (status : ℕ) (method : Method) (headers : List Header)
      (body : Option Str)
      → same_origin current next ≡ true
      → (status ≡ 307) ⊎ (status ≡ 308)
      → let hop = rewrite_hop crates proxies request current next status method headers body in
        (hop.method ≡ method) × (hop.headers ≡ headers) × (hop.body ≡ body)
  unfolding rewrite_hop rewrite_to_get
  rewrite_hop-repeated current next status method headers body e s = ground arith
