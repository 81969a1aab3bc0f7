-- ===== src/Examples/Stores.antt =====
-- The theorems about the cache, applied to a small one.
use beanstream.Prelude.{◌≤◌, ◌≡◌, refl, none, some, [], ◌∷◌, arith, length}
use beanstream.Text.{Str, codes}
use beanstream.Response.{HttpResponse}
use beanstream.Cache.Entries.{get}
use beanstream.Cache.{
  CacheEntry, InMemoryCache, default_config, get_response, get_etag, insert_response, resolve_ttl,
  cache_key, is_expired,
}
use beanstream.Cache.Laws.{get_etag-miss, length-insert_response, get_response-insert_response}
use beanstream.Examples.{in_order, in_order-IsOrder, home, moved}

abbrev page : HttpResponse
page = record { status = 200; headers = []; body = 1 ∷ []; url = home.text }

abbrev entry : CacheEntry
entry = record { response = page; stored_at = 0; ttl = 10; etag = some (codes "e") }

-- A full cache of one entry
abbrev full : InMemoryCache
full = record {
  config = record default_config { max_size = 1 };
  entries = (codes "GET https://a.com/x", entry) ∷ [];
}

hit : (get_response 5 (codes "GET") home.text full).0 ≡ some page
unfolding get_response is_expired get beanstream.Text.str_eq cache_key
    beanstream.Text.to_ascii_uppercase beanstream.Text.upper_char
hit = refl

miss : (get_response 10 (codes "GET") home.text full).0 ≡ none
unfolding get_response is_expired get beanstream.Text.str_eq cache_key
    beanstream.Text.to_ascii_uppercase beanstream.Text.upper_char
miss = refl

get_etag-miss_example :
    get_etag (codes "GET") home.text (get_response 10 (codes "GET") home.text full).1 ≡ none
get_etag-miss_example = get_etag-miss 10 (codes "GET") home.text full miss

abbrev other_page : HttpResponse
other_page = record page { url = moved.text }

length-insert_response_example :
    length (insert_response in_order 5 (codes "GET") other_page full).entries ≤ 1
length-insert_response_example =
    length-insert_response in_order in_order-IsOrder 5 (codes "GET") other_page full (omega arith)
      (omega arith)

lifetime : resolve_ttl full.config other_page ≡ 300000000000
unfolding resolve_ttl
lifetime = refl

get_response-insert_response_example :
    (get_response 6
      (codes "GET")
      moved.text
      (insert_response in_order 5 (codes "GET") other_page full)).0
    ≡ some other_page
get_response-insert_response_example =
    get_response-insert_response in_order 5 6 (codes "GET") other_page full
      (omega (arith, lifetime)) (omega (arith, lifetime))
