-- ===== src/Cache.antt =====
-- cache.rs: the in-process response cache.
-- The `DashMap` is an association list with distinct keys. The order in which the map is iterated
-- is `order`, a parameter. Times are in nanoseconds; `now` is what `Instant::now()` returns.
pub mod Entries
pub mod Laws
pub mod MaxAge
use beanstream.Prelude.{
  ℕ, zero, suc, ◌+◌, ◌-◌, ◌*◌, ◌/◌, ◌%◌, ◌^◌, ◌≤◌, ◌<◌, min, max, code, String, ◌≡◌, refl, sym, ap,
  subst, ◌∙◌, ◌≢◌, ◌↔◌, ◌⊎◌, inl, inr, Bool, true, false, not, ◌&&◌, ◌||◌, Option, none, some, List,
  [], ◌∷◌, ◌++◌, map, reverse, arith, ltb, leb, ◌==◌, if◌then◌else◌, between, ==_iff, Bool-cases,
  Option-cases, length, any, all, find, keep, length-append, any-append, all-append, All, all_iff,
  All-keep, keep_of_All, keep_idempotent, All-append, All-map,
}
use beanstream.Text.{
  Str, codes, to_ascii_lowercase, to_ascii_uppercase, eq_ignore_ascii_case, contains, ends_with,
}
use beanstream.HeaderValidation.{Header}
use beanstream.Response.{HttpResponse}
use beanstream.Cache.Entries.{Table, get, remove, insert, first_key}
use beanstream.Cache.MaxAge.{parse_max_age}

pub record CacheConfig : Type 0 where
  pub default_ttl : ℕ
  pub use_etags : Bool
  pub use_cache_control : Bool
  pub max_size : ℕ

abbrev pub seconds : ℕ → ℕ
seconds n = n * 1000000000

abbrev pub default_config : CacheConfig
default_config = record {
  default_ttl = seconds 300;
  use_etags = true;
  use_cache_control = true;
  max_size = 10000;
}

pub record CacheEntry : Type 0 where
  pub response : HttpResponse
  pub stored_at : ℕ
  pub ttl : ℕ
  pub etag : Option Str

-- `stored_at.elapsed() >= ttl`, where `elapsed` is 0 if the clock went back
unfoldable pub is_expired : ℕ → CacheEntry → Bool
is_expired now entry = leb entry.ttl (now - entry.stored_at)

pub record InMemoryCache : Type 0 where
  pub config : CacheConfig
  pub entries : Table CacheEntry

unfoldable pub new : CacheConfig → InMemoryCache
new config = record { config = config; entries = [] }

unfoldable pub cache_key : Str → Str → Str
cache_key method url = to_ascii_uppercase method ++ b' ' ∷ url

-- The response, and the cache, which loses an entry that has expired.
unfoldable pub get_response : ℕ → Str → Str → InMemoryCache → Option HttpResponse × InMemoryCache
get_response now method url cache =
    let key = cache_key method url in
    elim (get key cache.entries) [
      | none ↦ (none, cache)
      | some entry ↦
          if is_expired now entry
          then (none, record cache { entries = remove key cache.entries })
          else (some entry.response, cache)
    ]

unfoldable pub get_etag : Str → Str → InMemoryCache → Option Str
get_etag method url cache =
    if not cache.config.use_etags
    then none
    else elim (get (cache_key method url) cache.entries) [ none ↦ none | some e ↦ e.etag ]

-- `iter().find(|(k, _)| k.eq_ignore_ascii_case(name)).map(|(_, v)| v)`
unfoldable pub header_value : Str → List Header → Option Str
header_value name headers = elim (find (λ h. eq_ignore_ascii_case h.0 name) headers) [
  | none ↦ none
  | some h ↦ some h.1
]

unfoldable pub resolve_cache_control : ℕ → Str → ℕ
resolve_cache_control default_ttl value =
    let lower = to_ascii_lowercase value in
    if contains (codes "no-store") lower || contains (codes "no-cache") lower
    then 0
    else elim (parse_max_age lower) [ some s ↦ seconds s | none ↦ default_ttl ]

unfoldable pub resolve_ttl : CacheConfig → HttpResponse → ℕ
unfolding resolve_cache_control header_value
resolve_ttl config response =
    if config.use_cache_control
    then elim (header_value (codes "cache-control") response.headers) [
      | some value ↦ resolve_cache_control config.default_ttl value
      | none ↦ config.default_ttl
    ]
    else config.default_ttl

module _ (order : Table CacheEntry → Table CacheEntry) where
  -- An expired entry if there is one, else the first in the order of iteration.
  unfoldable pub victim : ℕ → Table CacheEntry → Option Str
  victim now entries = elim (find (λ e. is_expired now e.1) (order entries)) [
    | some e ↦ some e.0
    | none ↦ first_key (order entries)
  ]

  unfoldable pub evict_one : ℕ → InMemoryCache → InMemoryCache
  unfolding victim
  evict_one now cache = elim (victim now cache.entries) [
    | none ↦ cache
    | some key ↦ record cache { entries = remove key cache.entries }
  ]

  unfoldable pub insert_response : ℕ → Str → HttpResponse → InMemoryCache → InMemoryCache
  insert_response now method response cache =
      let ttl = resolve_ttl cache.config response in
      let etag : Option Str =
        if cache.config.use_etags then header_value (codes "etag") response.headers else none in
      let room =
        if leb cache.config.max_size (length cache.entries) then evict_one now cache else cache in
      if ttl == 0 then cache else record room {
        entries =
            insert (cache_key method response.url)
              (record { response = response; stored_at = now; ttl = ttl; etag = etag })
              room.entries;
      }

unfoldable pub invalidate : Str → Str → InMemoryCache → InMemoryCache
invalidate method url cache = record cache { entries = remove (cache_key method url) cache.entries }

-- The keys that end in `" <url>"` are removed.
unfoldable pub invalidate_url : Str → InMemoryCache → InMemoryCache
invalidate_url url cache = record cache {
  entries = keep (λ e. not (ends_with (b' ' ∷ url) e.0)) cache.entries;
}

unfoldable pub clear : InMemoryCache → InMemoryCache
clear cache = record cache { entries = [] }

unfoldable pub is_empty : InMemoryCache → Bool
is_empty cache = elim cache.entries [ [] ↦ true | entry ∷ entries ↦ false ]

unfoldable pub len : InMemoryCache → ℕ
len cache = length cache.entries
