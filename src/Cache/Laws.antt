-- ===== src/Cache/Laws.antt =====
-- Reads, writes, expiry and the size of the cache.
use beanstream.Prelude.{
  ℕ, ◌-◌, ◌≤◌, ◌<◌, ◌≡◌, inl, inr, Bool, none, some, [], arith, Option-cases, length, find,
}
use beanstream.Text.{Str}
use beanstream.Text.Laws.{str_eq_refl}
use beanstream.Response.{HttpResponse}
use beanstream.Cache.Entries.{
  Table, get, insert, first_key, get-remove, length-remove, length-remove_present,
}
use beanstream.Cache.{
  CacheEntry, is_expired, InMemoryCache, cache_key, get_response, get_etag, resolve_ttl, victim,
  evict_one, insert_response,
}

-- A read never returns a response past its lifetime: what it returns is stored under its key and
-- younger than its lifetime, and the cache is left as it was.
get_response-fresh :
    (now : ℕ) (method url : Str) (cache : InMemoryCache) (r : HttpResponse)
    → (get_response now method url cache).0 ≡ some r
    → (e : CacheEntry) × (get (cache_key method url) cache.entries ≡ some e)
      × (e.response ≡ r)
      × (now - e.stored_at < e.ttl)
      × ((get_response now method url cache).1 ≡ cache)
unfolding get_response is_expired
get_response-fresh now method url cache r h =
    elim (Option-cases (get (cache_key method url) cache.entries)) [
      | inl n ↦ absurd (ground arith)
      | inr (e, found) ↦ (e, found, ground arith, ground arith, ground arith)
    ]

-- After a miss the key is absent, so the validator for a conditional request is absent too.
pub get_etag-miss :
    (now : ℕ) (method url : Str) (cache : InMemoryCache)
    → (get_response now method url cache).0 ≡ none
    → get_etag method url (get_response now method url cache).1 ≡ none
unfolding get_response get_etag
get_etag-miss now method url cache h =
    let key = cache_key method url in
    ground (arith, get-remove key key cache.entries, str_eq_refl key)

-- The order of iteration of a map lists its entries and nothing else.
pub record IsOrder (order : Table CacheEntry → Table CacheEntry) : Type 0 where
  pub key_found :
      (t : Table CacheEntry) (k : Str)
      → first_key (order t) ≡ some k
      → (v : CacheEntry) × (get k t ≡ some v)
  pub entry_found :
      (t : Table CacheEntry) (p : Str × CacheEntry → Bool) (e : Str × CacheEntry)
      → find p (order t) ≡ some e
      → (v : CacheEntry) × (get e.0 t ≡ some v)
  pub all_listed : (t : Table CacheEntry) → first_key (order t) ≡ none → t ≡ []

module _ (order : Table CacheEntry → Table CacheEntry) (laws : IsOrder order) where
  victim_present :
      (now : ℕ) (t : Table CacheEntry) (k : Str)
      → victim order now t ≡ some k
      → (v : CacheEntry) × (get k t ≡ some v)
  unfolding victim
  victim_present now t k h = elim (Option-cases (find (λ e. is_expired now e.1) (order t))) [
    | inl n ↦ laws.key_found t k (ground arith)
    | inr (e, found) ↦
        let (v, g) = laws.entry_found t (λ e. is_expired now e.1) e found in (v, ground arith)
  ]

  victim_absent : (now : ℕ) (t : Table CacheEntry) → victim order now t ≡ none → t ≡ []
  unfolding victim
  victim_absent now t h = laws.all_listed t (ground arith)

  -- Eviction makes room in a cache that holds something.
  length-evict_one :
      (now : ℕ) (cache : InMemoryCache)
      → length (evict_one order now cache).entries ≤ length cache.entries - 1
  unfolding evict_one
  length-evict_one now cache = elim (Option-cases (victim order now cache.entries)) [
    | inl n ↦ ground (arith, victim_absent now cache.entries n)
    | inr (k, found) ↦
        let (v, g) = victim_present now cache.entries k found in
        ground (arith, length-remove_present k v cache.entries g)
  ]

  -- Where the map iterates over its entries and the limit is not 0, a cache within its limit is
  -- within it after an insertion.
  pub length-insert_response :
      (now : ℕ) (method : Str) (r : HttpResponse) (cache : InMemoryCache)
      → 0 < cache.config.max_size
      → length cache.entries ≤ cache.config.max_size
      → length (insert_response order now method r cache).entries ≤ cache.config.max_size
  unfolding insert_response insert
  length-insert_response now method r cache p h = ground (
    arith,
    length-evict_one now cache,
    length-remove (cache_key method r.url) cache.entries,
    length-remove (cache_key method r.url) (evict_one order now cache).entries,
  )

module _ (order : Table CacheEntry → Table CacheEntry) where
  -- A response with a lifetime that is not zero is returned for its method and URL, after it has been
  -- stored and before that lifetime has passed.
  pub get_response-insert_response :
      (now later : ℕ) (method : Str) (r : HttpResponse) (cache : InMemoryCache)
      → 0 < resolve_ttl cache.config r
      → later - now < resolve_ttl cache.config r
      → (get_response later method r.url (insert_response order now method r cache)).0 ≡ some r
  unfolding insert_response get_response is_expired get insert
  get_response-insert_response now later method r cache p h =
      ground (arith, str_eq_refl (cache_key method r.url))

  -- A response whose lifetime is zero is not stored: no entry is written and none is evicted.
  insert_response-zero :
      (now : ℕ) (method : Str) (r : HttpResponse) (cache : InMemoryCache)
      → resolve_ttl cache.config r ≡ 0
      → insert_response order now method r cache ≡ cache
  unfolding insert_response
  insert_response-zero now method r cache h = ground arith
