-- ===== src/Cookies.antt =====
-- cookies.rs. The cookie store of `reqwest` is shared by reference and stands as its number.
use beanstream.Prelude.{ℕ, Bool, true, false, Option, none, some}

pub record CookieJar : Type 0 where
  pub inner : Option ℕ

unfoldable pub empty_jar : CookieJar
empty_jar = record { inner = none }

-- `CookieJar::enabled`, where `store` is the number of the store that it makes
unfoldable pub enabled : ℕ → CookieJar
enabled store = record { inner = some store }

unfoldable pub is_enabled : CookieJar → Bool
is_enabled jar = elim jar.inner [ none ↦ false | some store ↦ true ]

unfoldable pub provider : CookieJar → Option ℕ
provider jar = jar.inner

-- The store for `cookie_provider`, where there is a jar and it is enabled
unfoldable pub cookie_store : Option CookieJar → Option ℕ
unfolding provider
cookie_store none = none
cookie_store (some jar) = provider jar
