-- ===== src/ProxyConfig/Routes.antt =====
-- Where a proxy comes from, and what it is told.
use beanstream.Prelude.{
  ◌≡◌, ◌⊎◌, inl, inr, false, Option, none, some, arith, Bool-cases, Option-cases,
}
use beanstream.Text.{Str, codes}
use beanstream.Crates.{Crates}
use beanstream.ProxyConfig.{
  all_traffic, Proxy, first_of, is_blank, select_proxy, ProxyCrate, ProxyConfig, system,
  environment, disabled, explicit, redacted_url, credentials,
}

module _ (get : Str → Option Str) where
  -- The value of a variable in one of its two spellings, which is not blank.
  abbrev pub IsValueOf : Str → Str → Str → Type 0
  IsValueOf upper lower value =
      (is_blank value ≡ false)
      × ((get upper ≡ some value) ⊎ ((get upper ≡ none) × (get lower ≡ some value)))

  first_of-IsValueOf :
      (upper lower value : Str)
      → first_of get upper lower ≡ some value
      → IsValueOf upper lower value
  unfolding first_of
  first_of-IsValueOf upper lower value h = elim (Option-cases (get upper)) [
    | inl n ↦ elim (Option-cases (get lower)) [
      | inl m ↦ absurd (ground arith)
      | inr (v, e) ↦ elim (Bool-cases (is_blank v)) [
        | inl b ↦ absurd (ground arith)
        | inr b ↦ let same : value ≡ v = ground arith in rw same (b, inr (n, e))
      ]
    ]
    | inr (v, e) ↦ elim (Bool-cases (is_blank v)) [
      | inl b ↦ absurd (ground arith)
      | inr b ↦ let same : value ≡ v = ground arith in rw same (b, inl e)
    ]
  ]

  -- The proxy taken from the environment is the value of a variable that is not blank, in the upper
  -- case or, only where that one is unset, in the lower case. A variable counts only when those
  -- before it, in the order `ALL_PROXY`, `HTTPS_PROXY`, `HTTP_PROXY`, give nothing.
  select_proxy-source :
      (value : Str)
      → (select_proxy get).0 ≡ some value
      → IsValueOf (codes "ALL_PROXY") (codes "all_proxy") value
        ⊎ ((first_of get (codes "ALL_PROXY") (codes "all_proxy") ≡ none)
            × (IsValueOf (codes "HTTPS_PROXY") (codes "https_proxy") value
                ⊎ ((first_of get (codes "HTTPS_PROXY") (codes "https_proxy") ≡ none)
                    × IsValueOf (codes "HTTP_PROXY") (codes "http_proxy") value)))
  unfolding select_proxy
  select_proxy-source value h =
      elim (Option-cases (first_of get (codes "ALL_PROXY") (codes "all_proxy"))) [
        | inr (v, e) ↦ inl (first_of-IsValueOf _ _ value (ground arith))
        | inl n ↦ inr (
          n,
          elim (Option-cases (first_of get (codes "HTTPS_PROXY") (codes "https_proxy"))) [
            | inr (v, e) ↦ inl (first_of-IsValueOf _ _ value (ground arith))
            | inl m ↦ inr (m, first_of-IsValueOf _ _ value (ground arith))
          ],
        )
      ]

module _ (crates : Crates) (proxies : ProxyCrate crates) (get : Str → Option Str) where
  -- What a client that uses `proxy` says of its configuration.
  abbrev pub IsRoutedBy : ProxyConfig crates proxies → Proxy → Type 0
  IsRoutedBy system proxy = ⊥
  IsRoutedBy disabled proxy = ⊥
  IsRoutedBy environment proxy =
      ((select_proxy get).0 ≡ some proxy.target)
      × (proxy.rule ≡ all_traffic)
      × (proxy.basic_auth ≡ none)
  IsRoutedBy (explicit endpoint) proxy =
      (proxy.target ≡ redacted_url crates proxies endpoint)
      × (proxy.basic_auth ≡ credentials crates proxies endpoint)
