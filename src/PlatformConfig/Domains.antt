-- ===== src/PlatformConfig/Domains.antt =====
-- Which domains the generators refuse.
use beanstream.Prelude.{◌≡◌, refl, ◌↔◌, inl, inr, not, some, List, [], ◌∷◌, Bool-cases, find}
use beanstream.Text.{Str}
use beanstream.Error.{BeanStreamError, Result, ok, err, invalid_configuration, about, ◌>>=◌}
use beanstream.PlatformConfig.{
  AtsException, is_ats_domain, is_network_domain, check_domains, generate_android_network_config,
}

-- The error that is reported: the first domain that the test refuses.
abbrev pub ats_refusal : Str → BeanStreamError
ats_refusal domain =
    invalid_configuration (about "Invalid ATS exception domain: '{}'" (domain ∷ []))

abbrev pub network_refusal : Str → BeanStreamError
network_refusal domain =
    invalid_configuration (about "Invalid network security domain: '{domain}'" (domain ∷ []))

module _ {ℓ κ} {A : Type ℓ} {B : Type κ} where
  >>=-ok-err_iff :
      (r : Result A) (f : A → B) (x : BeanStreamError)
      → ((r >>= λ a. ok (f a)) ≡ err x) ↔ (r ≡ err x)
  >>=-ok-err_iff (ok a) f x = (λ h. absurd (cc h), λ h. absurd (cc h))
  >>=-ok-err_iff (err y) f x = (λ h. cc h, λ h. cc h)

abbrev pub IsRefused : List AtsException → BeanStreamError → Type 0
IsRefused exceptions x =
    (e : AtsException) × (find (λ (e : AtsException). not (is_ats_domain e.domain)) exceptions
      ≡ some e)
    × (x ≡ ats_refusal e.domain)

check_domains_iff :
    (domains : List Str) (x : BeanStreamError)
    → (check_domains domains ≡ err x) ↔ (
        (d : Str) × (find (λ d. not (is_network_domain d)) domains ≡ some d)
        × (x ≡ network_refusal d))
unfolding check_domains
check_domains_iff [] x = (λ h. absurd (cc h), λ (d, h, k). absurd (cc h))
check_domains_iff (domain ∷ domains) x =
    let ih = check_domains_iff domains x in
    elim (Bool-cases (is_network_domain domain)) [
      | inl valid ↦ rw valid ih
      | inr refused ↦ rw refused (λ h. (domain, refl, cc h), λ (d, h, k). cc (h, k))
    ]

-- `generate_android_network_config` fails exactly where a domain is refused, with the error that
-- names the first of these domains.
pub generate_android_network_config-refused_iff :
    (domains : List Str) (x : BeanStreamError)
    → (generate_android_network_config domains ≡ err x) ↔ (
        (d : Str) × (find (λ d. not (is_network_domain d)) domains ≡ some d)
        × (x ≡ network_refusal d))
unfolding generate_android_network_config
generate_android_network_config-refused_iff domains x =
    let step = >>=-ok-err_iff (check_domains domains) _ x in
    let each = check_domains_iff domains x in (λ h. each.0 (step.0 h), λ h. step.1 (each.1 h))
