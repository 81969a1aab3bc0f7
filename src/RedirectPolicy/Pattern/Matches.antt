-- ===== src/RedirectPolicy/Pattern/Matches.antt =====
-- Which hosts a pattern matches.
use beanstream.Prelude.{
  ◌≡◌, refl, sym, ap, ◌∙◌, ◌↔◌, ◌⊎◌, inl, inr, true, false, [], ◌∷◌, ◌++◌, arith, Bool-cases,
  Option-cases,
}
use beanstream.Text.{Str, codes, str_eq, strip_prefix, strip_suffix, starts_with, ends_with}
use beanstream.Text.Laws.{str_eq_iff, strip_suffix_iff}
use beanstream.RedirectPolicy.Pattern.{
  normalize_host, is_within_domain, matches_normalized, matches_host_pattern,
}

is_within_domain_iff :
    (suffix host : Str)
    → (is_within_domain suffix host ≡ true)
      ↔ ((host ≡ suffix) ⊎ ((sub : Str) × (host ≡ sub ++ b'.' ∷ suffix)))
unfolding is_within_domain
is_within_domain_iff suffix host = (
  λ h. elim (Bool-cases (str_eq host suffix)) [
    | inl e ↦ inl ((str_eq_iff host suffix).0 e)
    | inr e ↦ elim (Option-cases (strip_suffix (b'.' ∷ suffix) host)) [
      | inl n ↦ ground arith
      | inr (sub, s) ↦ inr (sub, (strip_suffix_iff (b'.' ∷ suffix) host sub).0 s)
    ]
  ],
  elim [
    | inl e ↦ ground (arith, str_eq_iff host suffix)
    | inr w ↦ ground (arith, (strip_suffix_iff (b'.' ∷ suffix) host w.0).1 w.1)
  ],
)

matches_normalized-wildcard :
    (suffix host : Str)
    → matches_normalized (codes "*." ++ suffix) host ≡ is_within_domain suffix host
unfolding matches_normalized str_eq strip_prefix
matches_normalized-wildcard suffix host = refl

-- A pattern `*.domain` matches the domain itself and every name below it, at any depth, and no
-- other host.
pub matches_host_pattern-wildcard_iff :
    (suffix pattern host : Str)
    → normalize_host pattern ≡ codes "*." ++ suffix
    → (matches_host_pattern pattern host ≡ true) ↔ (
        (normalize_host host ≡ suffix)
        ⊎ ((sub : Str) × (normalize_host host ≡ sub ++ b'.' ∷ suffix)))
unfolding matches_host_pattern
matches_host_pattern-wildcard_iff suffix pattern host e =
    let iff = is_within_domain_iff suffix (normalize_host host) in
    let same : matches_host_pattern pattern host ≡ is_within_domain suffix (normalize_host host) =
      ap (λ p. matches_normalized p (normalize_host host)) e
      ∙ matches_normalized-wildcard suffix (normalize_host host) in
    (λ h. iff.0 (sym same ∙ h), λ w. same ∙ iff.1 w)

-- A pattern that neither begins with `*` nor ends with `.*`.
abbrev pub HasNoStar : Str → Type 0
HasNoStar pattern =
    (starts_with (codes "*") pattern ≡ false) × (ends_with (codes ".*") pattern ≡ false)

matches_normalized-plain :
    (pattern host : Str) → HasNoStar pattern → matches_normalized pattern host ≡ str_eq pattern host
unfolding matches_normalized starts_with ends_with strip_suffix str_eq strip_prefix
matches_normalized-plain [] host (h, k) = ground arith
matches_normalized-plain (c ∷ pattern) host (h, k) = ground arith

-- A pattern that, normalised, neither starts with `*` nor ends with `.*` matches exactly the host that it names, up to the
-- normalisation of both.
matches_host_pattern-plain_iff :
    (pattern host : Str)
    → HasNoStar (normalize_host pattern)
    → (matches_host_pattern pattern host ≡ true) ↔ (normalize_host host ≡ normalize_host pattern)
unfolding matches_host_pattern
matches_host_pattern-plain_iff pattern host h =
    let iff = str_eq_iff (normalize_host pattern) (normalize_host host) in
    let same = matches_normalized-plain (normalize_host pattern) (normalize_host host) h in
    (λ m. sym (iff.0 (sym same ∙ m)), λ e. same ∙ iff.1 (sym e))
