-- ===== src/UrlValidation/Domain/Names.antt =====
-- Which names `validate_domain` accepts.
use beanstream.Prelude.{
  ◌≤◌, ◌≡◌, refl, ◌≢◌, ◌↔◌, inl, inr, true, false, List, [], ◌∷◌, arith, Bool-cases, All, all_iff,
}
use beanstream.Text.{
  Str, codes, byte_len, split, str_eq, starts_with, ends_with, to_ascii_lowercase,
}
use beanstream.Text.Laws.{str_eq_iff}
use beanstream.Error.{ok, Result-cases}
use beanstream.UrlValidation.Domain.{
  is_label_char, validate_label, validate_labels, is_local_name, validate_domain,
}

pub record IsLabel (label : Str) : Type 0 where
  pub not_empty : label ≢ []
  pub fits : byte_len label ≤ 63
  pub no_dash_first : starts_with (codes "-") label ≡ false
  pub no_dash_last : ends_with (codes "-") label ≡ false
  pub plain : All (λ c. is_label_char c ≡ true) label

validate_label_iff : (label : Str) → (validate_label label ≡ ok tt) ↔ IsLabel label
unfolding validate_label
validate_label_iff [] = (λ h. absurd (ground arith), λ h. absurd (h.not_empty refl))
validate_label_iff (c ∷ label) =
    let plain = all_iff is_label_char (c ∷ label) in
    (
      λ h. record {
        not_empty = λ e. ground arith;
        fits = ground arith;
        no_dash_first = ground arith;
        no_dash_last = ground arith;
        plain = plain.0 (ground arith);
      },
      λ h.
          let all_plain = plain.1 h.plain in
          let fits = h.fits in
          let first = h.no_dash_first in let last = h.no_dash_last in ground arith,
    )

validate_labels_iff : (labels : List Str) → (validate_labels labels ≡ ok tt) ↔ All IsLabel labels
unfolding validate_labels
validate_labels_iff [] = (λ h. tt, λ h. refl)
validate_labels_iff (label ∷ labels) =
    let one = validate_label_iff label in
    let ih = validate_labels_iff labels in
    (
      λ h. elim (Result-cases (validate_label label)) [
        | inl (u, e) ↦ (one.0 e, ih.0 (ground arith))
        | inr (x, e) ↦ absurd (ground arith)
      ],
      λ h. let first = one.1 h.0 in let others = ih.1 h.1 in ground arith,
    )

-- A name that can be looked up and is not a local one.
pub record IsPublicName (name : Str) : Type 0 where
  pub fits : byte_len name ≤ 253
  pub labels : All IsLabel (split b'.' name)
  pub not_localhost : to_ascii_lowercase name ≢ codes "localhost"
  pub not_localhost_child : ends_with (codes ".localhost") (to_ascii_lowercase name) ≡ false
  pub not_local : ends_with (codes ".local") (to_ascii_lowercase name) ≡ false
  pub not_internal : ends_with (codes ".internal") (to_ascii_lowercase name) ≡ false

-- A domain is accepted exactly when it has at most 253 bytes, each of its labels has 1 to 63 bytes,
-- all letters, digits and dashes, with no dash first or last, and it is neither `localhost` nor
-- under `.localhost`, `.local` or `.internal`, in any case.
pub validate_domain_iff : (name : Str) → (validate_domain name ≡ ok tt) ↔ IsPublicName name
unfolding validate_domain is_local_name
validate_domain_iff name =
    let labels = validate_labels_iff (split b'.' name) in
    let local = str_eq_iff (to_ascii_lowercase name) (codes "localhost") in
    (
      λ h. elim (Result-cases (validate_labels (split b'.' name))) [
        | inl (u, e) ↦ record {
          fits = ground arith;
          labels = labels.0 e;
          not_localhost = λ same. let t = local.1 same in ground arith;
          not_localhost_child = ground arith;
          not_local = ground arith;
          not_internal = ground arith;
        }
        | inr (x, e) ↦ absurd (ground arith)
      ],
      λ h.
          let e = labels.1 h.labels in
          let fits = h.fits in
          let n1 = h.not_localhost_child in
          let n2 = h.not_local in
          let n3 = h.not_internal in
          elim (Bool-cases (str_eq (to_ascii_lowercase name) (codes "localhost"))) [
            | inl t ↦ absurd (h.not_localhost (local.0 t))
            | inr f ↦ ground arith
          ],
    )
