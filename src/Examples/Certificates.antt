-- ===== src/Examples/Certificates.antt =====
-- The theorems about certificates, applied to a small one with a version, five empty fields and a key.
use beanstream.Prelude.{ℕ, ◌≡◌, refl, ◌↔◌, none, List, [], ◌∷◌, length}
use beanstream.CertPinning.Walk.{found, refused, panicked, Finds}
use beanstream.CertPinning.Der.{spki_der, read_tlv, skip_fields, skip_version, slice}
use beanstream.CertPinning.{CertPinConfig}
use beanstream.CertPinning.Verifier.{CertCrates, verify_server_cert, Stands, verify_server_cert_iff}
use beanstream.CertPinning.Bounds.{IsPart, spki_der-IsPart}

abbrev certificate : List ℕ
certificate =
    0x30 ∷ 17 ∷ 0x30 ∷ 15 ∷ 0xa0 ∷ 0 ∷ 2 ∷ 0 ∷ 2 ∷ 0 ∷ 2 ∷ 0 ∷ 2 ∷ 0 ∷ 2 ∷ 0 ∷ 0x30 ∷ 1 ∷ 5 ∷ []

abbrev key : List ℕ
key = 0x30 ∷ 1 ∷ 5 ∷ []

spki_der-certificate : spki_der certificate ≡ found key
unfolding spki_der read_tlv skip_fields skip_version slice beanstream.CertPinning.Der.take_bytes
    beanstream.CertPinning.Der.drop_bytes
spki_der-certificate = refl

spki_der-IsPart_example : Finds (IsPart certificate) (spki_der certificate)
spki_der-IsPart_example = spki_der-IsPart certificate

-- Lengths that reach behind the certificate are refused, and a slice of such a range panics.
too_long : spki_der (0x30 ∷ 17 ∷ 0x30 ∷ 15 ∷ []) ≡ refused
unfolding spki_der read_tlv
too_long = refl

out_of_range : slice certificate 16 20 ≡ panicked
unfolding slice
out_of_range = refl

-- A hash that counts the bytes, and a standard validation that accepts what it sees.
abbrev cert_crates : CertCrates
cert_crates = record {
  base64_decode = λ text. none;
  base64_error = λ text. [];
  sha256 = λ bytes. length bytes ∷ [];
  webpki_error = λ cert. none;
}

abbrev pinned : CertPinConfig
pinned = record { pins = (9 ∷ []) ∷ (3 ∷ []) ∷ [] }

verify_server_cert_iff_example :
    (verify_server_cert cert_crates pinned certificate ≡ found none) ↔ (
      (cert_crates.webpki_error certificate ≡ none)
      × (spki : List ℕ) × (spki_der certificate ≡ found spki)
      × Stands cert_crates (cert_crates.sha256 spki) pinned.pins)
verify_server_cert_iff_example = verify_server_cert_iff cert_crates pinned certificate

accepted : verify_server_cert cert_crates pinned certificate ≡ found none
accepted =
    (verify_server_cert_iff cert_crates pinned certificate).1
      (refl, key, spki_der-certificate, ((9 ∷ []) ∷ [], [], refl))
