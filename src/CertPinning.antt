-- ===== src/CertPinning.antt =====
-- `CertPinConfig` of cert_pinning.rs: the pins that a client is given.
pub mod Walk
pub mod Der
pub mod Bounds
pub mod Verifier
use beanstream.Prelude.{
  ℕ, zero, suc, ◌+◌, ◌-◌, ◌*◌, ◌/◌, ◌%◌, ◌^◌, ◌≤◌, ◌<◌, min, max, code, String, ◌≡◌, refl, sym, ap,
  subst, ◌∙◌, ◌≢◌, ◌↔◌, ◌⊎◌, inl, inr, Bool, true, false, not, ◌&&◌, ◌||◌, Option, none, some, List,
  [], ◌∷◌, ◌++◌, map, reverse, arith, ltb, leb, ◌==◌, if◌then◌else◌, between, ==_iff, Bool-cases,
  Option-cases, length, any, all, find, keep, length-append, any-append, all-append, All, all_iff,
  All-keep, keep_of_All, keep_idempotent, All-append, All-map,
}
use beanstream.Text.{Str}
use beanstream.Error.{Result, ok, err, invalid_configuration, lit, about}

-- A pin is the 32 bytes of a SHA-256 hash.
pub record CertPinConfig : Type 0 where
  pub pins : List (List ℕ)

unfoldable pub no_pins : CertPinConfig
no_pins = record { pins = [] }

unfoldable pub pin_spki_sha256 : List ℕ → CertPinConfig → CertPinConfig
pin_spki_sha256 hash config = record { pins = config.pins ++ hash ∷ [] }

unfoldable pub is_empty : CertPinConfig → Bool
is_empty config = elim config.pins [ [] ↦ true | p ∷ ps ↦ false ]

-- The pins that the verifier of the new TLS configuration holds. `webpki_error` is the error of
-- the verifier's builder, if it fails.
unfoldable pub build_rustls_config : Option Str → CertPinConfig → Result CertPinConfig
unfolding is_empty
build_rustls_config webpki_error config =
    if is_empty config
    then err
        (invalid_configuration (lit "Certificate pinning requested but no pins were configured"))
    else elim webpki_error [
      | none ↦ ok config
      | some e ↦ err (invalid_configuration (about "{}" (e ∷ [])))
    ]
