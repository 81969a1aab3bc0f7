-- ===== src/CertPinning/Verifier.antt =====
-- `matches`, `pin_spki_sha256_base64` and the verifier of cert_pinning.rs.
use beanstream.Prelude.{
  ℕ, zero, suc, ◌≡◌, ap, ◌↔◌, inl, inr, Bool, true, false, not, Option, none, some, List, [], ◌∷◌,
  ◌++◌, arith, ◌==◌, Bool-cases, Option-cases, length, any, any-append, All, All-append,
}
use beanstream.Text.{Str, codes, str_eq, strip_prefix, trim}
use beanstream.Text.Laws.{str_eq_iff, str_eq_refl}
use beanstream.Error.{
  Result, ok, err, ◌>>=◌, ◌>>◌, refuse_if, invalid_configuration, lit, about, >>=-eq-ok,
  refuse_if-eq-ok,
}
use beanstream.CertPinning.{CertPinConfig, pin_spki_sha256}
use beanstream.CertPinning.Walk.{Walk, panicked, refused, found, Walk-cases}
use beanstream.CertPinning.Der.{spki_der}

-- The crates `base64` and `sha2`, and the error of the verifier of `rustls`, if it fails.
pub record CertCrates : Type 0 where
  pub base64_decode : Str → Option (List ℕ)
  pub base64_error : Str → Str
  pub sha256 : List ℕ → List ℕ
  pub webpki_error : List ℕ → Option Str

-- `trim_start_matches` for a text, with as much fuel as the text is long
unfoldable pub trim_prefix : ℕ → Str → Str → Str
trim_prefix zero prefix s = s
trim_prefix (suc fuel) prefix s = elim (strip_prefix prefix s) [
  | none ↦ s
  | some rest ↦ trim_prefix fuel prefix rest
]

module _ (crates : CertCrates) where
  unfoldable pub decode_pin : Str → Result (List ℕ)
  decode_pin text = elim (crates.base64_decode text) [
    | some decoded ↦ ok decoded
    | none ↦ err (
        invalid_configuration
          (about "Invalid certificate pin: {e}" (crates.base64_error text ∷ [])))
  ]

  unfoldable pub pin_spki_sha256_base64 : Str → CertPinConfig → Result CertPinConfig
  unfolding trim_prefix decode_pin pin_spki_sha256
  pin_spki_sha256_base64 pin config = do
    let text = trim pin
    decoded ← decode_pin (trim_prefix (length text) (codes "sha256/") text)
    refuse_if (not (length decoded == 32))
        (invalid_configuration (lit "Certificate pin must be exactly 32 bytes of SHA-256 output"))
    ok (pin_spki_sha256 decoded config)

  unfoldable pub spki_sha256 : List ℕ → Walk (List ℕ)
  spki_sha256 cert_der = elim (spki_der cert_der) [
    | panicked ↦ panicked
    | refused ↦ refused
    | found spki ↦ found (crates.sha256 spki)
  ]

  unfoldable pub matches : CertPinConfig → List ℕ → Walk Bool
  unfolding spki_sha256
  matches config cert_der = elim (spki_sha256 cert_der) [
    | panicked ↦ panicked
    | refused ↦ found false
    | found hash ↦ found (any (λ pin. str_eq pin hash) config.pins)
  ]

  -- The error of the verifier, if it fails: the certificate's own, and then that of the pins.
  unfoldable pub verify_server_cert : CertPinConfig → List ℕ → Walk (Option Str)
  unfolding matches
  verify_server_cert pins end_entity = elim (crates.webpki_error end_entity) [
    | some e ↦ found (some e)
    | none ↦ elim (matches pins end_entity) [
      | panicked ↦ panicked
      | refused ↦ refused
      | found true ↦ found none
      | found false ↦ found (
          some (
            codes "certificate pinning failed: no pinned SPKI hash matched the server certificate"))
    ]
  ]

  -- A pin of the configuration.
  abbrev pub Stands : List ℕ → List (List ℕ) → Type 0
  Stands hash pins =
      (before : List (List ℕ)) × (after : List (List ℕ)) × (pins ≡ before ++ hash ∷ after)

  any-Stands :
      (hash : List ℕ) (pins : List (List ℕ))
      → any (λ pin. str_eq pin hash) pins ≡ true
      → Stands hash pins
  any-Stands hash [] h = absurd (cc h)
  any-Stands hash (pin ∷ pins) h = elim (Bool-cases (str_eq pin hash)) [
    | inl e ↦ ([], pins, ap (λ p. p ∷ pins) ((str_eq_iff pin hash).0 e))
    | inr e ↦
        let (before, after, k) = any-Stands hash pins (rw e at h) in
        (pin ∷ before, after, ap (λ ps. pin ∷ ps) k)
  ]

  any_of_Stands :
      (hash : List ℕ) (pins : List (List ℕ))
      → Stands hash pins
      → any (λ pin. str_eq pin hash) pins ≡ true
  any_of_Stands hash pins (before, after, e) =
      rw e (
        ground (arith, any-append (λ pin. str_eq pin hash) before (hash ∷ after), str_eq_refl hash))

  -- The verifier accepts a certificate exactly where the standard validation does and the hash of
  -- its public key is one of the pins: where no key is found in it, it is refused.
  pub verify_server_cert_iff :
      (config : CertPinConfig) (cert : List ℕ)
      → (verify_server_cert config cert ≡ found none) ↔ (
          (crates.webpki_error cert ≡ none)
          × (spki : List ℕ) × (spki_der cert ≡ found spki)
          × Stands (crates.sha256 spki) config.pins)
  unfolding verify_server_cert matches spki_sha256
  verify_server_cert_iff config cert = (
    λ h. elim (Option-cases (crates.webpki_error cert)) [
      | inr (e, n) ↦ absurd (ground arith)
      | inl n ↦ elim (Walk-cases (spki_der cert)) [
        | inl m ↦ absurd (ground arith)
        | inr (inl m) ↦ absurd (ground arith)
        | inr (inr (spki, m)) ↦
            (n, spki, m, any-Stands (crates.sha256 spki) config.pins (ground arith))
      ]
    ],
    λ (n, spki, m, s).
        let standing = any_of_Stands (crates.sha256 spki) config.pins s in ground arith,
  )

  -- Where a pin given in base64 is accepted, all pins are 32 bytes long if those before were.
  pub pin_spki_sha256_base64-length :
      (pin : Str) (config pinned : CertPinConfig)
      → pin_spki_sha256_base64 pin config ≡ ok pinned
      → All (λ p. length p ≡ 32) config.pins
      → All (λ p. length p ≡ 32) pinned.pins
  unfolding pin_spki_sha256_base64 pin_spki_sha256
  pin_spki_sha256_base64-length pin config pinned h all_sized =
      let (decoded, e, h1) = >>=-eq-ok (decode_pin _) _ h in
      let (u, sized, h2) = >>=-eq-ok (refuse_if (not (length decoded == 32)) _) _ h1 in
      let same : pinned ≡ (record config { pins = config.pins ++ decoded ∷ [] }) = cc in
      let right = refuse_if-eq-ok _ _ sized in
      rw same (All-append _ config.pins (decoded ∷ []) all_sized (ground arith, tt))
