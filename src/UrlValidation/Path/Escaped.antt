-- ===== src/UrlValidation/Path/Escaped.antt =====
-- Percent signs that are escaped, again and again, before a path is checked.
use beanstream.Prelude.{
  ℕ, zero, suc, ◌+◌, ◌≡◌, refl, sym, ap, ◌∙◌, inl, inr, Bool, true, false, ◌||◌, List, [], ◌∷◌,
  ◌++◌, arith, ltb, ◌==◌, if◌then◌else◌, ==_iff, Bool-cases, any, All,
}
use beanstream.Text.{Str, utf8, utf8_char}
use beanstream.Text.Utf8.{IsScalar}
use beanstream.Text.Utf8.Lossy.{from_utf8_lossy-utf8}
use beanstream.UrlValidation.Path.{
  decode_round, decode_rounds, max_rounds, decode_percent_encoded, candidate_is_dangerous,
  path_has_dangerous_sequence,
}

-- `%25` in place of each `%`.
abbrev pub escape_percent : Str → Str
escape_percent [] = []
escape_percent (c ∷ s) =
    if c == b'%' then b'%' ∷ b'2' ∷ b'5' ∷ escape_percent s else c ∷ escape_percent s

abbrev pub escaped_times : ℕ → Str → Str
escaped_times zero s = s
escaped_times (suc n) s = escape_percent (escaped_times n s)

abbrev has_percent : Str → Bool
has_percent s = any (λ c. c == b'%') s

escape_percent-scalars : (s : Str) → All IsScalar s → All IsScalar (escape_percent s)
escape_percent-scalars [] h = tt
escape_percent-scalars (c ∷ s) h = elim (Bool-cases (c == b'%')) [
  | inl e ↦
      let rest = escape_percent-scalars s h.1 in
      rw e (inl (omega arith), (inl (omega arith), (inl (omega arith), rest)))
  | inr e ↦ rw e (h.0, escape_percent-scalars s h.1)
]

escaped_times-scalars : (n : ℕ) (s : Str) → All IsScalar s → All IsScalar (escaped_times n s)
escaped_times-scalars zero s h = h
escaped_times-scalars (suc n) s h =
    escape_percent-scalars (escaped_times n s) (escaped_times-scalars n s h)

escape_percent-none : (s : Str) → has_percent s ≡ false → escape_percent s ≡ s
escape_percent-none [] h = refl
escape_percent-none (c ∷ s) h = ground (arith, escape_percent-none s)

-- A byte that is no percent sign stays.
decode_round-plain :
    (b : ℕ) (bs : List ℕ)
    → (b == b'%') ≡ false
    → decode_round (b ∷ bs) ≡ (b ∷ (decode_round bs).0, (decode_round bs).1)
unfolding decode_round
decode_round-plain b [] h = refl
decode_round-plain b (x ∷ []) h = refl
decode_round-plain b (x ∷ y ∷ bs) h = rw h refl

decode_round-append :
    (plain bs : List ℕ)
    → All (λ b. (b == b'%') ≡ false) plain
    → decode_round (plain ++ bs) ≡ (plain ++ (decode_round bs).0, (decode_round bs).1)
decode_round-append [] bs h = refl
decode_round-append (b ∷ plain) bs h =
    rw (decode_round-plain b (plain ++ bs) h.0, decode_round-append plain bs h.1) refl

utf8_char-plain : (c : ℕ) → (c == b'%') ≡ false → All (λ b. (b == b'%') ≡ false) (utf8_char c)
unfolding utf8_char
utf8_char-plain c h = elim (Bool-cases (ltb c 0x80)) [
  | inl e ↦ rw e (h, tt)
  | inr e ↦ elim (Bool-cases (ltb c 0x800)) [
    | inl k ↦ rw (e, k) (ground arith, (ground arith, tt))
    | inr k ↦ elim (Bool-cases (ltb c 0x10000)) [
      | inl l ↦ rw (e, k, l) (ground arith, (ground arith, (ground arith, tt)))
      | inr l ↦ rw (e, k, l) (ground arith, (ground arith, (ground arith, (ground arith, tt))))
    ]
  ]
]

-- One round takes one escape off.
decode_round-escape_percent :
    (s : Str) → decode_round (utf8 (escape_percent s)) ≡ (utf8 s, has_percent s)
unfolding utf8 utf8_char decode_round
decode_round-escape_percent [] = refl
decode_round-escape_percent (c ∷ s) = elim (Bool-cases (c == b'%')) [
  | inl e ↦
      let same : c ≡ b'%' = (==_iff c b'%').0 e in rw same (rw (decode_round-escape_percent s) refl)
  | inr e ↦
      rw
        (
          e,
          decode_round-append (utf8_char c) (utf8 (escape_percent s)) (utf8_char-plain c e),
          decode_round-escape_percent s,
        )
        refl
]

decode_rounds-none : (n : ℕ) (s : Str) → has_percent s ≡ false → decode_rounds n s ≡ s
unfolding decode_rounds
decode_rounds-none zero s h = refl
decode_rounds-none (suc n) s h =
    let one = decode_round-escape_percent s in
    let same : decode_round (utf8 s) ≡ (utf8 s, false) = rw (escape_percent-none s h, h) at one in
    rw same refl

decode_rounds-escape_percent :
    (n : ℕ) (s : Str)
    → All IsScalar s
    → decode_rounds (suc n) (escape_percent s) ≡ decode_rounds n s
unfolding decode_rounds
decode_rounds-escape_percent n s h = elim (Bool-cases (has_percent s)) [
  | inl e ↦ rw (decode_round-escape_percent s, e, from_utf8_lossy-utf8 s h) refl
  | inr e ↦
      rw (decode_round-escape_percent s, e, escape_percent-none s e, decode_rounds-none n s e) refl
]

decode_rounds-escaped_times :
    (k n : ℕ) (s : Str)
    → All IsScalar s
    → decode_rounds (k + n) (escaped_times k s) ≡ decode_rounds n s
decode_rounds-escaped_times zero n s h = let same : 0 + n ≡ n = omega arith in rw same refl
decode_rounds-escaped_times (suc k) n s h =
    let same : suc k + n ≡ suc (k + n) = omega arith in
    rw same (decode_rounds-escape_percent (k + n) (escaped_times k s) (escaped_times-scalars k s h))
    ∙ decode_rounds-escaped_times k n s h

second_holds : (b c : Bool) → c ≡ true → (b || (c || false)) ≡ true
second_holds b c h = ground arith

decoded_is_dangerous :
    (path : Str)
    → candidate_is_dangerous (decode_percent_encoded path) ≡ true
    → path_has_dangerous_sequence path ≡ true
unfolding path_has_dangerous_sequence
decoded_is_dangerous path h =
    second_holds (candidate_is_dangerous path)
      (candidate_is_dangerous (decode_percent_encoded path)) h

decode_percent_encoded-rounds :
    (path : Str) → decode_percent_encoded path ≡ decode_rounds max_rounds path
unfolding decode_percent_encoded
decode_percent_encoded-rounds path = refl

-- A path does not get past the check by escaping its percent signs up to five times: where decoding
-- it in the rounds that are left shows a dangerous sequence, the escaped path is refused too.
pub path_has_dangerous_sequence-escaped_times :
    (k n : ℕ) (s : Str)
    → k + n ≡ max_rounds
    → All IsScalar s
    → candidate_is_dangerous (decode_rounds n s) ≡ true
    → path_has_dangerous_sequence (escaped_times k s) ≡ true
path_has_dangerous_sequence-escaped_times k n s rounds scalars h =
    let decoded : decode_percent_encoded (escaped_times k s) ≡ decode_rounds n s =
      decode_percent_encoded-rounds (escaped_times k s)
      ∙ ap (λ m. decode_rounds m (escaped_times k s)) (sym rounds)
      ∙ decode_rounds-escaped_times k n s scalars in
    decoded_is_dangerous (escaped_times k s) (ap candidate_is_dangerous decoded ∙ h)
