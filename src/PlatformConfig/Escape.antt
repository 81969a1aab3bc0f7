-- ===== src/PlatformConfig/Escape.antt =====
-- What `xml_escape` makes of a text.
use beanstream.Prelude.{
  ℕ, ◌≡◌, refl, sym, ◌∙◌, inl, inr, Bool, true, false, ◌||◌, [], ◌∷◌, ◌++◌, arith, ◌==◌,
  if◌then◌else◌, ==_iff, Bool-cases, all, All, All-append,
}
use mathlib.Core.List.{append_assoc}
use beanstream.Text.{Str, codes, is_ascii_alphanumeric}
use beanstream.PlatformConfig.{replace, xml_escape, is_network_domain}

-- A character by itself, escaped.
abbrev pub entity : ℕ → Str
entity c =
    if c == b'&'
    then codes "&amp;"
    else if c == b'<'
    then codes "&lt;"
    else if c == b'>'
    then codes "&gt;"
    else if c == b'"'
    then codes "&quot;"
    else if c == b'\''
    then codes "&apos;"
    else c ∷ []

abbrev pub escape_each : Str → Str
escape_each [] = []
escape_each (c ∷ s) = entity c ++ escape_each s

replace-append :
    (from : ℕ) (to s t : Str) → replace from to (s ++ t) ≡ replace from to s ++ replace from to t
unfolding replace
replace-append from to [] t = refl
replace-append from to (c ∷ s) t = elim (Bool-cases (c == from)) [
  | inl e ↦
      rw (e, replace-append from to s t)
        (sym (append_assoc to (replace from to s) (replace from to t)))
  | inr e ↦ rw (e, replace-append from to s t) refl
]

xml_escape-append : (s t : Str) → xml_escape (s ++ t) ≡ xml_escape s ++ xml_escape t
unfolding xml_escape
xml_escape-append s t = simp replace-append refl

xml_escape-char : (c : ℕ) → xml_escape (c ∷ []) ≡ entity c
unfolding xml_escape replace
xml_escape-char c = elim (Bool-cases (c == b'&')) [
  | inl e ↦ rw ((==_iff _ _).0 e) refl
  | inr a ↦ elim (Bool-cases (c == b'<')) [
    | inl e ↦ rw ((==_iff _ _).0 e) refl
    | inr b ↦ elim (Bool-cases (c == b'>')) [
      | inl e ↦ rw ((==_iff _ _).0 e) refl
      | inr d ↦ elim (Bool-cases (c == b'"')) [
        | inl e ↦ rw ((==_iff _ _).0 e) refl
        | inr q ↦ simp (a, b, d, q) refl
      ]
    ]
  ]
]

-- The five replacements, made one after the other, are one replacement of each character by itself:
-- no entity is escaped again.
pub xml_escape-each : (s : Str) → xml_escape s ≡ escape_each s
unfolding xml_escape replace
xml_escape-each [] = refl
xml_escape-each (c ∷ s) =
    xml_escape-append (c ∷ []) s ∙ rw (xml_escape-char c, xml_escape-each s) refl

-- The characters that end a text or an attribute of XML.
abbrev pub is_markup : ℕ → Bool
is_markup c = c == b'<' || c == b'>' || c == b'"' || c == b'\''

All-entity : (c : ℕ) → All (λ d. is_markup d ≡ false) (entity c)
All-entity c = ground arith

All-escape_each : (s : Str) → All (λ d. is_markup d ≡ false) (escape_each s)
All-escape_each [] = tt
All-escape_each (c ∷ s) = All-append _ (entity c) (escape_each s) (All-entity c) (All-escape_each s)

-- An escaped text has no `<`, `>`, `"` or `'`.
pub xml_escape-IsInert : (s : Str) → All (λ d. is_markup d ≡ false) (xml_escape s)
xml_escape-IsInert s = rw (xml_escape-each s) (All-escape_each s)

escape_each-plain :
    (s : Str)
    → all (λ c. is_ascii_alphanumeric c || c == b'.' || c == b'-' || c == b'*') s ≡ true
    → escape_each s ≡ s
unfolding is_ascii_alphanumeric
escape_each-plain [] h = refl
escape_each-plain (c ∷ s) h =
    let plain : entity c ≡ c ∷ [] = ground arith in
    rw (plain, escape_each-plain s (ground arith)) refl

-- A domain that a network security config accepts is its own escape.
pub xml_escape-domain : (s : Str) → is_network_domain s ≡ true → xml_escape s ≡ s
unfolding is_network_domain
xml_escape-domain s h = xml_escape-each s ∙ escape_each-plain s (ground arith)
