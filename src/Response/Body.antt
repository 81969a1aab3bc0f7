-- ===== src/Response/Body.antt =====
-- What `text` makes of a body.
use beanstream.Prelude.{◌≡◌, refl, sym, ◌↔◌, inl, inr, some, arith, Option-cases, All}
use beanstream.Text.{Str, utf8}
use beanstream.Text.Utf8.{IsScalar, from_utf8}
use beanstream.Text.Utf8.Encoded.{from_utf8-utf8}
use beanstream.Text.Utf8.Decoded.{from_utf8-eq-some}
use beanstream.Error.{ok}
use beanstream.Response.{HttpResponse, text, bytes}

text-eq-ok :
    (response : HttpResponse) (s : Str) → text response ≡ ok s → from_utf8 response.body ≡ some s
unfolding text
text-eq-ok response s h = elim (Option-cases (from_utf8 response.body)) [
  | inl n ↦ absurd (ground arith)
  | inr (t, e) ↦ ground arith
]

-- `text` returns exactly the text, of characters that are no surrogates, whose UTF-8 encoding
-- `bytes` gives: it fails where there is none, and no other text is returned.
pub text_iff :
    (response : HttpResponse) (s : Str)
    → (text response ≡ ok s) ↔ ((bytes response ≡ utf8 s) × All IsScalar s)
unfolding text bytes
text_iff response s = (
  λ h.
      let (same, scalars) = from_utf8-eq-some response.body s (text-eq-ok response s h) in
      (sym same, scalars),
  λ k.
      let decoded : from_utf8 response.body ≡ some s = rw k.0 (from_utf8-utf8 s k.1) in
      rw (text, decoded) refl,
)
