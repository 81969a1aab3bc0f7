-- ===== src/Examples/Bodies.antt =====
-- The text of a body.
use beanstream.Prelude.{◌≡◌, refl, ◌↔◌, [], ◌∷◌, All}
use beanstream.Text.{codes, utf8}
use beanstream.Text.Utf8.{IsScalar, from_utf8}
use beanstream.Text.Utf8.Errors.{utf8_error, show_utf8_error}
use beanstream.Net.Display.{show_decimal}
use beanstream.Error.{ok, err, internal_error, about}
use beanstream.Response.{HttpResponse, text, bytes}
use beanstream.Response.Body.{text_iff}

-- A response whose body is an accented letter and a plain one.
abbrev accented : HttpResponse
accented = record {
  status = 200;
  headers = [];
  body = 0xc3 ∷ 0xa9 ∷ 0x41 ∷ [];
  url = codes "https://a.com/x";
}

text_iff_example :
    (text accented ≡ ok (0xe9 ∷ 0x41 ∷ []))
    ↔ ((bytes accented ≡ utf8 (0xe9 ∷ 0x41 ∷ [])) × All IsScalar (0xe9 ∷ 0x41 ∷ []))
text_iff_example = text_iff accented (0xe9 ∷ 0x41 ∷ [])

accented_text : text accented ≡ ok (0xe9 ∷ 0x41 ∷ [])
unfolding text from_utf8
accented_text = refl

cut_text :
    text (record accented { body = 0x41 ∷ 0xc3 ∷ [] })
    ≡ err (internal_error (about "{}" (codes "incomplete utf-8 byte sequence from index 1" ∷ [])))
unfolding text from_utf8 utf8_error show_utf8_error show_decimal
cut_text = refl
