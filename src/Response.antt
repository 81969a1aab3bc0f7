-- ===== src/Response.antt =====
-- `HttpResponse` of request_handler.rs.
pub mod Body
use beanstream.Prelude.{
  ℕ, zero, suc, ◌+◌, ◌-◌, ◌*◌, ◌/◌, ◌%◌, ◌^◌, ◌≤◌, ◌<◌, min, max, code, String, ◌≡◌, refl, sym, ap,
  subst, ◌∙◌, ◌≢◌, ◌↔◌, ◌⊎◌, inl, inr, Bool, true, false, not, ◌&&◌, ◌||◌, Option, none, some, List,
  [], ◌∷◌, ◌++◌, map, reverse, arith, ltb, leb, ◌==◌, if◌then◌else◌, between, ==_iff, Bool-cases,
  Option-cases, length, any, all, find, keep, length-append, any-append, all-append, All, all_iff,
  All-keep, keep_of_All, keep_idempotent, All-append, All-map,
}
use beanstream.Text.{Str}
use beanstream.Text.Utf8.{from_utf8}
use beanstream.Text.Utf8.Errors.{Utf8Error, utf8_error, show_utf8_error}
use beanstream.Error.{Result, ok, err, internal_error, lit, about}
use beanstream.HeaderValidation.{Header, redact_sensitive_headers}

pub record HttpResponse : Type 0 where
  pub status : ℕ
  pub headers : List Header
  pub body : List ℕ
  pub url : Str

-- `(200..300).contains(&self.status)`
unfoldable pub is_success : HttpResponse → Bool
is_success response = leb 200 response.status && ltb response.status 300

unfoldable pub redact : HttpResponse → HttpResponse
redact response = record response { headers = redact_sensitive_headers response.headers }

-- The text of the error of bytes that are not UTF-8
utf8_message : Option Utf8Error → Str
utf8_message none = []
utf8_message (some e) = show_utf8_error e

-- The error is `FromUtf8Error`'s.
unfoldable pub text : HttpResponse → Result Str
unfolding utf8_message
text response = elim (from_utf8 response.body) [
  | some decoded ↦ ok decoded
  | none ↦ err (internal_error (about "{}" (utf8_message (utf8_error response.body) ∷ [])))
]

unfoldable pub bytes : HttpResponse → List ℕ
bytes response = response.body
