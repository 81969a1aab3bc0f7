-- ===== src/Examples/Headers.antt =====
-- The theorems about headers, applied to concrete ones.
use beanstream.Prelude.{◌≡◌, refl, ◌↔◌, false}
use beanstream.Text.{Str, codes, trim, to_ascii_lowercase}
use beanstream.Error.{ok}
use beanstream.HeaderValidation.{Header, sanitize_header, is_sensitive_header}
use beanstream.HeaderValidation.Laws.{IsCleanName, IsCleanValue, sanitize_header_iff}
use beanstream.Examples.{crates}

abbrev cleaned : Header
cleaned = (codes "x-a", codes "b")

sanitize_header_iff_example : (sanitize_header crates (codes " X-A ") (codes "b ") ≡ ok cleaned) ↔ (
    IsCleanName crates (trim (codes " X-A "))
    × IsCleanValue crates (trim (codes "b "))
    × (cleaned ≡ (to_ascii_lowercase (trim (codes " X-A ")), trim (codes "b "))))
sanitize_header_iff_example = sanitize_header_iff crates (codes " X-A ") (codes "b ") cleaned

abbrev x_a : Header
x_a = (codes "X-A", codes "b")

x_a-IsPublic : is_sensitive_header (codes "X-A") ≡ false
unfolding is_sensitive_header beanstream.Text.eq_ignore_ascii_case beanstream.Text.str_eq
    to_ascii_lowercase beanstream.Text.lower_char
x_a-IsPublic = refl
