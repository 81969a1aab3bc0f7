-- ===== src/UrlValidation/Path/Raw.antt =====
-- The path that `raw_path` finds in the raw text of a URL.
use beanstream.Prelude.{
  ℕ, ◌≡◌, refl, Bool, true, false, ◌||◌, some, [], ◌∷◌, ◌++◌, arith, ◌==◌, All,
}
use beanstream.Text.{Str, codes, strip_prefix}
use beanstream.UrlValidation.Path.{after_separator, drop_until, take_until, raw_path}

abbrev HasNone : (ℕ → Bool) → Str → Type 0
HasNone p s = All (λ c. p c ≡ false) s

after_separator-append :
    (scheme rest : Str)
    → HasNone (λ c. c == b':') scheme
    → after_separator (scheme ++ (codes "://" ++ rest)) ≡ some rest
unfolding after_separator strip_prefix
after_separator-append [] rest h = refl
after_separator-append (c ∷ scheme) rest h = ground (arith, after_separator-append scheme rest h.1)

drop_until-append :
    (p : ℕ → Bool) (before : Str) (c : ℕ) (rest : Str)
    → HasNone p before
    → p c ≡ true
    → drop_until p (before ++ c ∷ rest) ≡ some (c ∷ rest)
unfolding drop_until
drop_until-append p [] c rest h e = ground arith
drop_until-append p (d ∷ before) c rest h e =
    ground (arith, drop_until-append p before c rest h.1 e)

take_until-append :
    (p : ℕ → Bool) (before after : Str)
    → HasNone p before
    → take_until p after ≡ []
    → take_until p (before ++ after) ≡ before
unfolding take_until
take_until-append p [] after h e = e
take_until-append p (d ∷ before) after h e = ground (arith, take_until-append p before after h.1 e)

abbrev ends_path : ℕ → Bool
ends_path c = c == b'?' || c == b'#'

-- In a URL of a scheme without `:`, an authority without `/`, a path that starts with `/` and has
-- no `?` and no `#`, and a rest that is empty or starts with `?` or `#`, the raw path is that path.
pub raw_path-parts :
    (scheme authority path rest : Str)
    → HasNone (λ c. c == b':') scheme
    → HasNone (λ c. c == b'/') authority
    → HasNone ends_path path
    → take_until ends_path rest ≡ []
    → raw_path (scheme ++ (codes "://" ++ (authority ++ b'/' ∷ (path ++ rest))))
      ≡ some (b'/' ∷ path)
unfolding raw_path
raw_path-parts scheme authority path rest hs ha hp hr = ground (
  arith,
  after_separator-append scheme (authority ++ b'/' ∷ (path ++ rest)) hs,
  drop_until-append (λ c. c == b'/') authority b'/' (path ++ rest) ha refl,
  take_until-append ends_path (b'/' ∷ path) rest (refl, hp) hr,
)
