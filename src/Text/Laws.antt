-- ===== src/Text/Laws.antt =====
-- Laws of the text methods.
use beanstream.Prelude.{
  ℕ, ◌≡◌, refl, sym, ap, subst, ◌∙◌, ◌↔◌, inl, inr, Bool, true, false, some, [], ◌∷◌, ◌++◌, reverse,
  arith, Bool-cases, Option-cases,
}
use mathlib.Core.Path.{◌≡⟨◌⟩◌, ◌∎, subst}
use mathlib.Core.List.{reverse-append, reverse-reverse}
use beanstream.Text.{
  Str, str_eq, lower_char, to_ascii_lowercase, eq_ignore_ascii_case, trim_start_matches,
  trim_end_matches, trim, is_whitespace, strip_prefix, starts_with, strip_suffix, ends_with,
  contains,
}

pub str_eq_iff : (s t : Str) → (str_eq s t ≡ true) ↔ (s ≡ t)
unfolding str_eq
str_eq_iff [] [] = ground arith
str_eq_iff [] (b ∷ t) = ground arith
str_eq_iff (a ∷ s) [] = ground arith
str_eq_iff (a ∷ s) (b ∷ t) = ground (arith, str_eq_iff s t)

pub str_eq_refl : (s : Str) → str_eq s s ≡ true
str_eq_refl s = (str_eq_iff s s).1 refl

pub lower_char_idempotent : (c : ℕ) → lower_char (lower_char c) ≡ lower_char c
unfolding lower_char
lower_char_idempotent c = ground arith

pub to_ascii_lowercase_idempotent :
    (s : Str) → to_ascii_lowercase (to_ascii_lowercase s) ≡ to_ascii_lowercase s
unfolding to_ascii_lowercase
to_ascii_lowercase_idempotent [] = refl
to_ascii_lowercase_idempotent (c ∷ s) =
    cc (lower_char_idempotent c, to_ascii_lowercase_idempotent s)

pub eq_ignore_ascii_case_iff :
    (s t : Str) → (eq_ignore_ascii_case s t ≡ true) ↔ (to_ascii_lowercase s ≡ to_ascii_lowercase t)
unfolding eq_ignore_ascii_case
eq_ignore_ascii_case_iff s t = str_eq_iff _ _

pub strip_prefix_iff : (p s r : Str) → (strip_prefix p s ≡ some r) ↔ (s ≡ p ++ r)
unfolding strip_prefix
strip_prefix_iff [] s r = ground arith
strip_prefix_iff (a ∷ p) [] r = ground arith
strip_prefix_iff (a ∷ p) (c ∷ s) r = ground (arith, strip_prefix_iff p s r)

pub starts_with_iff : (p s : Str) → (starts_with p s ≡ true) ↔ ((r : Str) × (s ≡ p ++ r))
unfolding starts_with
starts_with_iff p s = elim (Option-cases (strip_prefix p s)) [
  | inl e ↦ (λ h. ground arith, λ (r, h). ground (arith, (strip_prefix_iff p s r).1 h))
  | inr (r, e) ↦ (λ h. (r, (strip_prefix_iff p s r).0 e), λ h. ground arith)
]

unreverse : (p s q : Str) → reverse s ≡ reverse p ++ q → s ≡ reverse q ++ p
unreverse p s q h =
    s
    ≡⟨ sym (reverse-reverse s) ∙ ap reverse h ⟩ reverse (reverse p ++ q)
    ≡⟨ reverse-append (reverse p) q ⟩ reverse q ++ reverse (reverse p)
    ≡⟨ ap (λ x. reverse q ++ x) (reverse-reverse p) ⟩ reverse q ++ p ∎

strip_reversed :
    (p s r : Str) → s ≡ r ++ p → strip_prefix (reverse p) (reverse s) ≡ some (reverse r)
strip_reversed p s r h =
    (strip_prefix_iff (reverse p) (reverse s) (reverse r)).1 (ap reverse h ∙ reverse-append r p)

pub strip_suffix_iff : (p s r : Str) → (strip_suffix p s ≡ some r) ↔ (s ≡ r ++ p)
unfolding strip_suffix
strip_suffix_iff p s r = (
  λ h. elim (Option-cases (strip_prefix (reverse p) (reverse s))) [
    | inl e ↦ ground arith
    | inr (q, e) ↦
        let found = unreverse p s q ((strip_prefix_iff (reverse p) (reverse s) q).0 e) in
        (let same : reverse q ≡ r = ground arith in found ∙ ap (λ x. x ++ p) same)
  ],
  λ h. rw (strip_reversed p s r h, strip_suffix) (ap some (reverse-reverse r)),
)

pub ends_with_iff : (p s : Str) → (ends_with p s ≡ true) ↔ ((r : Str) × (s ≡ r ++ p))
unfolding ends_with
ends_with_iff p s = (
  λ h. let (q, e) = (starts_with_iff (reverse p) (reverse s)).0 h in (reverse q, unreverse p s q e),
  λ (r, h).
      (starts_with_iff (reverse p) (reverse s)).1 (reverse r, ap reverse h ∙ reverse-append r p),
)

pub contains-append : (pre n post : Str) → contains n (pre ++ (n ++ post)) ≡ true
unfolding contains
contains-append [] n post =
    contains_here n (n ++ post) ((starts_with_iff n (n ++ post)).1 (post, refl))
  where
    contains_here : (n s : Str) → starts_with n s ≡ true → contains n s ≡ true
    contains_here n [] h = h
    contains_here n (c ∷ s) h = ground arith
contains-append (c ∷ pre) n post = ground (arith, contains-append pre n post)

contains_split :
    (n s : Str) → contains n s ≡ true → (pre : Str) × (post : Str) × (s ≡ pre ++ (n ++ post))
unfolding contains
contains_split n [] h = let (r, e) = (starts_with_iff n []).0 h in ([], r, e)
contains_split n (c ∷ s) h = elim (Bool-cases (starts_with n (c ∷ s))) [
  | inl here ↦ let (r, e) = (starts_with_iff n (c ∷ s)).0 here in ([], r, e)
  | inr later ↦
      let (pre, post, e) = contains_split n s (rw later at h) in (c ∷ pre, post, ap (λ x. c ∷ x) e)
]

-- `contains` finds the needle exactly where it stands.
pub contains_iff :
    (n s : Str) → (contains n s ≡ true) ↔ ((pre : Str) × (post : Str) × (s ≡ pre ++ (n ++ post)))
contains_iff n s = (contains_split n s, λ (pre, post, e). rw e (contains-append pre n post))

trim_start-idempotent :
    (p : ℕ → Bool) (s : Str)
    → trim_start_matches p (trim_start_matches p s) ≡ trim_start_matches p s
unfolding trim_start_matches
trim_start-idempotent p [] = refl
trim_start-idempotent p (c ∷ s) = ground (arith, trim_start-idempotent p s)

-- The first character of a text that begins with none to trim.
abbrev Starts : (ℕ → Bool) → Str → Type 0
Starts p [] = Unit
Starts p (c ∷ s) = p c ≡ false

Starts-trim_start : (p : ℕ → Bool) (s : Str) → Starts p (trim_start_matches p s)
unfolding trim_start_matches
Starts-trim_start p [] = tt
Starts-trim_start p (c ∷ s) = elim (Bool-cases (p c)) [
  | inl e ↦ rw e (Starts-trim_start p s)
  | inr e ↦ rw e e
]

trim_start_of_Starts : (p : ℕ → Bool) (s : Str) → Starts p s → trim_start_matches p s ≡ s
unfolding trim_start_matches
trim_start_of_Starts p [] h = refl
trim_start_of_Starts p (c ∷ s) h = ground arith

-- Trimming at the end keeps how a text starts.
Starts-append : (p : ℕ → Bool) (s t : Str) → Starts p (s ++ t) → Starts p s
Starts-append p [] t h = tt
Starts-append p (c ∷ s) t h = h

trim_start_suffix : (p : ℕ → Bool) (s : Str) → (q : Str) × (s ≡ q ++ trim_start_matches p s)
unfolding trim_start_matches
trim_start_suffix p [] = ([], refl)
trim_start_suffix p (c ∷ s) = elim (Bool-cases (p c)) [
  | inl e ↦ let (q, same) = trim_start_suffix p s in (c ∷ q, rw e (ap (λ x. c ∷ x) same))
  | inr e ↦ ([], rw e)
]

trim_end_prefix : (p : ℕ → Bool) (s : Str) → (q : Str) × (s ≡ trim_end_matches p s ++ q)
unfolding trim_end_matches
trim_end_prefix p s =
    let (q, e) = trim_start_suffix p (reverse s) in
    (
      reverse q,
      sym (reverse-reverse s) ∙ ap reverse e ∙ reverse-append q (trim_start_matches p (reverse s)),
    )

trim_end_idempotent :
    (p : ℕ → Bool) (s : Str) → trim_end_matches p (trim_end_matches p s) ≡ trim_end_matches p s
unfolding trim_end_matches
trim_end_idempotent p s = rw reverse-reverse (ap reverse (trim_start-idempotent p (reverse s)))

-- Trimming a second time changes nothing.
pub trim_idempotent : (s : Str) → trim (trim s) ≡ trim s
unfolding trim
trim_idempotent s =
    let t = trim_start_matches is_whitespace s in
    let (q, e) = trim_end_prefix is_whitespace t in
    let starts =
      Starts-append is_whitespace (trim_end_matches is_whitespace t) q
        (subst (Starts is_whitespace) e (Starts-trim_start is_whitespace s)) in
    ap (trim_end_matches is_whitespace)
      (trim_start_of_Starts is_whitespace (trim_end_matches is_whitespace t) starts)
    ∙ trim_end_idempotent is_whitespace t
