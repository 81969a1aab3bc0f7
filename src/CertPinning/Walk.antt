-- ===== src/CertPinning/Walk.antt =====
-- Code of cert_pinning.rs that reads a buffer: it finds a value, returns `None`, or panics at an index
-- out of range.
use beanstream.Prelude.{◌≡◌, refl, ◌⊎◌, inl, inr}

pub data Walk {ℓ} (A : Type ℓ) : Type ℓ where
  panicked : Walk A
  refused : Walk A
  found : A → Walk A

-- The operator `?` on an `Option`, and a panic.
infixl 5 ◌>>=◌
abbrev pub ◌>>=◌ {ℓ} : {A B : Type ℓ} → Walk A → (A → Walk B) → Walk B
panicked >>= next = panicked
refused >>= next = refused
found a >>= next = next a

pub Walk-cases {ℓ} :
    {A : Type ℓ} (m : Walk A) → (m ≡ panicked) ⊎ ((m ≡ refused) ⊎ ((a : A) × (m ≡ found a)))
Walk-cases panicked = inl refl
Walk-cases refused = inr (inl refl)
Walk-cases (found a) = inr (inr (a, refl))

-- No panic, and what is found has the property.
abbrev pub Finds : {A : Type 0} → (A → Type 0) → Walk A → Type 0
Finds P panicked = ⊥
Finds P refused = Unit
Finds P (found a) = P a

pub Finds-bind :
    {A B : Type 0} (P : A → Type 0) (Q : B → Type 0) (m : Walk A) (next : A → Walk B)
    → Finds P m
    → ((a : A) → P a → Finds Q (next a))
    → Finds Q (m >>= next)
Finds-bind P Q panicked next h k = absurd h
Finds-bind P Q refused next h k = tt
Finds-bind P Q (found a) next h k = k a h
