-- ===== src/Request/Exec.antt =====
-- Code that changes a world and may fail. What it changed before a failure stays changed.
use beanstream.Prelude.{◌≡◌, refl, Bool, true, false, arith, if◌then◌else◌}
use beanstream.Error.{BeanStreamError, Result, ok, err}

abbrev pub Exec {ℓ} : Type ℓ → Type ℓ → Type ℓ
Exec W A = W → Result A × W

module _ {ℓ} {W A : Type ℓ} where
  abbrev pub pure : A → Exec W A
  pure a w = (ok a, w)

  abbrev pub raise : BeanStreamError → Exec W A
  raise e w = (err e, w)

  abbrev pub lift : Result A → Exec W A
  lift r w = (r, w)

module _ {ℓ} {W A B : Type ℓ} where
  abbrev pub continue : Result A → (A → Exec W B) → Exec W B
  continue (ok a) f w = f a w
  continue (err e) f w = (err e, w)

  infixl 5 ◌>>=◌
  abbrev pub ◌>>=◌ : Exec W A → (A → Exec W B) → Exec W B
  ◌>>=◌ m f w = let r = m w in continue r.0 f r.1

module _ {ℓ} {W A B : Type ℓ} where
  continue-eq-ok :
      (r : Result A) (f : A → Exec W B) (w : W) {b : B}
      → (continue r f w).0 ≡ ok b
      → (a : A) × (r ≡ ok a) × ((f a w).0 ≡ ok b) × (continue r f w ≡ f a w)
  continue-eq-ok (ok a) f w h = (a, refl, h, refl)
  continue-eq-ok (err e) f w h = cc

  -- A success of two parts in a row is a success of each, from the world that the first left.
  pub bind-eq-ok :
      (m : Exec W A) (f : A → Exec W B) (w : W) {b : B}
      → (◌>>=◌ m f w).0 ≡ ok b
      → (a : A) × ((m w).0 ≡ ok a) × ((f a (m w).1).0 ≡ ok b) × (◌>>=◌ m f w ≡ f a (m w).1)
  bind-eq-ok m f w h = continue-eq-ok (m w).0 f (m w).1 h

-- `m` keeps `P` of the world, whether it succeeds or fails, and what it returns has `Q`.
unfoldable pub Ensures {ℓ} : {W A : Type ℓ} → (W → Type ℓ) → Exec W A → (A → Type ℓ) → Type ℓ
Ensures {W = W} {A = A} P m Q = (w : W) → P w → P (m w).1 × ((a : A) → (m w).0 ≡ ok a → Q a)

module _ {ℓ} {W : Type ℓ} (P : W → Type ℓ) where
  pub Ensures-lift : {A : Type ℓ} (r : Result A) → Ensures P (lift r) (λ a. r ≡ ok a)
  unfolding Ensures
  Ensures-lift r w h = (h, λ a e. e)

  pub Ensures-pure : {A : Type ℓ} (Q : A → Type ℓ) (a : A) → Q a → Ensures P (pure a) Q
  unfolding Ensures
  Ensures-pure Q a q w h = (h, λ b e. let same : b ≡ a = cc in rw same q)

  Ensures-continue :
      {A B : Type ℓ} (R : B → Type ℓ) (r : Result A) (f : A → Exec W B) (w : W)
      → P w
      → ((a : A) → r ≡ ok a → P (f a w).1 × ((b : B) → (f a w).0 ≡ ok b → R b))
      → P (continue r f w).1 × ((b : B) → (continue r f w).0 ≡ ok b → R b)
  Ensures-continue R (ok a) f w h k = k a refl
  Ensures-continue R (err e) f w h k = (h, λ b e'. absurd (ground arith))

  pub Ensures-bind :
      {A B : Type ℓ} (Q : A → Type ℓ) (R : B → Type ℓ) (m : Exec W A) (f : A → Exec W B)
      → Ensures P m Q
      → ((a : A) → Q a → Ensures P (f a) R)
      → Ensures P (◌>>=◌ m f) R
  unfolding Ensures
  Ensures-bind Q R m f k l w h =
      Ensures-continue R (m w).0 f (m w).1 (k w h).0 (λ a e. l a ((k w h).1 a e) (m w).1 (k w h).0)

  pub Ensures-if :
      {A : Type ℓ} (Q : A → Type ℓ) (b : Bool) (m n : Exec W A)
      → (b ≡ true → Ensures P m Q)
      → (b ≡ false → Ensures P n Q)
      → Ensures P (if b then m else n) Q
  unfolding Ensures
  Ensures-if Q true m n k l = k refl
  Ensures-if Q false m n k l = l refl

  -- The code ahead of the rest is a value of `Result`.
  pub Ensures-try :
      {A B : Type ℓ} (R : B → Type ℓ) (r : Result A) (f : A → Exec W B)
      → ((a : A) → r ≡ ok a → Ensures P (f a) R)
      → Ensures P (◌>>=◌ (lift r) f) R
  Ensures-try R r f k = Ensures-bind (λ a. r ≡ ok a) R (lift r) f (Ensures-lift r) k
