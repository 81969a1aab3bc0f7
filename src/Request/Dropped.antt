-- ===== src/Request/Dropped.antt =====
-- What it means for the future of a request to be dropped where it waits, by its signal or by the
-- caller: the run is compared with the run that is not dropped.
pub mod Hops
pub mod Attempts
pub mod Run
pub mod Sent
use beanstream.Prelude.{
  ℕ, zero, suc, ◌+◌, ◌-◌, ◌*◌, ◌/◌, ◌%◌, ◌^◌, ◌≤◌, ◌<◌, min, max, code, String, ◌≡◌, refl, sym, ap,
  subst, ◌∙◌, ◌≢◌, ◌↔◌, ◌⊎◌, inl, inr, Bool, true, false, not, ◌&&◌, ◌||◌, Option, none, some, List,
  [], ◌∷◌, ◌++◌, map, reverse, arith, ltb, leb, ◌==◌, if◌then◌else◌, between, ==_iff, Bool-cases,
  Option-cases, length, any, all, find, keep, length-append, any-append, all-append, All, all_iff,
  All-keep, keep_of_All, keep_idempotent, All-append, All-map,
}
use mathlib.Core.List.{append_assoc}
use beanstream.Text.{Str}
use beanstream.Error.{Result, ok, err, request_aborted}
use beanstream.Request.Exec.{Exec, pure, lift, continue, ◌>>=◌}
use beanstream.Request.World.{Outbound, World, Env}

-- The run of a future that nothing drops.
abbrev pub undropped : Env → Env
undropped env = record env { dropped = λ w. false }

-- The last one of a record stands first, so that what was recorded before is the end of it.
abbrev pub IsEndOf {ℓ} : {A : Type ℓ} → List A → List A → Type ℓ
IsEndOf {A = A} xs ys = (zs : List A) × (ys ≡ zs ++ xs)

IsEndOf_trans {ℓ} : {A : Type ℓ} {xs ys zs : List A} → IsEndOf xs ys → IsEndOf ys zs → IsEndOf xs zs
IsEndOf_trans {xs = xs} (us, e) (vs, k) = (vs ++ us, rw (k, e) (sym (append_assoc vs us xs)))

-- All that the first world records is recorded in the second, and before anything else: the
-- requests, the names that were resolved, the sleeps and the calls of the progress callback.
pub record Precedes (w w' : World) : Type 0 where
  pub sent : IsEndOf w.sent w'.sent
  pub resolved : IsEndOf w.resolved w'.resolved
  pub slept : IsEndOf w.slept w'.slept
  pub progressed : IsEndOf w.progressed w'.progressed

pub Precedes-refl : (w : World) → Precedes w w
Precedes-refl w = record {
  sent = ([], refl);
  resolved = ([], refl);
  slept = ([], refl);
  progressed = ([], refl);
}

pub Precedes-trans : {u v w : World} → Precedes u v → Precedes v w → Precedes u w
Precedes-trans p q = record {
  sent = IsEndOf_trans p.sent q.sent;
  resolved = IsEndOf_trans p.resolved q.resolved;
  slept = IsEndOf_trans p.slept q.slept;
  progressed = IsEndOf_trans p.progressed q.progressed;
}

-- `r` is `s`, or the future was dropped in the world of `r`, with the result of an abort, and what
-- is recorded there precedes what is recorded behind `s`.
abbrev pub IsCutOff : {A : Type 0} → Env → Result A × World → Result A × World → Type 0
IsCutOff env r s =
    (r ≡ s) ⊎ ((r.0 ≡ err request_aborted) × (env.dropped r.1 ≡ true) × Precedes r.1 s.1)

-- `m` is `n`, or is cut off before `n` ends; and `n` only adds to what is recorded.
unfoldable pub CutsOff : {A : Type 0} → Env → Exec World A → Exec World A → Type 0
CutsOff env m n = (w : World) → Precedes w (n w).1 × IsCutOff env (m w) (n w)

module _ (env : Env) where
  pub CutsOff-lift : {A : Type 0} (r : Result A) → CutsOff env (lift r) (lift r)
  unfolding CutsOff
  CutsOff-lift r w = (Precedes-refl w, inl refl)

  pub CutsOff-same :
      {A : Type 0} (m n : Exec World A)
      → ((w : World) → m w ≡ n w)
      → ((w : World) → Precedes w (n w).1)
      → CutsOff env m n
  unfolding CutsOff
  CutsOff-same m n same grows w = (grows w, inl (same w))

  pub CutsOff-if :
      {A : Type 0} (b : Bool) (m m' n n' : Exec World A)
      → CutsOff env m m'
      → CutsOff env n n'
      → CutsOff env (if b then m else n) (if b then m' else n')
  CutsOff-if true m m' n n' h k = h
  CutsOff-if false m m' n n' h k = k

  module _ {A B : Type 0} where
    continue-CutsOff :
        (r : Result A) (f g : A → Exec World B) (w : World)
        → ((a : A) → CutsOff env (f a) (g a))
        → Precedes w (continue r g w).1 × IsCutOff env (continue r f w) (continue r g w)
    unfolding CutsOff
    continue-CutsOff (ok a) f g w h = h a w
    continue-CutsOff (err e) f g w h = (Precedes-refl w, inl refl)

    pub CutsOff-bind :
        (m n : Exec World A) (f g : A → Exec World B)
        → CutsOff env m n
        → ((a : A) → CutsOff env (f a) (g a))
        → CutsOff env (◌>>=◌ m f) (◌>>=◌ n g)
    unfolding CutsOff
    CutsOff-bind m n f g h k w =
        let (grows, first) = h w in
        let (later, rest) = continue-CutsOff (n w).0 f g (n w).1 k in
        (
          Precedes-trans grows later,
          elim first [
            | inl e ↦ rw e rest
            | inr (a, d, p) ↦ inr (rw a refl, rw a d, rw a (Precedes-trans p later))
          ],
        )

    pub CutsOff-try :
        (r : Result A) (f g : A → Exec World B)
        → ((a : A) → CutsOff env (f a) (g a))
        → CutsOff env (◌>>=◌ (lift r) f) (◌>>=◌ (lift r) g)
    CutsOff-try r f g k = CutsOff-bind (lift r) (lift r) f g (CutsOff-lift r) k
