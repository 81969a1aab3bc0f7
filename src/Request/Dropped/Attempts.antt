-- ===== src/Request/Dropped/Attempts.antt =====
-- Attempts, and the sleeps between them, of a request whose future is dropped.
use beanstream.Prelude.{
  ℕ, zero, suc, ◌≡◌, refl, inl, inr, true, Option, none, some, [], ◌∷◌, Bool-cases,
}
use beanstream.Error.{Result, err, request_aborted}
use beanstream.Retry.{RetryConfig}
use beanstream.Request.Exec.{Exec}
use beanstream.Request.World.{World, Env}
use beanstream.Request.Transport.{Exchange}
use beanstream.Request.Execute.{is_retryable, sleep, attempts}
use beanstream.Request.Dropped.{
  undropped, IsCutOff, Precedes, Precedes-refl, Precedes-trans, CutsOff,
}

Precedes-sleep :
    (env : Env) (retry : Option RetryConfig) (w : World) → Precedes w (sleep env retry w)
unfolding sleep
Precedes-sleep env none w = Precedes-refl w
Precedes-sleep env (some retry) w = record {
  sent = ([], refl);
  resolved = ([], refl);
  slept = (_ ∷ [], refl);
  progressed = ([], refl);
}

sleep-undropped :
    (env : Env) (retry : Option RetryConfig) (w : World)
    → sleep (undropped env) retry w ≡ sleep env retry w
unfolding sleep
sleep-undropped env none w = refl
sleep-undropped env (some retry) w = refl

-- An attempt in which the future is dropped is the last one, whatever the configuration repeats.
stopped-IsCutOff :
    (env : Env) (retry : Option RetryConfig) (left : ℕ) (m : Exec World Exchange) (w : World)
    (s : Result Exchange × World)
    → (m w).0 ≡ err request_aborted
    → env.dropped (m w).1 ≡ true
    → Precedes (m w).1 s.1
    → IsCutOff env (attempts env retry (suc left) m w) s
unfolding attempts
stopped-IsCutOff env retry left m w s a d p = elim (Bool-cases (is_retryable retry (m w).0)) [
  | inl e ↦ rw (e, d) (inr (refl, d, p))
  | inr e ↦ rw e (inr (a, d, p))
]

pub attempts-CutsOff :
    (env : Env) (retry : Option RetryConfig) (left : ℕ) (m n : Exec World Exchange)
    → CutsOff env m n
    → CutsOff env (attempts env retry left m) (attempts (undropped env) retry left n)
unfolding attempts CutsOff
attempts-CutsOff env retry zero m n h w = h w
attempts-CutsOff env retry (suc left) m n h w =
    let (grows, first) = h w in
    let asleep = sleep env retry (n w).1 in
    let slept = Precedes-sleep env retry (n w).1 in
    let (longer, later) = attempts-CutsOff env retry left m n h asleep in
    let all = Precedes-trans slept longer in
    let same = sleep-undropped env retry (n w).1 in
    elim (Bool-cases (is_retryable retry (n w).0)) [
      | inl e ↦ (
        rw (e, same) (Precedes-trans grows all),
        elim first [
          | inl k ↦ elim (Bool-cases (env.dropped (n w).1)) [
            | inl d ↦ rw (k, e, same, d) (inr (refl, d, all))
            | inr d ↦ elim (Bool-cases (env.dropped asleep)) [
              | inl s ↦ rw (k, e, same, d, s) (inr (refl, s, longer))
              | inr s ↦ rw (k, e, same, d, s) later
            ]
          ]
          | inr (a, d, p) ↦
              stopped-IsCutOff env retry left m w _ a d (rw (e, same) (Precedes-trans p all))
        ],
      )
      | inr e ↦ (
        rw e grows,
        elim first [
          | inl k ↦ rw (k, e) (inl refl)
          | inr (a, d, p) ↦ stopped-IsCutOff env retry left m w _ a d (rw e p)
        ],
      )
    ]
