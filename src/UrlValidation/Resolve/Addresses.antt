-- ===== src/UrlValidation/Resolve/Addresses.antt =====
-- What is resolved: each answer once, and none of them refused.
use beanstream.Prelude.{
  ◌≡◌, refl, sym, ◌∙◌, ◌↔◌, inl, inr, true, false, ◌||◌, List, [], ◌∷◌, ◌++◌, arith, Bool-cases,
  any-append, All,
}
use beanstream.Text.{Str}
use beanstream.Net.{IpAddr, ip_eq, ip_eq_iff}
use beanstream.Error.{ok, >>=-eq-ok}
use beanstream.Crates.{Crates}
use beanstream.UrlValidation.Ip.{is_blocked_ip}
use beanstream.UrlValidation.Resolve.{
  Lookup, answered, contains_ip, push_distinct, resolve_host, refuse_blocked,
  validate_ip_access_async,
}

module _ (crates : Crates) where
  abbrev IsOpen : IpAddr → Type 0
  IsOpen a = is_blocked_ip crates a ≡ false

  refuse_blocked_iff :
      (addresses : List IpAddr) → (refuse_blocked crates addresses ≡ ok tt) ↔ All IsOpen addresses
  unfolding refuse_blocked
  refuse_blocked_iff [] = (λ h. tt, λ h. refl)
  refuse_blocked_iff (a ∷ addresses) =
      let ih = refuse_blocked_iff addresses in
      (
        λ h. (ground arith, ih.0 (ground arith)),
        λ h. let open_first = h.0 in let later = ih.1 h.1 in ground arith,
      )

  -- What `validate_ip_access_async` returns is all that the name resolves to, and none of it is a
  -- blocked address.
  pub validate_ip_access_async-IsOpen :
      (host : Str) (lookup : Lookup) (addresses : List IpAddr)
      → validate_ip_access_async crates host lookup ≡ ok addresses
      → (resolve_host host lookup ≡ ok addresses) × All IsOpen addresses
  unfolding validate_ip_access_async
  validate_ip_access_async-IsOpen host lookup addresses h =
      let (found, e, h1) = >>=-eq-ok (resolve_host host lookup) _ h in
      let (u, k, h2) = >>=-eq-ok (refuse_blocked crates found) _ h1 in
      let same : addresses ≡ found = cc in rw same (e, (refuse_blocked_iff found).0 k)

ip_eq_refl : (x : IpAddr) → ip_eq x x ≡ true
ip_eq_refl x = (ip_eq_iff x x).1 refl

-- What is kept contains an address exactly when it was known or is among the answers.
contains-push_distinct :
    (x : IpAddr) (known answers : List IpAddr)
    → contains_ip (push_distinct known answers) x ≡ (contains_ip known x || contains_ip answers x)
unfolding push_distinct contains_ip
contains-push_distinct x known [] = ground arith
contains-push_distinct x known (a ∷ answers) =
    let iff = ip_eq_iff a x in
    elim (Bool-cases (contains_ip known a)) [
      | inl e ↦
          let ih = contains-push_distinct x known answers in
          elim (Bool-cases (ip_eq a x)) [
            | inl same ↦
                let k : contains_ip known x ≡ true = rw (sym (iff.0 same)) e in ground arith
            | inr other ↦ ground arith
          ]
      | inr e ↦
          let ih = contains-push_distinct x (known ++ a ∷ []) answers in
          let both = any-append (λ y. ip_eq y x) known (a ∷ []) in ground arith
    ]

-- No two addresses of the list are equal.
abbrev pub IsDistinct : List IpAddr → Type 0
IsDistinct [] = Unit
IsDistinct (a ∷ rest) = (contains_ip rest a ≡ false) × IsDistinct rest

IsDistinct-append :
    (known : List IpAddr) (a : IpAddr)
    → IsDistinct known
    → contains_ip known a ≡ false
    → IsDistinct (known ++ a ∷ [])
unfolding contains_ip
IsDistinct-append [] a h e = (refl, tt)
IsDistinct-append (x ∷ known) a h e =
    let iff = ip_eq_iff x a in
    let back = ip_eq_iff a x in
    let split = any-append (λ y. ip_eq y x) known (a ∷ []) in
    let ih = IsDistinct-append known a h.1 (ground arith) in
    let first = h.0 in
    (
      elim (Bool-cases (ip_eq a x)) [
        | inl same ↦ absurd (let k = iff.1 (sym (back.0 same)) in ground arith)
        | inr other ↦ ground arith
      ],
      ih,
    )

push_distinct-IsDistinct :
    (known answers : List IpAddr) → IsDistinct known → IsDistinct (push_distinct known answers)
unfolding push_distinct
push_distinct-IsDistinct known [] h = h
push_distinct-IsDistinct known (a ∷ answers) h = elim (Bool-cases (contains_ip known a)) [
  | inl e ↦ rw e (push_distinct-IsDistinct known answers h)
  | inr e ↦
      rw e (push_distinct-IsDistinct (known ++ a ∷ []) answers (IsDistinct-append known a h e))
]

-- Resolution succeeds on a non-empty answer, with a list that has no address twice and that
-- contains exactly the addresses of the answer.
resolve_host-IsDistinct :
    (host : Str) (a : IpAddr) (answers : List IpAddr)
    → (addresses : List IpAddr) × (resolve_host host (answered (a ∷ answers)) ≡ ok addresses)
      × IsDistinct addresses
      × ((x : IpAddr) → contains_ip addresses x ≡ contains_ip (a ∷ answers) x)
unfolding resolve_host contains_ip
resolve_host-IsDistinct host a answers = (
  push_distinct [] (a ∷ answers),
  refl,
  push_distinct-IsDistinct [] (a ∷ answers) tt,
  λ x. contains-push_distinct x [] (a ∷ answers) ∙ refl,
)
