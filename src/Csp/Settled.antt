-- ===== src/Csp/Settled.antt =====
-- storageprovider/csp/container_storage_provider.go: the status and the error that invoke returns.
use common_host_libs.Prelude.{
  ℕ, zero, suc, ◌≡◌, ◌≢◌, refl, subst, false, Bool-cases, Option, none, some, inl, inr, ◌==◌, arith,
}
use common_host_libs.Prelude.Text.{Text, is_nil}
use common_host_libs.Connectivity.{Net, Request, Targets, Answer, ok_status}
use common_host_libs.Csp.{
  Credentials, ErrorsPayload, CspError, Json, State, Outcome, ok, panics, endless, M, then_run,
}
use common_host_libs.Csp.Session.{
  Reply, Round, done, again, login, login_result, checked_login, ensure_token, next_round, judge,
  with_token, round, continued, invoke, send,
}

-- Whatever a call returns has the property.
abbrev Holds : {W A : Type 0} → (A → Type 0) → Outcome A × State W → Type 0
Holds P (ok a, s) = P a
Holds P (panics, s) = Unit {0}
Holds P (endless, s) = Unit {0}

Holds-then_run :
    {W A B : Type 0} (P : A → Type 0) (Q : B → Type 0) (x : Outcome A × State W) (f : A → M W B)
    → Holds P x
    → ((a : A) (s : State W) → P a → Holds Q (f a s))
    → Holds Q (then_run x f)
Holds-then_run P Q (ok a, s) f h k = k a s h
Holds-then_run P Q (panics, s) f h k = tt
Holds-then_run P Q (endless, s) f h k = tt

Holds-trivial : {W A : Type 0} (x : Outcome A × State W) → Holds (λ a. Unit {0}) x
Holds-trivial (ok a, s) = tt
Holds-trivial (panics, s) = tt
Holds-trivial (endless, s) = tt

-- A reply with the status 200 has no error, and one with the status 401 has one.
abbrev pub IsSettled : {A : Type 0} → Reply A → Type 0
IsSettled r = (r.status ≡ 200 → r.err ≡ none) × (r.status ≡ 401 → r.err ≢ none)

abbrev IsSettledRound : {A : Type 0} → Round A → Type 0
IsSettledRound (done r) = IsSettled r
IsSettledRound (again t) = Unit {0}

-- A login that fails has a status other than 200.
abbrev IsFailure : Option (ℕ × CspError) → Type 0
IsFailure none = Unit {0}
IsFailure (some (status, e)) = (status == ok_status) ≡ false

module _ {Body W V Node Info : Type 0} (net : Net Body W) (json : Json Body V Node Info)
    (creds : Credentials) (prefix : Text) where
  login_result-Holds :
      (r : ℕ × Option CspError) (s : State W)
      → Holds IsFailure (login_result net json creds prefix r s)
  login_result-Holds (status, none) s = elim (Bool-cases (status == ok_status)) [
    | inl p ↦ rw p tt
    | inr p ↦ rw p tt
  ]
  login_result-Holds (status, some e) s = elim (Bool-cases (status == ok_status)) [
    | inl p ↦ rw p refl
    | inr p ↦ rw p p
  ]

  checked_login-Holds : (s : State W) → Holds IsFailure (checked_login net json creds prefix s)
  unfolding checked_login
  checked_login-Holds s =
      Holds-then_run (λ r. Unit {0}) IsFailure (login net json creds prefix s)
        (login_result net json creds prefix) (Holds-trivial (login net json creds prefix s))
        (λ r s' h. login_result-Holds r s')

  ensure_token-Holds : (s : State W) → Holds IsFailure (ensure_token net json creds prefix s)
  unfolding ensure_token
  ensure_token-Holds s = elim (Bool-cases (is_nil s.auth_token)) [
    | inl p ↦ rw p (checked_login-Holds s)
    | inr p ↦ rw p tt
  ]

  module _ {A : Type 0} where
    failure-IsSettled :
        (t : Targets A (Option ErrorsPayload)) (status : ℕ) (e : CspError)
        → (status == ok_status) ≡ false
        → IsSettled (record { targets = t; status = status; err = some e })
    failure-IsSettled t status e h = (λ k. absurd (ground (arith, h, k)), λ k q. ground (arith, q))

    next_round-Holds :
        (t : Targets A (Option ErrorsPayload)) (r : Option (ℕ × CspError)) (s : State W)
        → IsFailure r
        → Holds IsSettledRound (next_round net json creds prefix t r s)
    next_round-Holds t none s h = tt
    next_round-Holds t (some (status, e)) s h = failure-IsSettled t status e h

    judge-Holds :
        (a : Answer Body A (Option ErrorsPayload)) (s : State W)
        → Holds IsSettledRound (judge net json creds prefix a s)
    unfolding judge
    judge-Holds a s = elim (Bool-cases (a.status == ok_status)) [
      | inl p ↦ rw p (λ k. refl, λ k. absurd (ground (arith, p, k)))
      | inr p ↦ elim (Bool-cases (a.status == 401)) [
        | inl q ↦
            rw (p, q)
              (Holds-then_run IsFailure IsSettledRound (checked_login net json creds prefix s)
                (next_round net json creds prefix a.targets) (checked_login-Holds s)
                (next_round-Holds a.targets))
        | inr q ↦ rw (p, q) (λ k. absurd (ground (arith, p, k)), λ k. absurd (ground (arith, q, k)))
      ]
    ]

    with_token-Holds :
        (r : Request Body A (Option ErrorsPayload)) (t : Targets A (Option ErrorsPayload))
        (o : Option (ℕ × CspError)) (s : State W)
        → IsFailure o
        → Holds IsSettledRound (with_token net json creds prefix r t o s)
    with_token-Holds r t none s h =
        Holds-then_run (λ a. Unit {0}) IsSettledRound (send net json creds prefix r t s)
          (judge net json creds prefix) tt (λ a s' k. judge-Holds a s')
    with_token-Holds r t (some (status, e)) s h = failure-IsSettled t status e h

    round-Holds :
        (r : Request Body A (Option ErrorsPayload)) (t : Targets A (Option ErrorsPayload))
        (s : State W)
        → Holds IsSettledRound (round net json creds prefix r t s)
    unfolding round
    round-Holds r t s =
        Holds-then_run IsFailure IsSettledRound (ensure_token net json creds prefix s)
          (with_token net json creds prefix r t) (ensure_token-Holds s) (with_token-Holds r t)

    continued-Holds :
        (later : Targets A (Option ErrorsPayload) → M W (Reply A)) (x : Round A) (s : State W)
        → ((t : Targets A (Option ErrorsPayload)) → Holds IsSettled (later t s))
        → IsSettledRound x
        → Holds IsSettled (continued net json creds prefix later x s)
    continued-Holds later (done reply) s l h = h
    continued-Holds later (again t) s l h = l t

    invoke-Holds :
        (fuel : ℕ) (r : Request Body A (Option ErrorsPayload))
        (t : Targets A (Option ErrorsPayload)) (s : State W)
        → Holds IsSettled (invoke net json creds prefix fuel r t s)
    unfolding invoke
    invoke-Holds zero r t s = tt
    invoke-Holds (suc fuel) r t s =
        Holds-then_run IsSettledRound IsSettled (round net json creds prefix r t s)
          (continued net json creds prefix
            (invoke net json creds prefix fuel (record r { response_error = none })))
          (round-Holds r t s)
          (λ x s'.
            continued-Holds (invoke net json creds prefix fuel (record r { response_error = none }))
              x s' (λ t'. invoke-Holds fuel (record r { response_error = none }) t' s'))

    -- Whatever the answers are and however many rounds it takes, a reply of invoke with the status 200
    -- has no error, and one with the status 401 has one: no refused token passes for an answer.
    pub invoke-IsSettled :
        (fuel : ℕ) (r : Request Body A (Option ErrorsPayload))
        (t : Targets A (Option ErrorsPayload)) (s s' : State W) (reply : Reply A)
        → invoke net json creds prefix fuel r t s ≡ (ok reply, s')
        → IsSettled reply
    invoke-IsSettled fuel r t s s' reply e = subst (Holds IsSettled) e (invoke-Holds fuel r t s)
