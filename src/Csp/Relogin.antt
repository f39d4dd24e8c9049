-- ===== src/Csp/Relogin.antt =====
-- storageprovider/csp/container_storage_provider.go: invoke when a token has expired.
use common_host_libs.Prelude.{
  ℕ, suc, ◌≡◌, refl, ap, ◌∙◌, false, Option, none, inl, inr, ◌==◌, if◌then◌else◌, Bool-cases,
}
use common_host_libs.Prelude.Text.{Text, is_nil}
use common_host_libs.Connectivity.{Net, Request, Targets, Answer, ok_status, do_json}
use common_host_libs.Csp.{Credentials, ErrorsPayload, Json, State, Outcome, ok, then_run}
use common_host_libs.Csp.Session.{
  Reply, Round, done, again, text_error, headers, checked_login, ensure_token, judge, round,
  continued, invoke, next_round,
}

module _ {Body W V Node Info A : Type 0} (net : Net Body W) (json : Json Body V Node Info)
    (creds : Credentials) (prefix : Text) where
  -- The answer to a request with the token of the state, and the state behind it.
  abbrev pub answer :
      Request Body A (Option ErrorsPayload)
      → Targets A (Option ErrorsPayload)
      → State W
      → Answer Body A (Option ErrorsPayload) × W
  answer r t s =
      do_json net prefix (record r { header = headers net json creds prefix s.auth_token }) t
        s.world

  abbrev pub behind :
      Request Body A (Option ErrorsPayload) → Targets A (Option ErrorsPayload) → State W → State W
  behind r t s = record s { world = (answer r t s).1 }

  abbrev pub replied : Answer Body A (Option ErrorsPayload) → Reply A
  replied a = record {
    targets = a.targets;
    status = a.status;
    err = if a.status == ok_status then none else text_error a.err;
  }

  abbrev pub retried : Request Body A (Option ErrorsPayload) → Request Body A (Option ErrorsPayload)
  retried r = record r { response_error = none }

  round_sent :
      (r : Request Body A (Option ErrorsPayload)) (t : Targets A (Option ErrorsPayload))
      (s : State W)
      → is_nil s.auth_token ≡ false
      → round net json creds prefix r t s
        ≡ judge net json creds prefix (answer r t s).0 (behind r t s)
  unfolding round ensure_token
  round_sent r t s e = rw e refl

  module _ (a : Answer Body A (Option ErrorsPayload)) (s : State W) where
    judge_answered :
        (a.status == 401) ≡ false → judge net json creds prefix a s ≡ (ok (done (replied a)), s)
    unfolding judge
    judge_answered k = elim (Bool-cases (a.status == ok_status)) [
      | inl p ↦ rw p refl
      | inr p ↦ rw (p, k) refl
    ]

    judge_expired :
        (s' : State W)
        → a.status ≡ 401
        → checked_login net json creds prefix s ≡ (ok none, s')
        → judge net json creds prefix a s ≡ (ok (again a.targets), s')
    unfolding judge
    judge_expired s' k l =
        rw (ap (λ n. n == ok_status) k, ap (λ n. n == 401) k)
          (ap (λ x. then_run x (next_round net json creds prefix a.targets)) l)

  module _ (fuel : ℕ) (r : Request Body A (Option ErrorsPayload))
      (t : Targets A (Option ErrorsPayload)) (s : State W) (e : is_nil s.auth_token ≡ false) where
    -- What invoke makes of its first round.
    abbrev rest : Outcome (Round A) × State W → Outcome (Reply A) × State W
    rest x =
        then_run x
          (continued net json creds prefix (λ t'. invoke net json creds prefix fuel (retried r) t'))

    invoke_judged :
        (x : Outcome (Round A) × State W)
        → judge net json creds prefix (answer r t s).0 (behind r t s) ≡ x
        → invoke net json creds prefix (suc fuel) r t s ≡ rest x
    unfolding invoke
    invoke_judged x j = ap rest (round_sent r t s e ∙ j)

    -- With a token, invoke sends one request if the answer does not have the status 401; it returns what
    -- this leaves in the caller's variables and its status, with no error if that is 200.
    pub invoke_answered :
        ((answer r t s).0.status == 401) ≡ false
        → invoke net json creds prefix (suc fuel) r t s
          ≡ (ok (replied (answer r t s).0), behind r t s)
    invoke_answered k = invoke_judged _ (judge_answered (answer r t s).0 (behind r t s) k)

    pub invoke_expired :
        (s' : State W)
        → (answer r t s).0.status ≡ 401
        → checked_login net json creds prefix (behind r t s) ≡ (ok none, s')
        → invoke net json creds prefix (suc fuel) r t s
          ≡ invoke net json creds prefix fuel (retried r) (answer r t s).0.targets s'
    invoke_expired s' k l = invoke_judged _ (judge_expired (answer r t s).0 (behind r t s) s' k l)

  -- If the answer has the status 401, the login behind it gives a token and the answer to the request
  -- with that token has another status, two rounds are enough: invoke returns what the second answer
  -- leaves, and has sent nothing else.
  pub invoke_relogin :
      (fuel : ℕ) (r : Request Body A (Option ErrorsPayload)) (t : Targets A (Option ErrorsPayload))
      (s s' : State W)
      → is_nil s.auth_token ≡ false
      → (answer r t s).0.status ≡ 401
      → checked_login net json creds prefix (behind r t s) ≡ (ok none, s')
      → is_nil s'.auth_token ≡ false
      → ((answer (retried r) (answer r t s).0.targets s').0.status == 401) ≡ false
      → invoke net json creds prefix (suc (suc fuel)) r t s ≡ (
        ok (replied (answer (retried r) (answer r t s).0.targets s').0),
        behind (retried r) (answer r t s).0.targets s',
      )
  invoke_relogin fuel r t s s' e k l f m =
      invoke_expired (suc fuel) r t s e s' k l
      ∙ invoke_answered fuel (retried r) (answer r t s).0.targets s' f m
