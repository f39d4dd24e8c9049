-- ===== src/Csp/Logins.antt =====
-- storageprovider/csp/container_storage_provider.go: login and what follows it.
use common_host_libs.Prelude.{
  ℕ, ◌≡◌, refl, sym, ap, ◌∙◌, false, Option, none, some, ◌==◌, arith, inl, inr, Bool-cases,
  Option-cases,
}
use common_host_libs.Prelude.Text.{Text}
use common_host_libs.Connectivity.{Net, Request, Answer, ok_status, do_json}
use common_host_libs.Csp.{
  Credentials, Token, ErrorsPayload, CspError, text, Json, State, Outcome, ok, panics, endless,
  error_string, failed_text, handle_error, then_run,
}
use common_host_libs.Csp.Session.{
  token_request, zero_token, logged_in, login, login_result, finished, checked_login, text_error,
  first_login,
}

text_error-none : (err : Option Text) → text_error err ≡ none → err ≡ none
text_error-none none e = refl
text_error-none (some m) e = ground (arith, e)

module _ {Body W V Node Info : Type 0} (net : Net Body W) (json : Json Body V Node Info)
    (creds : Credentials) (prefix : Text) where
  abbrev pub login_answer : State W → Answer Body (Option Token) (Option ErrorsPayload) × W
  login_answer s =
      do_json net prefix (token_request net json creds prefix)
        (record { response = some (zero_token net json creds prefix); response_error = none })
        s.world

  -- What follows the answer to a login.
  abbrev judged :
      Answer Body (Option Token) (Option ErrorsPayload) × W
      → State W
      → Outcome (Option (ℕ × CspError)) × State W
  judged (a, w) s =
      then_run (logged_in net json creds prefix a (record s { world = w }))
        (login_result net json creds prefix)

  checked_login-judged :
      (s : State W) → checked_login net json creds prefix s ≡ judged (login_answer s) s
  unfolding checked_login login
  checked_login-judged s = refl

  judged_created :
      (r : Request Body (Option Token) (Option ErrorsPayload)) (token : Token) (status : ℕ) (w : W)
      (s : State W)
      → (status == ok_status) ≡ false
      → judged
          (
            record {
              request = r;
              targets = record { response = some token; response_error = none };
              status = status;
              err = none;
            },
            w,
          )
          s
        ≡ (panics, record s { auth_token = token.session_token; world = w })
  judged_created r token status w s k = rw k refl

  -- A login whose answer has another status than 200, a token and no error, as it is with 201 and 204,
  -- makes the code call a method of a nil error: NewContainerStorageProvider panics.
  pub first_login_created :
      (r : Request Body (Option Token) (Option ErrorsPayload)) (token : Token) (status : ℕ) (w : W)
      (s : State W)
      → login_answer s ≡ (
        record {
          request = r;
          targets = record { response = some token; response_error = none };
          status = status;
          err = none;
        },
        w,
      )
      → (status == ok_status) ≡ false
      → first_login net json creds prefix s
        ≡ (panics, record s { auth_token = token.session_token; world = w })
  unfolding first_login
  first_login_created r token status w s e k =
      ap (λ x. then_run x (finished net json creds prefix))
        (checked_login-judged s ∙ ap (λ a. judged a s) e ∙ judged_created r token status w s k)

  login_result-none :
      (status : ℕ) (err : Option CspError) (s s' : State W)
      → login_result net json creds prefix (status, err) s ≡ (ok none, s')
      → (status ≡ ok_status) × (err ≡ none) × (s' ≡ s)
  login_result-none status none s s' h = elim (Bool-cases (status == ok_status)) [
    | inl p ↦
        let e : login_result net json creds prefix (status, none) s ≡ (ok none, s) = rw p refl in
        (ground arith, refl, ap (λ o. o.1) (sym h ∙ e))
    | inr p ↦ ground (arith, h, p)
  ]
  login_result-none status (some e) s s' h = elim (Bool-cases (status == ok_status)) [
    | inl p ↦ ground (arith, h, p)
    | inr p ↦ ground (arith, h, p)
  ]

  -- A login that has succeeded: its answer has the status 200, no error and no error payload, and the
  -- token of the answer is the provider's.
  abbrev pub IsReady : Answer Body (Option Token) (Option ErrorsPayload) × W → State W → Type 0
  IsReady x s' =
      (x.0.status ≡ ok_status)
      × (x.0.err ≡ none)
      × (x.0.targets.response_error ≡ none)
      × ((token : Token) × (x.0.targets.response ≡ some token)
          × (s' ≡ record { auth_token = token.session_token; world = x.1 }))

  judged-IsReady :
      (r : Request Body (Option Token) (Option ErrorsPayload)) (es : Option ErrorsPayload)
      (token : Option Token) (status : ℕ) (err : Option Text) (w : W) (s s' : State W)
      → judged
          (
            record {
              request = r;
              targets = record { response = token; response_error = es };
              status = status;
              err = err;
            },
            w,
          )
          s
        ≡ (ok none, s')
      → IsReady
          (
            record {
              request = r;
              targets = record { response = token; response_error = es };
              status = status;
              err = err;
            },
            w,
          )
          s'
  judged-IsReady r (some es) token status err w s s' h = elim (Option-cases (error_string es)) [
    | inl p ↦ ground (arith, h, p)
    | inr (m, p) ↦
        let s₁ : State W = record s { world = w } in
        let e : judged
              (
                record {
                  request = r;
                  targets = record { response = token; response_error = some es };
                  status = status;
                  err = err;
                },
                w,
              )
              s
            ≡ login_result net json creds prefix (status, some (text (failed_text status m))) s₁ =
          rw (handle_error, p) refl in
        let (_, q, _) =
          login_result-none status (some (text (failed_text status m))) s₁ s' (sym e ∙ h) in
        ground (arith, q)
  ]
  judged-IsReady r none none status err w s s' h = ground (arith, h)
  judged-IsReady r none (some token) status err w s s' h =
      let (p, q, e) = login_result-none status (text_error err) _ s' h in
      (p, text_error-none err q, refl, (token, refl, e))

  finished-none :
      (x : Outcome (Option (ℕ × CspError)) × State W) (s' : State W)
      → then_run x (finished net json creds prefix) ≡ (ok none, s')
      → x ≡ (ok none, s')
  finished-none (ok none, s) s' h = ap (λ o. (ok none, o.1)) h
  finished-none (ok (some (status, e)), s) s' h = ground (arith, h)
  finished-none (panics, s) s' h = ground (arith, h)
  finished-none (endless, s) s' h = ground (arith, h)

  -- NewContainerStorageProvider returns a provider only if its login has succeeded.
  pub first_login-IsReady :
      (s s' : State W)
      → first_login net json creds prefix s ≡ (ok none, s')
      → IsReady (login_answer s) s'
  unfolding first_login
  first_login-IsReady s s' h =
      let a = (login_answer s).0 in
      judged-IsReady a.request a.targets.response_error a.targets.response a.status a.err
        (login_answer s).1 s s'
        (sym (checked_login-judged s) ∙ finished-none (checked_login net json creds prefix s) s' h)
