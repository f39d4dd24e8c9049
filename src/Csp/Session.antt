-- ===== src/Csp/Session.antt =====
-- storageprovider/csp/container_storage_provider.go: getCspClient, login and invoke.
use common_host_libs.Prelude.{
  ℕ, zero, suc, Bool, false, [], ◌∷◌, ◌++◌, Option, none, some, ◌==◌, if◌then◌else◌,
}
use common_host_libs.Prelude.Int.{ℤ, pos, negsuc, ltb_ℤ}
use common_host_libs.Prelude.Text.{Text, codes, decimal, is_nil}
use common_host_libs.Connectivity.{Headers, Net, Request, Targets, Answer, ok_status, do_json}
use common_host_libs.Csp.{
  Credentials, Token, ErrorsPayload, CspError, text, token_payload, Json, ok, endless, M, ◌>>=◌,
  pure, panic, handle_error,
}

abbrev pub decimal_ℤ : ℤ → Text
decimal_ℤ (pos n) = decimal 20 n
decimal_ℤ (negsuc n) = b'-' ∷ decimal 20 (suc n)

-- A connectivity.Client: the prefix of its paths, and its timeout in seconds.
pub record Client : Type 0 where
  pub path_prefix : Text
  pub timeout : ℤ

-- A timeout below one is replaced by the default of 60 seconds.
abbrev pub new_client_with_timeout : Text → ℤ → Client
new_client_with_timeout url timeout = record {
  path_prefix = url;
  timeout = if ltb_ℤ timeout (pos 1) then pos 60 else timeout;
}

abbrev pub is_zero : ℤ → Bool
is_zero (pos n) = n == 0
is_zero (negsuc n) = false

-- getCspClient, with the credentials in which it sets defaults.
unfoldable pub get_csp_client : Credentials → Client × Credentials
get_csp_client c =
    if is_nil c.service_name
    then (let c' : Credentials = record c {
      context_path = if is_nil c.context_path then codes "/csp" else c.context_path;
      service_port = if is_zero c.service_port then pos 443 else c.service_port;
    } in
        (
          new_client_with_timeout
              (codes "https://"
                ++ (c'.backend ++ (b':' ∷ (decimal_ℤ c'.service_port ++ c'.context_path))))
              (pos 300),
          c',
        ))
    else (let c' : Credentials = record c {
      csp_client_timeout = if is_zero c.csp_client_timeout then pos 60 else c.csp_client_timeout;
    } in
        (
          new_client_with_timeout
              (codes "http://" ++ (c.service_name ++ (b':' ∷ decimal_ℤ c.service_port)))
              c'.csp_client_timeout,
          c',
        ))

-- What invoke returns, with the caller's variables.
pub record Reply (A : Type 0) : Type 0 where
  pub targets : Targets A (Option ErrorsPayload)
  pub status : ℕ
  pub err : Option CspError

-- One round of invoke: it returns, or begins again after a login.
pub data Round (A : Type 0) : Type 0 where
  done : Reply A → Round A
  again : Targets A (Option ErrorsPayload) → Round A

abbrev pub text_error : Option Text → Option CspError
text_error none = none
text_error (some m) = some (text m)

module _ {Body W V Node Info : Type 0} (net : Net Body W) (json : Json Body V Node Info)
    (creds : Credentials) (prefix : Text) where
  abbrev pub call :
      {A : Type 0}
      → Request Body A (Option ErrorsPayload)
      → Targets A (Option ErrorsPayload)
      → M W (Answer Body A (Option ErrorsPayload))
  call r t s = let (a, w) = do_json net prefix r t s.world in (ok a, record s { world = w })

  abbrev pub set_token : Text → M W (Unit {0})
  set_token token s = (ok tt, record s { auth_token = token })

  -- A token request; the array's address goes along if a service stands in between.
  abbrev pub token_request : Request Body (Option Token) (Option ErrorsPayload)
  token_request = record {
    action = codes "POST";
    path = codes "/containers/v1/tokens";
    header = [];
    payload = some (
        json.encode (
          token_payload (record {
            username = creds.username;
            password = creds.password;
            array_ip = if is_nil creds.service_name then [] else creds.backend;
            session_token = [];
          })));
    response = some json.token;
    response_error = some json.errors;
  }

  abbrev pub zero_token : Token
  zero_token = record { username = []; password = []; array_ip = []; session_token = [] }

  -- login behind its request.
  abbrev pub logged_in :
      Answer Body (Option Token) (Option ErrorsPayload) → M W (ℕ × Option CspError)
  logged_in a = elim a.targets.response_error [
    | some es ↦ (do e ← handle_error a.status es; pure (a.status, some e))
    | none ↦ elim a.targets.response [
      | none ↦ panic
      | some token ↦ (do _ ← set_token token.session_token; pure (a.status, text_error a.err))
    ]
  ]

  unfoldable pub login : M W (ℕ × Option CspError)
  login = do
    a ← call token_request (record { response = some zero_token; response_error = none })
    logged_in a

  -- What follows each login: `none` to go on, or the status and the error to return. Where the status
  -- is not 200 and there is no error, its Error method is called on nil.
  abbrev pub login_result : ℕ × Option CspError → M W (Option (ℕ × CspError))
  login_result (status, err) =
      if status == ok_status
      then elim err [ none ↦ pure none | some e ↦ pure (some (500, e)) ]
      else elim err [ none ↦ panic | some e ↦ pure (some (status, e)) ]

  unfoldable pub checked_login : M W (Option (ℕ × CspError))
  checked_login = do r ← login; login_result r

  abbrev pub finished : Option (ℕ × CspError) → M W (Option CspError)
  finished none = pure none
  finished (some (status, e)) = pure (some e)

  -- NewContainerStorageProvider once it has its client; `none` is a provider that is ready.
  unfoldable pub first_login : M W (Option CspError)
  first_login = do r ← checked_login; finished r

  -- A login first if there is no token.
  unfoldable pub ensure_token : M W (Option (ℕ × CspError))
  ensure_token s = if is_nil s.auth_token then checked_login s else pure none s

  abbrev pub headers : Text → Headers
  headers token =
      (codes "x-auth-token", token)
      ∷ (if is_nil creds.service_name then [] else (codes "x-array-ip", creds.backend) ∷ [])

  module _ {A : Type 0} where
    -- The request with the token that the provider has by then.
    abbrev pub send :
        Request Body A (Option ErrorsPayload)
        → Targets A (Option ErrorsPayload)
        → M W (Answer Body A (Option ErrorsPayload))
    send r t s = call (record r { header = headers s.auth_token }) t s

    abbrev pub returned : Targets A (Option ErrorsPayload) → ℕ × CspError → M W (Round A)
    returned t (status, e) = pure (done (record { targets = t; status = status; err = some e }))

    abbrev pub next_round : Targets A (Option ErrorsPayload) → Option (ℕ × CspError) → M W (Round A)
    next_round t none = pure (again t)
    next_round t (some e) = returned t e

    -- What invoke makes of the answer of DoJSON.
    unfoldable pub judge : Answer Body A (Option ErrorsPayload) → M W (Round A)
    judge a =
        if a.status == ok_status
        then pure (done (record { targets = a.targets; status = a.status; err = none }))
        else if a.status == 401
        then (do r ← checked_login; next_round a.targets r)
        else pure (done (record { targets = a.targets; status = a.status; err = text_error a.err }))

    abbrev pub with_token :
        Request Body A (Option ErrorsPayload)
        → Targets A (Option ErrorsPayload)
        → Option (ℕ × CspError)
        → M W (Round A)
    with_token r t (some e) = returned t e
    with_token r t none = do a ← send r t; judge a

    unfoldable pub round :
        Request Body A (Option ErrorsPayload) → Targets A (Option ErrorsPayload) → M W (Round A)
    round r t = do e ← ensure_token; with_token r t e

    abbrev run_out : M W (Reply A)
    run_out s = (endless, s)

    abbrev pub continued :
        (Targets A (Option ErrorsPayload) → M W (Reply A)) → Round A → M W (Reply A)
    continued later (done reply) = pure reply
    continued later (again t) = later t

    -- invoke, for at most `fuel` rounds. A later round has no ResponseError: what the caller's variable
    -- holds by then stays there.
    unfoldable pub invoke :
        ℕ → Request Body A (Option ErrorsPayload) → Targets A (Option ErrorsPayload) → M W (Reply A)
    invoke zero r t = run_out
    invoke (suc fuel) r t = do
      step ← round r t
      continued (λ t'. invoke fuel (record r { response_error = none }) t') step
