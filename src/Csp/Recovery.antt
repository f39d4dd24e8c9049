-- ===== src/Csp/Recovery.antt =====
-- storageprovider/csp/container_storage_provider.go: invoke against a CSP that refuses some tokens.
use common_host_libs.Prelude.{ℕ, zero, suc, ◌≡◌, false, Option, none, ◌==◌}
use common_host_libs.Prelude.Text.{Text, is_nil}
use common_host_libs.Connectivity.{Net, Request, Targets, Decoded}
use common_host_libs.Csp.{Credentials, ErrorsPayload, Json, State, ok}
use common_host_libs.Csp.Session.{Reply, checked_login, invoke}
use common_host_libs.Csp.Relogin.{answer, behind}

module _ {Body W V Node Info A : Type 0} (net : Net Body W) (json : Json Body V Node Info)
    (creds : Credentials) (prefix : Text) (r : Request Body A (Option ErrorsPayload)) where
  abbrev pub with_decoder :
      Option (Body → Decoded (Option ErrorsPayload)) → Request Body A (Option ErrorsPayload)
  with_decoder d = record r { response_error = d }

  -- That many tokens in a row are refused with the status 401, each time with a login behind it that
  -- succeeds; the answer to the token after these has another status.
  abbrev pub RecoversAfter :
      ℕ
      → Option (Body → Decoded (Option ErrorsPayload))
      → Targets A (Option ErrorsPayload)
      → State W
      → Type 0
  RecoversAfter zero d t s =
      (is_nil s.auth_token ≡ false)
      × (((answer net json creds prefix (with_decoder d) t s).0.status == 401) ≡ false)
  RecoversAfter (suc n) d t s =
      (is_nil s.auth_token ≡ false)
      × ((answer net json creds prefix (with_decoder d) t s).0.status ≡ 401)
      × ((s' : State W) × (checked_login net json creds prefix
              (behind net json creds prefix (with_decoder d) t s)
            ≡ (ok none, s'))
          × RecoversAfter n none (answer net json creds prefix (with_decoder d) t s).0.targets s')

  -- More than n rounds are enough for it, and the reply has a status other than 401.
  abbrev pub Returns :
      ℕ
      → Option (Body → Decoded (Option ErrorsPayload))
      → Targets A (Option ErrorsPayload)
      → State W
      → Type 0
  Returns rounds d t s =
      (reply : Reply A) × (s' : State W) × (invoke net json creds prefix rounds (with_decoder d) t s
        ≡ (ok reply, s'))
      × ((reply.status == 401) ≡ false)
