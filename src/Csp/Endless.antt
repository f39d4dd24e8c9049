-- ===== src/Csp/Endless.antt =====
-- storageprovider/csp/container_storage_provider.go: invoke against a CSP that accepts each login and
-- refuses each token.
use common_host_libs.Prelude.{ℕ, zero, suc, ◌≡◌, refl, ap, ◌∙◌, false, Option, none}
use common_host_libs.Prelude.Text.{Text, is_nil}
use common_host_libs.Connectivity.{Net, Request, Targets, Decoded}
use common_host_libs.Csp.{Credentials, ErrorsPayload, Json, State, ok, endless}
use common_host_libs.Csp.Session.{checked_login, invoke}
use common_host_libs.Csp.Relogin.{answer, behind, invoke_expired}

module _ {Body W V Node Info A : Type 0} (net : Net Body W) (json : Json Body V Node Info)
    (creds : Credentials) (prefix : Text) (r : Request Body A (Option ErrorsPayload))
    (Refusing : State W → Type 0) where
  abbrev pub with_errors :
      Option (Body → Decoded (Option ErrorsPayload)) → Request Body A (Option ErrorsPayload)
  with_errors d = record r { response_error = d }

  -- A state of the set has a token, a request with it is answered with the status 401, and the login
  -- behind it succeeds and leads back into the set.
  abbrev pub StaysRefusing : Type 0
  StaysRefusing =
      (d : Option (Body → Decoded (Option ErrorsPayload))) (t : Targets A (Option ErrorsPayload))
      (s : State W)
      → Refusing s
      → (is_nil s.auth_token ≡ false)
        × ((answer net json creds prefix (with_errors d) t s).0.status ≡ 401)
        × ((s' : State W) × (checked_login net json creds prefix
                (behind net json creds prefix (with_errors d) t s)
              ≡ (ok none, s'))
            × Refusing s')

  -- From a set of states in which a CSP refuses each token and accepts each login, no number of rounds
  -- is enough for invoke to return.
  pub invoke_endless :
      StaysRefusing
      → (fuel : ℕ) (d : Option (Body → Decoded (Option ErrorsPayload)))
        (t : Targets A (Option ErrorsPayload)) (s : State W)
      → Refusing s
      → (invoke net json creds prefix fuel (with_errors d) t s).0 ≡ endless
  unfolding invoke
  invoke_endless h zero d t s x = refl
  invoke_endless h (suc fuel) d t s x =
      let (e, k, (s', l, y)) = h d t s x in
      ap (λ o. o.0) (invoke_expired net json creds prefix fuel (with_errors d) t s e s' k l)
      ∙ invoke_endless h fuel none (answer net json creds prefix (with_errors d) t s).0.targets s' y
