-- ===== src/Csp/Tests.antt =====
-- storageprovider/csp/container_storage_provider.go: a small CSP, and runs of the client against it.
-- It accepts every login, after which the token is "new"; what it makes of other requests, given the
-- token and the path, is its first parameter.
mod Snapshots
use common_host_libs.Prelude.{
  ℕ, zero, suc, ◌+◌, ◌≡◌, refl, Bool, true, false, List, [], ◌∷◌, Option, none, some, String, inl,
  inr, Option-cases, if◌then◌else◌,
}
use common_host_libs.Prelude.Int.{ℤ, pos}
use common_host_libs.Prelude.Text.{Text, codes, text_eq, contains, is_nil}
use common_host_libs.Connectivity.{
  Net, HttpRequest, HttpResult, answered, failed, Decoded, encoded, Headers, Request, do_json, sent,
  do_with_retry, do_rounds, answer_of, Targets,
}
use common_host_libs.Model.{
  Volume, Snapshot, zero_volume, zero_snapshot, zero_volume_group, zero_snapshot_group,
}
use common_host_libs.Csp.{
  Credentials, Token, ErrorObject, ErrorsPayload, Json, State, ok, panics, endless, text,
  resource_exhausted, failed_text,
}
use common_host_libs.Csp.Session.{checked_login, login, invoke, ensure_token, judge, round}
use common_host_libs.Csp.Volumes.{create_volume}
use common_host_libs.Csp.Expired.{create_volume_expired, creation, fresh, left}
use common_host_libs.Csp.Relogin.{invoke_relogin, answer, retried}
use common_host_libs.Csp.Endless.{invoke_endless}

pub data Message : Type 0 where
  session : Text → Message
  refusal : ErrorsPayload → Message
  volume : Volume → Message
  snapshot : Snapshot → Message
  nothing : Message

abbrev pub only : {A : Type 0} → A → Decoded A
only a = record { value = some a; error = none }

abbrev pub no_value : {A : Type 0} → Decoded A
no_value = record { value = none; error = none }

abbrev errors_of : Message → Decoded (Option ErrorsPayload)
errors_of (refusal es) = only (some es)
errors_of _ = no_value

abbrev token_of : Message → Decoded (Option Token)
token_of (session t) =
    only (some (record { username = []; password = []; array_ip = []; session_token = t }))
token_of _ = no_value

abbrev volume_of : Message → Decoded (Option Volume)
volume_of (volume v) = only (some v)
volume_of _ = no_value

abbrev snapshot_of : Message → Decoded (Option Snapshot)
snapshot_of (snapshot v) = only (some v)
snapshot_of _ = no_value

abbrev pub json : Json Message String (Unit {0}) (Unit {0})
json = record {
  encode = λ p. encoded nothing;
  errors = errors_of;
  token = token_of;
  volume = volume_of;
  volumes = λ b. no_value;
  snapshot = snapshot_of;
  snapshots = λ b. no_value;
  volume_group = λ b. no_value;
  snapshot_group = λ b. no_value;
  publish_info = λ b. no_value;
  zero_info = tt;
  redecode_volume = λ o. inl zero_volume;
  redecode_snapshot = λ o. inl zero_snapshot;
  as_string = λ v. some v;
}

-- The world counts the requests.
abbrev token_of_headers : Headers → Text
token_of_headers [] = []
token_of_headers ((k, v) ∷ hs) = if text_eq k (codes "x-auth-token") then v else token_of_headers hs

abbrev pub net : (Text → Text → HttpResult Message) → Net Message ℕ
net serve = record {
  exchange = λ h w. (
    if contains h.path (codes "/tokens")
        then answered 200 (codes "200 OK") (session (codes "new"))
        else serve (token_of_headers h.header) h.path,
    suc w,
  );
  invalid = λ a p. none;
  sleep = λ n w. w;
}

abbrev pub creds : Credentials
creds = record {
  username = codes "admin";
  password = codes "admin";
  backend = codes "10.0.0.1";
  service_port = pos 443;
  context_path = codes "/csp";
  service_name = [];
  csp_client_timeout = pos 60;
}

abbrev pub unauthorized : ErrorsPayload
unauthorized = some (record { code = codes "Unauthorized"; message = codes "token expired" }) ∷ []

abbrev refused : HttpResult Message
refused = answered 401 (codes "401 Unauthorized") (refusal unauthorized)

-- The CSP knows only the token "new", under which it makes the volume.
abbrev serve : Text → Text → HttpResult Message
serve token path =
    if text_eq token (codes "new")
    then answered 200 (codes "200 OK") (volume zero_volume)
    else refused

abbrev expired : State ℕ
expired = record { auth_token = codes "old"; world = 0 }

renewed :
    checked_login (net serve) json creds [] (record expired { world = 1 })
    ≡ (ok none, record { auth_token = codes "new"; world = 2 })
unfolding checked_login login do_json sent do_with_retry do_rounds answer_of
renewed = refl

abbrev pub now_valid : State ℕ
now_valid = record { auth_token = codes "new"; world = 2 }

abbrev complaint : Text
complaint = codes "Error code (Unauthorized) and message (token expired)"

abbrev asked : Request Message (Option Volume) (Option ErrorsPayload)
asked = creation (net serve) json creds [] 0 "v" "" (pos 1) none expired now_valid

abbrev blank : Targets (Option Volume) (Option ErrorsPayload)
blank = record { response = some zero_volume; response_error = none }

relogin_run : invoke (net serve) json creds [] 2 asked blank expired ≡ (
  ok (record {
    targets = record { response = some zero_volume; response_error = some unauthorized };
    status = 200;
    err = none;
  }),
  record { auth_token = codes "new"; world = 3 },
)
unfolding do_json sent do_with_retry do_rounds answer_of checked_login login text_eq
relogin_run =
    invoke_relogin (net serve) json creds [] 0 asked blank expired now_valid refl refl refl refl
      refl

-- A CSP that knows no token at all.
abbrev HasToken : State ℕ → Type 0
HasToken s = is_nil s.auth_token ≡ false

abbrev asked_with :
    Option (Message → Decoded (Option ErrorsPayload))
    → Request Message (Option Volume) (Option ErrorsPayload)
asked_with d = record asked { response_error = d }

refusing_status :
    (d : Option (Message → Decoded (Option ErrorsPayload)))
    (t : Targets (Option Volume) (Option ErrorsPayload)) (s : State ℕ)
    → (answer (net (λ token path. refused)) json creds [] (asked_with d) t s).0.status ≡ 401
unfolding do_json sent do_with_retry do_rounds answer_of
refusing_status none t s = refl
refusing_status (some f) t s = elim (Option-cases (f (refusal unauthorized)).error) [
  | inl e ↦ rw e refl
  | inr (m, e) ↦ rw e refl
]

invoke_endless_example :
    (invoke (net (λ token path. refused)) json creds [] 5 asked blank expired).0 ≡ endless
unfolding do_json sent do_with_retry do_rounds answer_of checked_login login text_eq
invoke_endless_example =
    invoke_endless (net (λ token path. refused)) json creds [] asked HasToken
      (λ d t s h. (
        h,
        refusing_status d t s,
        (record { auth_token = codes "new"; world = suc (suc s.world) }, refl, refl),
      ))
      5 (some errors_of) blank expired refl
