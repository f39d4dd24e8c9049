-- ===== src/Csp/Expired.antt =====
-- storageprovider/csp/container_storage_provider.go: the operations when a token has expired.
use common_host_libs.Prelude.{
  ℕ, suc, ◌≡◌, refl, ap, ◌∙◌, false, List, Option, none, some, String, ◌==◌,
}
use common_host_libs.Prelude.Int.{ℤ}
use common_host_libs.Prelude.Text.{Text, is_nil, codes}
use common_host_libs.Connectivity.{Net, Request, Targets}
use common_host_libs.Connectivity.Answers.{do_json-kept}
use common_host_libs.Model.{Volume, zero_volume}
use common_host_libs.Csp.{
  Credentials, ErrorsPayload, Json, State, ok, text, error_string, failed_text, handle_error,
  volume_payload, then_run,
}
use common_host_libs.Csp.Session.{Reply, checked_login, headers}
use common_host_libs.Csp.Groups.{api, request, object_result}
use common_host_libs.Csp.Volumes.{create_volume}
use common_host_libs.Csp.Relogin.{answer, behind, retried, replied, invoke_relogin}

object_result_error :
    {W A : Type 0} (r : Reply (Option A)) (es : ErrorsPayload) (m : Text) (s : State W)
    → r.targets.response_error ≡ some es
    → error_string es ≡ some m
    → object_result r s ≡ (ok (none, some (text (failed_text r.status m))), s)
object_result_error r es m s e k = rw (e, handle_error, k) refl

module _ {Body W V Node Info : Type 0} (net : Net Body W) (json : Json Body V Node Info)
    (creds : Credentials) (prefix : Text) (fuel : ℕ) (name description : String) (size : ℤ)
    (opts : Option (List (String × V))) (s s' : State W) where
  -- The request of CreateVolume with its variables.
  abbrev pub creation : Request Body (Option Volume) (Option ErrorsPayload)
  creation =
      request json (codes "POST") (api "volumes")
        (some (
          volume_payload
            (record zero_volume { name = name; size = size; description = description }) opts))
        (some json.volume)

  abbrev pub fresh : Targets (Option Volume) (Option ErrorsPayload)
  fresh = record { response = some zero_volume; response_error = none }

  abbrev pub left : Targets (Option Volume) (Option ErrorsPayload)
  left = (answer net json creds prefix creation fresh s).0.targets

  -- If the token of CreateVolume is refused with an error payload, the login behind it gives a new one
  -- and the second answer has a status other than 401, CreateVolume returns no volume and an error that
  -- is made of the second status and the errors of the first answer, though the second request may have
  -- made the volume.
  pub create_volume_expired :
      (es : ErrorsPayload) (m : Text)
      → is_nil s.auth_token ≡ false
      → (answer net json creds prefix creation fresh s).0.status ≡ 401
      → left.response_error ≡ some es
      → error_string es ≡ some m
      → checked_login net json creds prefix (behind net json creds prefix creation fresh s)
        ≡ (ok none, s')
      → is_nil s'.auth_token ≡ false
      → ((answer net json creds prefix (retried net json creds prefix creation) left s').0.status
          == 401)
        ≡ false
      → create_volume net json creds prefix (suc (suc fuel)) name description size opts s ≡ (
        ok (
          none,
          some (
              text (
                failed_text
                  (answer net json creds prefix
                    (retried net json creds prefix creation)
                    left
                    s').0.status
                  m)),
        ),
        behind net json creds prefix (retried net json creds prefix creation) left s',
      )
  unfolding create_volume
  create_volume_expired es m e k p q l f g =
      ap (λ x. then_run x object_result)
        (invoke_relogin net json creds prefix fuel creation fresh s s' e k l f g)
      ∙ object_result_error
          (replied net json creds prefix
            (answer net json creds prefix (retried net json creds prefix creation) left s').0)
          es m (behind net json creds prefix (retried net json creds prefix creation) left s')
          (do_json-kept net prefix
              (record (retried net json creds prefix creation) {
                header = headers net json creds prefix s'.auth_token;
              })
              left s'.world refl
            ∙ p)
          q
