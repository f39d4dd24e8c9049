-- ===== src/Csp/Tests/Snapshots.antt =====
-- storageprovider/csp/container_storage_provider.go: runs of the login, of CreateSnapshot and of
-- CloneVolume against the small CSP.
use common_host_libs.Prelude.{◌≡◌, refl, [], ◌∷◌, none, some, if◌then◌else◌}
use common_host_libs.Prelude.Int.{pos}
use common_host_libs.Prelude.Text.{Text, codes, contains}
use common_host_libs.Connectivity.{
  HttpResult, answered, do_json, sent, do_with_retry, do_rounds, answer_of,
}
use common_host_libs.Model.{Snapshot, zero_snapshot}
use common_host_libs.Csp.{ErrorsPayload, ok, text, failed_text}
use common_host_libs.Csp.Session.{
  checked_login, login, first_login, invoke, ensure_token, judge, round,
}
use common_host_libs.Csp.Snapshots.{create_snapshot, delete_snapshot}
use common_host_libs.Csp.Clone.{too_small, clone_volume, origin, clone_request, refused_clone}
use common_host_libs.Csp.Tests.{Message, snapshot, refusal, json, net, creds, now_valid}
use common_host_libs.Csp.Logins.{IsReady, login_answer, first_login-IsReady}

abbrev made : Snapshot
made = record zero_snapshot { id = "s1"; size = pos 10 }

abbrev full : ErrorsPayload
full =
    some (record { code = codes "a"; message = codes "b" })
    ∷ some (record { code = codes "c"; message = codes "insufficient storage space" })
    ∷ []

-- The CSP makes and deletes snapshots, and makes no volumes.
abbrev serve : Text → Text → HttpResult Message
serve token path =
    if contains path (codes "/snapshots")
    then answered 200 (codes "200 OK") (snapshot made)
    else answered 409 (codes "409 Conflict") (refusal full)

-- The CSP makes nothing at all.
abbrev serve_none : Text → Text → HttpResult Message
serve_none token path = answered 409 (codes "409 Conflict") (refusal full)

abbrev complaint : Text
complaint =
    codes "Error code (a) and message (b)Error code (c) and message (insufficient storage space)"

first_login-IsReady_example :
    IsReady
      (net serve)
      json
      creds
      []
      (login_answer (net serve) json creds [] now_valid)
      (record { auth_token = codes "new"; world = 3 })
unfolding first_login checked_login login do_json sent do_with_retry do_rounds answer_of
first_login-IsReady_example =
    first_login-IsReady (net serve) json creds [] now_valid
      (record { auth_token = codes "new"; world = 3 }) refl

-- The snapshot that was made for a clone that is too small stays.
leak_test :
    clone_volume (net serve) json creds [] 1 "now" "c" "" "v1" "" (pos 5) none now_valid
    ≡ (ok (none, some (too_small (pos 5) (pos 10))), record now_valid { world = 3 })
unfolding clone_volume origin clone_request create_snapshot invoke round ensure_token judge do_json
    sent do_with_retry do_rounds answer_of
leak_test = refl

-- The snapshot is deleted where the clone is refused: one request more is made than in leak_test, and one
-- for the clone.
cleanup_test :
    clone_volume (net serve) json creds [] 1 "now" "c" "" "v1" "" (pos 0) none now_valid
    ≡ (ok (none, some (text (failed_text 409 complaint))), record now_valid { world = 5 })
unfolding clone_volume origin clone_request refused_clone create_snapshot delete_snapshot invoke
    round ensure_token judge do_json sent do_with_retry do_rounds answer_of
cleanup_test = refl
