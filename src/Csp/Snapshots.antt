-- ===== src/Csp/Snapshots.antt =====
-- storageprovider/csp/container_storage_provider.go: the operations on snapshots.
use common_host_libs.Prelude.{
  ℕ, List, [], ◌++◌, Option, none, some, String, str_eq, ◌==◌, if◌then◌else◌,
}
use common_host_libs.Prelude.Text.{Text, codes, contains}
use common_host_libs.Connectivity.{Net}
use common_host_libs.Model.{Snapshot, zero_snapshot}
use common_host_libs.Csp.{
  Credentials, CspError, text, resource_exhausted, snapshot_payload, Json, M, ◌>>=◌, pure, panic,
  error_string, failed_text,
}
use common_host_libs.Csp.Session.{Reply}
use common_host_libs.Csp.Groups.{api, object_path, request, object_result, invoked, told}
use common_host_libs.Csp.Volumes.{decode_all, all_result, err_of, unless_refused, first_result}

module _ {Body W V Node Info : Type 0} (net : Net Body W) (json : Json Body V Node Info)
    (creds : Credentials) (prefix : Text) (fuel : ℕ) where
  unfoldable pub get_snapshots : String → M W (List Snapshot × Option CspError)
  get_snapshots volume_id = do
    r ←
        invoked net json creds prefix fuel
          (request json (codes "GET")
            (if str_eq volume_id ""
              then api "snapshots"
              else api "snapshots?volume_id=" ++ codes volume_id)
            none (some json.snapshots))
          []
    unless_refused r [] (
        pure
          (all_result "snapshot" (decode_all json.redecode_snapshot r.targets.response) (err_of r)))

  abbrev got_snapshot : Reply (Option Snapshot) → M W (Option Snapshot × Option CspError)
  got_snapshot r = if r.status == 404 then pure (none, none) else object_result r

  unfoldable pub get_snapshot : String → M W (Option Snapshot × Option CspError)
  get_snapshot id = do
    r ←
        invoked net json creds prefix fuel
          (request json (codes "GET") (object_path "snapshots" id) none (some json.snapshot))
          (some zero_snapshot)
    got_snapshot r

  abbrev found_snapshot :
      String → Reply (List (Option Snapshot)) → Option Snapshot × Option CspError
  found_snapshot name r = elim r.err [
    | some e ↦ (none, some e)
    | none ↦ first_result "snapshot" json.redecode_snapshot name r.targets.response
  ]

  abbrev got_by_name :
      String → Reply (List (Option Snapshot)) → M W (Option Snapshot × Option CspError)
  got_by_name name r =
      if r.status == 404
      then pure (none, none)
      else unless_refused r none (pure (found_snapshot name r))

  unfoldable pub get_snapshot_by_name : String → String → M W (Option Snapshot × Option CspError)
  get_snapshot_by_name name volume_id = do
    r ←
        invoked net json creds prefix fuel
          (request json (codes "GET")
            (api "snapshots?name=" ++ (codes name ++ (codes "&volume_id=" ++ codes volume_id))) none
            (some json.snapshots))
          []
    got_by_name name r

  -- The error of a snapshot that was refused; one that tells of a lack of space is a gRPC error.
  abbrev snapshot_error : Text → CspError
  snapshot_error m =
      if contains m (codes "insufficient storage space") then resource_exhausted else text m

  abbrev pub created : Reply (Option Snapshot) → M W (Option Snapshot × Option CspError)
  created r = elim r.targets.response_error [
    | none ↦ pure (r.targets.response, r.err)
    | some es ↦ elim (error_string es) [
      | none ↦ panic
      | some errors ↦ pure (none, some (snapshot_error (failed_text r.status errors)))
    ]
  ]

  unfoldable pub create_snapshot :
      String
      → String
      → String
      → Option (List (String × V))
      → M W (Option Snapshot × Option CspError)
  create_snapshot name description source opts = do
    r ←
        invoked net json creds prefix fuel
          (request json (codes "POST") (api "snapshots")
            (some (
              snapshot_payload
                (record zero_snapshot {
                  name = name;
                  volume_id = source;
                  description = description;
                })
                opts))
            (some json.snapshot))
          (some zero_snapshot)
    created r

  unfoldable pub delete_snapshot : String → M W (Option CspError)
  delete_snapshot id =
      told net json creds prefix fuel (codes "DELETE") (object_path "snapshots" id) none
