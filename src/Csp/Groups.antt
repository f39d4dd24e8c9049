-- ===== src/Csp/Groups.antt =====
-- storageprovider/csp/container_storage_provider.go: the operations on hosts, volume groups and snapshot
-- groups, and what an operation makes of the reply.
use common_host_libs.Prelude.{ℕ, List, [], ◌∷◌, ◌++◌, Option, none, some, String}
use common_host_libs.Prelude.Text.{Text, codes}
use common_host_libs.Connectivity.{Net, Request, Decoded}
use common_host_libs.Model.{VolumeGroup, SnapshotGroup, zero_volume_group, zero_snapshot_group}
use common_host_libs.Csp.{
  Credentials, ErrorsPayload, CspError, Payload, node_payload, volume_group_payload,
  snapshot_group_payload, Json, M, ◌>>=◌, pure, handle_error,
}
use common_host_libs.Csp.Session.{Reply, invoke}

abbrev pub api : String → Text
api path = codes "/containers/v1/" ++ codes path

abbrev pub object_path : String → String → Text
object_path kind id = api kind ++ (b'/' ∷ codes id)

module _ {Body V Node Info : Type 0} (json : Json Body V Node Info) where
  abbrev pub request :
      {A : Type 0}
      → Text
      → Text
      → Option (Payload V Node)
      → Option (Body → Decoded A)
      → Request Body A (Option ErrorsPayload)
  request action path payload response = record {
    action = action;
    path = path;
    header = [];
    payload = elim payload [ none ↦ none | some p ↦ some (json.encode p) ];
    response = response;
    response_error = some json.errors;
  }

-- `if errorResponse != nil { return nil, handleError(status, errorResponse) }; return response, err`
abbrev pub object_result : {W A : Type 0} → Reply (Option A) → M W (Option A × Option CspError)
object_result r = elim r.targets.response_error [
  | none ↦ pure (r.targets.response, r.err)
  | some es ↦ (do e ← handle_error r.status es; pure (none, some e))
]

-- The same for an operation that returns an error alone.
abbrev pub error_result : {W A : Type 0} → Reply A → M W (Option CspError)
error_result r = elim r.targets.response_error [
  | none ↦ pure r.err
  | some es ↦ (do e ← handle_error r.status es; pure (some e))
]

module _ {Body W V Node Info : Type 0} (net : Net Body W) (json : Json Body V Node Info)
    (creds : Credentials) (prefix : Text) (fuel : ℕ) where
  abbrev pub invoked : {A : Type 0} → Request Body A (Option ErrorsPayload) → A → M W (Reply A)
  invoked r a = invoke net json creds prefix fuel r (record { response = a; response_error = none })

  -- A request that has no response but its errors.
  abbrev pub told : Text → Text → Option (Payload V Node) → M W (Option CspError)
  told action path payload = do
    r ← invoked (request json action path payload none) (tt {0})
    error_result r

  unfoldable pub set_node_context : Node → M W (Option CspError)
  set_node_context node = told (codes "POST") (api "hosts") (some (node_payload node))

  unfoldable pub create_snapshot_group :
      String → String → M W (Option SnapshotGroup × Option CspError)
  create_snapshot_group name source = do
    r ←
        invoked
          (request json (codes "POST") (api "snapshot_groups")
            (some (
              snapshot_group_payload
                (record zero_snapshot_group { name = name; source_volume_group_id = source })))
            (some json.snapshot_group))
          (some zero_snapshot_group)
    object_result r

  unfoldable pub delete_snapshot_group : String → M W (Option CspError)
  delete_snapshot_group id = told (codes "DELETE") (object_path "snapshot_groups" id) none

  unfoldable pub create_volume_group :
      String → String → Option (List (String × V)) → M W (Option VolumeGroup × Option CspError)
  create_volume_group name description opts = do
    r ←
        invoked
          (request json (codes "POST") (api "volume_groups")
            (some (
              volume_group_payload
                (record zero_volume_group { name = name; description = description }) opts))
            (some json.volume_group))
          (some zero_volume_group)
    object_result r

  unfoldable pub delete_volume_group : String → M W (Option CspError)
  delete_volume_group id = told (codes "DELETE") (object_path "volume_groups" id) none
