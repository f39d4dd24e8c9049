-- ===== src/Csp/Clone.antt =====
-- storageprovider/csp/container_storage_provider.go: CloneVolume.
use common_host_libs.Prelude.{
  ℕ, true, List, ◌++◌, ◌&&◌, not, Option, none, some, String, str_eq, if◌then◌else◌,
}
use common_host_libs.Prelude.Int.{ℤ, ltb_ℤ}
use common_host_libs.Prelude.Text.{Text, codes}
use common_host_libs.Connectivity.{Net}
use common_host_libs.Model.{Volume, Snapshot, zero_volume}
use common_host_libs.Csp.{
  Credentials, ErrorsPayload, CspError, text, volume_payload, Json, M, ◌>>=◌, pure, panic,
  handle_error,
}
use common_host_libs.Csp.Session.{Reply, decimal_ℤ, is_zero}
use common_host_libs.Csp.Groups.{api, request, invoked}
use common_host_libs.Csp.Snapshots.{get_snapshot, create_snapshot, delete_snapshot}

-- What the first part of CloneVolume gives: a snapshot, an error to return, or neither.
pub data Origin : Type 0 where
  nothing : Origin
  from_snapshot : Snapshot → Origin
  rejected : CspError → Origin

abbrev pub too_small : ℤ → ℤ → CspError
too_small size snapshot_size = text (
    codes "Could not create new volume clone, err: Clone size "
    ++ (decimal_ℤ size
        ++ (codes " requested is smaller than the snapshot size " ++ decimal_ℤ snapshot_size)))

abbrev pub found_origin : String → Option Snapshot × Option CspError → Origin
found_origin id (o, some e) = rejected e
found_origin id (none, none) =
    rejected (text (codes "Could not find snapshot with id " ++ codes id))
found_origin id (some snapshot, none) = from_snapshot snapshot

abbrev pub made_origin : Option Snapshot × Option CspError → Origin
made_origin (o, some e) = rejected e
made_origin (none, none) = rejected (text (codes "Could not create new snapshot for volume clone"))
made_origin (some snapshot, none) = from_snapshot snapshot

abbrev pub clone_of : String → String → ℤ → Snapshot → Volume
clone_of name description size snapshot = record zero_volume {
  name = name;
  description = description;
  size = size;
  base_snap_id = snapshot.id;
  clone = true;
}

abbrev append : String → String → String
append String.[] t = t
append (String.◌∷◌ c s) t = String.◌∷◌ c (append s t)

-- The name of a snapshot that is made for a clone, from the time of the call as the code formats it.
abbrev pub snapshot_name : String → String
snapshot_name now = append "snap-for-clone-" now

module _ {Body W V Node Info : Type 0} (net : Net Body W) (json : Json Body V Node Info)
    (creds : Credentials) (prefix : Text) (fuel : ℕ) (now : String) where
  -- The snapshot to clone: the given one, or a new one of the source. With both IDs there is none.
  unfoldable pub origin : String → String → M W Origin
  origin source_id snapshot_id =
      if str_eq source_id ""
      then (do
        r ← get_snapshot net json creds prefix fuel snapshot_id
        pure (found_origin snapshot_id r))
      else if str_eq snapshot_id ""
      then (do
        r ←
            create_snapshot net json creds prefix fuel (snapshot_name now) (snapshot_name now)
              source_id none
        pure (made_origin r))
      else pure nothing

  -- The error payload, where a snapshot that was made for the clone is deleted first.
  unfoldable pub refused_clone :
      String → Snapshot → ℕ → ErrorsPayload → M W (Option Volume × Option CspError)
  refused_clone snapshot_id snapshot status es =
      if str_eq snapshot_id ""
      then (do
        _ ← delete_snapshot net json creds prefix fuel snapshot.id
        e ← handle_error status es
        pure (none, some e))
      else (do e ← handle_error status es; pure (none, some e))

  abbrev pub cloned :
      String → Snapshot → Reply (Option Volume) → M W (Option Volume × Option CspError)
  cloned snapshot_id snapshot r = elim r.targets.response_error [
    | none ↦ pure (r.targets.response, r.err)
    | some es ↦ refused_clone snapshot_id snapshot r.status es
  ]

  unfoldable pub clone_request :
      String
      → String
      → ℤ
      → String
      → Option (List (String × V))
      → Snapshot
      → M W (Option Volume × Option CspError)
  clone_request name description size snapshot_id opts snapshot =
      if not (is_zero size) && ltb_ℤ size snapshot.size
      then pure (none, some (too_small size snapshot.size))
      else (do
        r ←
            invoked net json creds prefix fuel
              (request json (codes "POST") (api "volumes")
                (some (volume_payload (clone_of name description size snapshot) opts))
                (some json.volume))
              (some zero_volume)
        cloned snapshot_id snapshot r)

  -- A nil snapshot has no size and no ID.
  unfoldable pub clone_volume :
      String
      → String
      → String
      → String
      → ℤ
      → Option (List (String × V))
      → M W (Option Volume × Option CspError)
  clone_volume name description source_id snapshot_id size opts =
      if str_eq name ""
      then pure (none, some (text (codes "Clone name cannot be empty")))
      else if str_eq source_id "" && str_eq snapshot_id ""
      then pure (none, some (text (codes "One of sourceID or snapshotID must be specified")))
      else (do
        o ← origin source_id snapshot_id
        elim o [
          | nothing ↦ panic
          | rejected e ↦ pure (none, some e)
          | from_snapshot snapshot ↦ clone_request name description size snapshot_id opts snapshot
        ])
