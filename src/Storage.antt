-- ===== src/Storage.antt =====
-- storageprovider/fake/fake_storage_provider.go: the storage provider that keeps its objects in
-- maps. Initialize, SetNodeContext, GetNodeContext, PublishVolume and UnpublishVolume do nothing
-- to it and are left out. A Go map that a caller passes as options is an address in `maps`, as the
-- provider keeps the reference and not a copy.
pub mod Objects
pub mod Clones
pub mod Requests
mod Tests
use common_host_libs.Prelude.{
  ℕ, Bool, true, false, List, [], ◌∷◌, Option, none, some, String, str_eq, Dict, lookup, insert,
  erase, map, is_some, ◌==◌, if◌then◌else◌,
}
use common_host_libs.Prelude.Int.{ℤ}
use common_host_libs.Model.{
  MapRef, Volume, zero_volume, Snapshot, zero_snapshot, VolumeGroup, zero_volume_group,
  SnapshotGroup, zero_snapshot_group,
}

-- The errors, with the name or the id that their text quotes.
pub data StorageError : Type 0 where
  volume_exists volume_group_exists snapshot_group_exists snapshot_exists : String → StorageError
  volume_missing volume_group_missing snapshot_group_missing : String → StorageError
  snapshot_missing : String → StorageError

-- What a call does: it returns a value or an error, or it panics.
pub data Outcome {ℓ} (T : Type ℓ) : Type ℓ where
  ok : T → Outcome T
  failed : StorageError → Outcome T
  panics : Outcome T

pub record Provider (A : Type 0) : Type 0 where
  pub volumes : Dict Volume
  pub snapshots : Dict Snapshot
  pub volume_groups : Dict VolumeGroup
  pub snapshot_groups : Dict SnapshotGroup
  pub maps : ℕ → Dict A

-- What GetVolume shows of a volume.
abbrev pub volume_view : Volume → Volume
volume_view v = record zero_volume { id = v.id; name = v.name; size = v.size }

-- What GetSnapshot shows of a snapshot.
abbrev pub snapshot_view : Snapshot → Snapshot
snapshot_view s = record zero_snapshot {
  id = s.id;
  name = s.name;
  volume_id = s.volume_id;
  volume_name = s.volume_name;
  size = s.size;
  ready_to_use = s.ready_to_use;
}

module _ {A : Type 0} where
  -- The maps of callers are there before the provider.
  pub new_fake_storage_provider : (ℕ → Dict A) → Provider A
  new_fake_storage_provider maps = record {
    volumes = [];
    snapshots = [];
    volume_groups = [];
    snapshot_groups = [];
    maps = maps;
  }

  pub create_volume : Provider A → String → String → ℤ → MapRef → Provider A × Outcome Volume
  create_volume p name description size opts =
      let v : Volume = record zero_volume { id = name; name = name; size = size; config = opts } in
      if is_some (lookup name p.volumes)
      then (p, failed (volume_exists name))
      else (record p { volumes = insert name v p.volumes }, ok v)

  pub create_volume_group : Provider A → String → String → MapRef → Provider A × Outcome VolumeGroup
  create_volume_group p name description opts =
      let g : VolumeGroup = record zero_volume_group { id = name; name = name; config = opts } in
      if is_some (lookup name p.volume_groups)
      then (p, failed (volume_group_exists name))
      else (record p { volume_groups = insert name g p.volume_groups }, ok g)

  pub create_snapshot_group :
      Provider A → String → String → MapRef → Provider A × Outcome SnapshotGroup
  create_snapshot_group p name source opts =
      let g : SnapshotGroup = record zero_snapshot_group {
        id = name;
        name = name;
        source_volume_group_id = source;
      } in
      if is_some (lookup name p.snapshot_groups)
      then (p, failed (snapshot_group_exists name))
      else (record p { snapshot_groups = insert name g p.snapshot_groups }, ok g)

  pub create_snapshot :
      Provider A → String → String → String → MapRef → Provider A × Outcome Snapshot
  create_snapshot p name description source opts =
      let s : Snapshot = record zero_snapshot {
        id = name;
        name = name;
        volume_id = source;
        volume_name = source;
        ready_to_use = true;
      } in
      if is_some (lookup name p.snapshots)
      then (p, failed (snapshot_exists name))
      else (record p { snapshots = insert name s p.snapshots }, ok s)

  -- `none` is the nil pointer, which is returned with no error.
  pub get_snapshot : Provider A → String → Option Snapshot
  get_snapshot p id = elim (lookup id p.snapshots) [ none ↦ none | some s ↦ some (snapshot_view s) ]

  pub get_volume : Provider A → String → Option Volume
  get_volume p id = elim (lookup id p.volumes) [ none ↦ none | some v ↦ some (volume_view v) ]

  -- The order of the keys is that of their creation; Go leaves it open.
  pub get_volumes : Provider A → List Volume
  get_volumes p = map (λ e. volume_view e.1) p.volumes

  pub get_snapshots : Provider A → String → List Snapshot
  get_snapshots p source = map (λ e. snapshot_view e.1) p.snapshots

  -- The end of CloneVolume. With no snapshot, `snapshot.ID` reads through the nil pointer.
  clone_from : Provider A → String → ℤ → Option Snapshot → Provider A × Outcome Volume
  clone_from p name size none = (p, panics)
  clone_from p name size (some s) =
      let v : Volume = record zero_volume {
        id = name;
        name = name;
        size = size;
        base_snap_id = s.id;
      } in
      (record p { volumes = insert name v p.volumes }, ok v)

  -- `sourceID == ""`: the snapshot is looked up.
  clone_snapshot : Provider A → String → String → ℤ → Provider A × Outcome Volume
  unfolding get_snapshot clone_from
  clone_snapshot p name snapshot_id size = elim (get_snapshot p snapshot_id) [
    | none ↦ (p, failed (snapshot_missing snapshot_id))
    | some s ↦ clone_from p name size (some s)
  ]

  -- The clone of a snapshot that has just been made, or the error of making it.
  clone_made : String → ℤ → Provider A × Outcome Snapshot → Provider A × Outcome Volume
  unfolding clone_from
  clone_made name size (q, ok s) = clone_from q name size (some s)
  clone_made name size (q, failed e) = (q, failed e)
  clone_made name size (q, panics) = (q, panics)

  -- `snapshotID == ""`: a snapshot named "testSnapshot" is made of the source volume.
  clone_source : Provider A → String → String → ℤ → Provider A × Outcome Volume
  unfolding create_snapshot clone_made
  clone_source p name source_id size =
      clone_made name size (create_snapshot p "testSnapshot" "testSnapshot" source_id none)

  pub clone_volume :
      Provider A → String → String → String → String → ℤ → MapRef → Provider A × Outcome Volume
  unfolding clone_from clone_snapshot clone_source
  clone_volume p name description source_id snapshot_id size opts =
      if is_some (lookup name p.volumes)
      then (p, failed (volume_exists name))
      else if str_eq source_id ""
      then clone_snapshot p name snapshot_id size
      else if str_eq snapshot_id ""
      then clone_source p name source_id size
      else clone_from p name size none

  pub delete_volume : Provider A → String → Bool → Provider A × Outcome (Unit {0})
  delete_volume p id force =
      if is_some (lookup id p.volumes)
      then (record p { volumes = erase id p.volumes }, ok tt)
      else (p, failed (volume_missing id))

  pub delete_volume_group : Provider A → String → Provider A × Outcome (Unit {0})
  delete_volume_group p id =
      if is_some (lookup id p.volume_groups)
      then (record p { volume_groups = erase id p.volume_groups }, ok tt)
      else (p, failed (volume_group_missing id))

  pub delete_snapshot_group : Provider A → String → Provider A × Outcome (Unit {0})
  delete_snapshot_group p id =
      if is_some (lookup id p.snapshot_groups)
      then (record p { snapshot_groups = erase id p.snapshot_groups }, ok tt)
      else (p, failed (snapshot_group_missing id))

  pub delete_snapshot : Provider A → String → Provider A × Outcome (Unit {0})
  delete_snapshot p id =
      if is_some (lookup id p.snapshots)
      then (record p { snapshots = erase id p.snapshots }, ok tt)
      else (p, failed (snapshot_missing id))

  -- The size is set in a copy of the stored volume.
  pub expand_volume : Provider A → String → ℤ → Provider A × Outcome Volume
  expand_volume p id size = elim (lookup id p.volumes) [
    | none ↦ (p, failed (volume_missing id))
    | some v ↦ (p, ok (record v { size = size }))
  ]

  -- `for key, value := range parameters { m[key] = value }`
  abbrev pub write_all : Dict A → Dict A → Dict A
  write_all [] m = m
  write_all ((k, x) ∷ kxs) m = write_all kxs (insert k x m)

  abbrev pub write_map : (ℕ → Dict A) → ℕ → Dict A → ℕ → Dict A
  write_map maps a m b = if a == b then m else maps b

  -- The loop of EditVolume: a write to the nil map panics.
  edit_config : Provider A → Volume → MapRef → Dict A → Provider A × Outcome Volume
  edit_config p v config [] = (p, ok v)
  edit_config p v none (kx ∷ kxs) = (p, panics)
  edit_config p v (some a) (kx ∷ kxs) =
      (record p { maps = write_map p.maps a (write_all (kx ∷ kxs) (p.maps a)) }, ok v)

  pub edit_volume : Provider A → String → Dict A → Provider A × Outcome Volume
  unfolding edit_config
  edit_volume p id parameters = elim (lookup id p.volumes) [
    | none ↦ (p, failed (volume_missing id))
    | some v ↦ edit_config p v v.config parameters
  ]
