-- ===== src/Model.antt =====
-- model/types.go: the data that the components exchange. An int64 is a ℤ and an int32 of a LUN a ℕ;
-- a pointer is an `Option` where nil matters. A map of type map[string]interface{} is a reference:
-- its value here is the address of a map (see Storage), or `none` for the nil map.
use common_host_libs.Prelude.{
  ℕ, Bool, false, List, [], ◌∷◌, Option, none, String, str_eq, if◌then◌else◌, ◌==◌,
}
use common_host_libs.Prelude.Int.{ℤ, pos}

pub record KeyValue : Type 0 where
  pub key : String
  pub value : String

pub record ChapInfo : Type 0 where
  pub name : String
  pub password : String

pub record NetworkInterface : Type 0 where
  pub name : String
  pub address_v4 : String
  pub mask_v4 : String
  pub broadcast_v4 : String
  pub mac : String
  pub mtu : ℤ
  pub up : Bool
  pub cidr_network : String

pub record FcSession : Type 0 where
  pub initiator_wwpn : String
  pub initiator_wwpn_legacy : String

pub record IscsiSession : Type 0 where
  pub initiator_name : String
  pub initiator_name_legacy : String
  pub initiator_ip : String

-- A reference to a Go map; `none` is the nil map.
abbrev pub MapRef : Type 0
MapRef = Option ℕ

pub record Volume : Type 0 where
  pub id : String
  pub name : String
  pub size : ℤ
  pub description : String
  pub in_use : Bool
  pub published : Bool
  pub base_snap_id : String
  pub parent_vol_id : String
  pub clone : Bool
  pub config : MapRef
  pub metadata : List KeyValue
  pub serial_number : String
  pub access_protocol : String
  pub iqn : String
  pub iqns : List String
  pub discovery_ip : String
  pub discovery_ips : List String
  pub mount_point : String
  pub status : MapRef
  pub chap : Option ChapInfo
  pub networks : List NetworkInterface
  pub connection_mode : String
  pub lun_id : String
  pub target_scope : String
  pub iscsi_sessions : List IscsiSession
  pub fc_sessions : List FcSession
  pub volume_group_id : String
  pub secondary_array_details : String
  pub used_bytes : ℤ
  pub free_bytes : ℤ
  pub encryption_key : String

-- `model.Volume{}`
abbrev pub zero_volume : Volume
zero_volume = record {
  id = "";
  name = "";
  size = pos 0;
  description = "";
  in_use = false;
  published = false;
  base_snap_id = "";
  parent_vol_id = "";
  clone = false;
  config = none;
  metadata = [];
  serial_number = "";
  access_protocol = "";
  iqn = "";
  iqns = [];
  discovery_ip = "";
  discovery_ips = [];
  mount_point = "";
  status = none;
  chap = none;
  networks = [];
  connection_mode = "";
  lun_id = "";
  target_scope = "";
  iscsi_sessions = [];
  fc_sessions = [];
  volume_group_id = "";
  secondary_array_details = "";
  used_bytes = pos 0;
  free_bytes = pos 0;
  encryption_key = "";
}

pub record Snapshot : Type 0 where
  pub id : String
  pub name : String
  pub description : String
  pub volume_id : String
  pub volume_name : String
  pub size : ℤ
  pub creation_time : ℤ
  pub ready_to_use : Bool
  pub in_use : Bool
  pub config : MapRef

abbrev pub zero_snapshot : Snapshot
zero_snapshot = record {
  id = "";
  name = "";
  description = "";
  volume_id = "";
  volume_name = "";
  size = pos 0;
  creation_time = pos 0;
  ready_to_use = false;
  in_use = false;
  config = none;
}

pub record VolumeGroup : Type 0 where
  pub id : String
  pub name : String
  pub description : String
  pub creation_time : ℤ
  pub config : MapRef

abbrev pub zero_volume_group : VolumeGroup
zero_volume_group = record {
  id = "";
  name = "";
  description = "";
  creation_time = pos 0;
  config = none;
}

pub record SnapshotGroup : Type 0 where
  pub id : String
  pub name : String
  pub source_volume_group_id : String
  pub source_volume_group_name : String
  pub snapshots : List Snapshot
  pub creation_time : ℤ
  pub config : MapRef

abbrev pub zero_snapshot_group : SnapshotGroup
zero_snapshot_group = record {
  id = "";
  name = "";
  source_volume_group_id = "";
  source_volume_group_name = "";
  snapshots = [];
  creation_time = pos 0;
  config = none;
}

-- The name that a new array release reports under `iqn`, and an old one under `iqns`.
abbrev pub target_names : Volume → List String
target_names v = if str_eq v.iqn "" then v.iqns else v.iqn ∷ []

abbrev pub initiator_wwpn_str : FcSession → String
initiator_wwpn_str s =
    if str_eq s.initiator_wwpn_legacy "" then s.initiator_wwpn else s.initiator_wwpn_legacy

abbrev pub initiator_name_str : IscsiSession → String
initiator_name_str s =
    if str_eq s.initiator_name_legacy "" then s.initiator_name else s.initiator_name_legacy

-- targetScope.String, of its number.
abbrev pub target_scope_string : ℕ → String
target_scope_string e = if e == 1 then "volume" else if e == 2 then "group" else ""

-- VolumeAccessType and its String. The type has the number 2 twice: UnknownType repeats `= 2`.
abbrev pub block_type : ℕ
block_type = 1

abbrev pub mount_type : ℕ
mount_type = 2

abbrev pub unknown_type : ℕ
unknown_type = 2

abbrev pub volume_access_type_string : ℕ → String
volume_access_type_string e =
    if e == block_type then "block" else if e == mount_type then "mount" else "unknown"
