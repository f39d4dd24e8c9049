-- ===== src/Handler/Tests.antt =====
-- dockerplugin/handler: requests for one volume.
use common_host_libs.Prelude.{inl, ℕ, suc, ◌≡◌, refl, true, List, [], ◌∷◌, none, some, String, ◌⊎◌}
use common_host_libs.Prelude.Decimal.{atoi}
use common_host_libs.Prelude.Int.{pos}
use common_host_libs.Prelude.Text.{Text, codes, text_eq}
use common_host_libs.Model.{Volume, NetworkInterface, zero_volume}
use common_host_libs.Handler.{parts, PluginRequest, Device, Chapi, Provider, ok}
use common_host_libs.Handler.Networks.{is_ip_address, matches, filter_host_networks}
use common_host_libs.Handler.Filtering.{filter_host_networks_reversed}
use common_host_libs.Handler.Attached.{is_current_host_attached_iscsi}
use common_host_libs.Handler.Mounting.{cleanup_stale_mounts}
use common_host_libs.Handler.Creating.{create_file_system_on_volume, volume_driver_create}
use common_host_libs.Handler.Cleanup.{
  asked, cleanup_stale_mounts_attached, volume_driver_create_panics,
}

abbrev network : String → String → NetworkInterface
network name address = record {
  name = name;
  address_v4 = address;
  mask_v4 = "";
  broadcast_v4 = "";
  mac = "";
  mtu = pos 1500;
  up = true;
  cidr_network = "";
}

abbrev eth0 : NetworkInterface
eth0 = network "eth0" "10.0.0.1"

abbrev eth1 : NetworkInterface
eth1 = network "eth1" "10.0.0.2"

abbrev with_initiators : List Text → PluginRequest
with_initiators is = record {
  name = "v";
  opts = ("initiators", parts is) ∷ [];
  preferences = [];
  host = record {
    network_interfaces = eth0 ∷ eth1 ∷ [];
    initiators = some (record { type = "iscsi"; init = codes "iqn.host" ∷ [] } ∷ []);
  };
}

abbrev by_address : PluginRequest
by_address = with_initiators (codes " 10.0.0.2 " ∷ [])

-- The initiators of both networks, against their order, leave one of them.
reversed_test :
    filter_host_networks (with_initiators (codes "eth1" ∷ codes "eth0" ∷ []))
    ≡ ok (record (with_initiators (codes "eth1" ∷ codes "eth0" ∷ [])) {
      host = record by_address.host { network_interfaces = eth1 ∷ [] };
    })
unfolding matches is_ip_address atoi text_eq
reversed_test =
    filter_host_networks_reversed (with_initiators (codes "eth1" ∷ codes "eth0" ∷ []))
      (codes "eth1") (codes "eth0") eth0 eth1 refl refl refl refl refl

abbrev busy : Volume
busy = record zero_volume {
  name = "v";
  in_use = true;
  iscsi_sessions =
      record { initiator_name = "iqn.host"; initiator_name_legacy = ""; initiator_ip = "" } ∷ [];
}

abbrev device : Device
device = record { state = "active"; target_scope = "volume" }

-- The state counts the calls. Every call succeeds but for the making of a file system.
abbrev counted : {A : Type 0} → A → ℕ → A × ℕ
counted a n = (a, suc n)

abbrev chapi : Chapi ℕ
chapi = record {
  get_mounts = λ s. counted (record { mountpoint = "/mnt/v"; device = some device } ∷ []);
  get_device_from_volume = λ v. counted (some device);
  unmount = λ m. counted none;
  attach_device = λ v. counted (some (device ∷ []), some (codes "no path to the device"));
  setup_filesystem = λ d v s. counted none;
  unmount_device = λ v. counted none;
  attach_and_mount_device = λ v s. counted none;
  offline_device = λ d. counted none;
  delete_device = λ d. counted none;
  remove_all = λ s. counted none;
}

abbrev provider : Provider ℕ
provider = record {
  get = λ r. counted (record { err = []; volume = some busy }, none);
  unmount_volume = λ r. counted (record { err = []; volume = busy; message = [] }, none);
  remove_volume = λ r. counted ([], none);
  nimble_detach = λ v r. counted none;
  nimble_volume_info = λ r. counted (some busy);
  remove_mount_conflict_metadata = λ r n. suc n;
}

cleanup_stale_mounts_attached_example :
    ((cleanup_stale_mounts chapi provider by_address 0).1 ≡ asked chapi provider by_address busy 0)
    ⊎ ((cleanup_stale_mounts chapi provider by_address 0).1
        ≡ (chapi.get_device_from_volume busy (asked chapi provider by_address busy 0)).1)
unfolding is_current_host_attached_iscsi text_eq
cleanup_stale_mounts_attached_example =
    cleanup_stale_mounts_attached chapi provider by_address busy 0 refl refl (inl refl)

volume_driver_create_panics_example :
    (volume_driver_create chapi provider zero_volume "/mnt/v" by_address 0).0 ≡ none
unfolding create_file_system_on_volume
volume_driver_create_panics_example =
    volume_driver_create_panics chapi provider zero_volume
      (record zero_volume { connection_mode = "manual" }) "/mnt/v" by_address (some device)
      (codes "no path to the device") 0 1 refl (λ d x. refl) (λ x. refl)

-- Another host has the volume.
abbrev elsewhere : Provider ℕ
elsewhere = record provider {
  nimble_volume_info = λ r. counted (some (record zero_volume { name = "v"; in_use = true }));
}
