-- ===== src/Iscsi/Handling.antt =====
-- linux/iscsi.go: HandleIscsiDiscovery.
use common_host_libs.Prelude.{Bool, true, false, List, [], ◌∷◌, ◌++◌, if◌then◌else◌}
use common_host_libs.Prelude.Text.{codes, text_eq, to_lower}
use common_host_libs.Prelude.Effects.{M, ◌>>=◌, pure, attempt, wrap}
use common_host_libs.Iscsi.{SecondaryLunInfo, Volume, Host, target_names}
use common_host_libs.Iscsi.Targets.{are_targets_logged_in}
use common_host_libs.Iscsi.Volumes.{login_to_volume, update_chap_for_logged_in_targets}
use common_host_libs.Iscsi.Rescan.{rescan_iscsi}

module _ {W : Type 0} (host : Host W) where
  -- The error of loginToVolume is not read.
  abbrev pub logged_in_or_login : Volume → Bool → M W (Unit {0})
  logged_in_or_login v true = update_chap_for_logged_in_targets host v
  logged_in_or_login v false = do r ← attempt (login_to_volume host v); pure tt

  -- A group's targets need a rescan.
  abbrev pub rescanned : Volume → M W (Unit {0})
  rescanned v =
      if text_eq (to_lower v.target_scope) (codes "group")
      then wrap (λ m. codes "Unable to rescan iscsi hosts, Error: " ++ m)
          (rescan_iscsi host v.lun_id)
      else pure tt

  abbrev pub backend_handled : Volume → Bool → M W (Unit {0})
  backend_handled v logged_in = do x ← logged_in_or_login v logged_in; rescanned v

  unfoldable pub handle_iscsi_discovery_for_backend : Volume → M W (Unit {0})
  handle_iscsi_discovery_for_backend v = do
    logged_in ←
        wrap (λ m. codes "unable to determine already logged-in targets, err " ++ m)
          (are_targets_logged_in host (target_names v))
    backend_handled v logged_in

  -- The objects for the two kinds of backend.
  abbrev pub primary_volume : Volume → Volume
  primary_volume v = record {
    serial_number = v.serial_number;
    lun_id = v.lun_id;
    iqn = [];
    iqns = v.iqns;
    target_scope = v.target_scope;
    discovery_ips = v.discovery_ips;
    chap = v.chap;
    connection_mode = v.connection_mode;
    secondary_backends = [];
  }

  abbrev pub secondary_volume : Volume → SecondaryLunInfo → Volume
  secondary_volume v s = record (primary_volume v) {
    lun_id = s.lun_id;
    iqns = s.target_names;
    discovery_ips = s.discovery_ips;
  }

  -- The error of a secondary backend is not read.
  unfoldable pub secondaries_handled : Volume → List SecondaryLunInfo → M W (Unit {0})
  secondaries_handled v [] = pure tt
  secondaries_handled v (s ∷ ss) = do
    r ← attempt (handle_iscsi_discovery_for_backend (secondary_volume v s))
    secondaries_handled v ss

  unfoldable pub handle_iscsi_discovery : Volume → M W (Unit {0})
  handle_iscsi_discovery v = do
    x ← handle_iscsi_discovery_for_backend (primary_volume v)
    secondaries_handled v v.secondary_backends
