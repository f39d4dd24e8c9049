-- ===== src/Iscsi/Tests.antt =====
-- linux/iscsi.go on a host with two portals, of which the second cannot be reached.
use common_host_libs.Prelude.{
  ℕ, ◌+◌, ◌≡◌, refl, true, false, List, [], ◌∷◌, Option, none, some, inl, if◌then◌else◌,
}
use common_host_libs.Prelude.Text.{Text, codes, text_eq}
use common_host_libs.Prelude.Effects.{ok, failed}
use common_host_libs.Iscsi.{IscsiTarget, Volume, Host, is_reachable}
use common_host_libs.Iscsi.Targets.{
  remove_duplicates, remove_duplicate_targets, get_logged_in_iscsi_targets, is_supported_target,
  is_in,
}
use common_host_libs.Iscsi.Discovery.{no_reachable_ip, search_all, perform_discovery}
use common_host_libs.Iscsi.Login.{add_target, update_chap_user, update_chap_password}
use common_host_libs.Iscsi.Volumes.{login_to_all}
use common_host_libs.Iscsi.Handling.{handle_iscsi_discovery}
use common_host_libs.Iscsi.Unique.{AllDiffer, remove_duplicates-AllDiffer}
use common_host_libs.Iscsi.Ignored.{login_to_all-ok}
use common_host_libs.Iscsi.Unreachable.{perform_discovery_unreachable}
use common_host_libs.Iscsi.Unnamed.{handle_iscsi_discovery_iqn, nodes_read}

abbrev near : Text
near = codes "10.0.0.1"

abbrev far : Text
far = codes "10.0.9.9"

abbrev target : Text → Text → IscsiTarget
target address port = record {
  name = codes "iqn.2007-11.com.nimblestorage:v1";
  address = address;
  port = port;
}

-- The state counts the commands, each of which fails but a discovery.
abbrev exec : Text → List Text → ℕ → (Text × Option Text) × ℕ
exec command args n =
    if is_in (codes "discovery") args
    then ((codes "one", none), n + 1)
    else (([], some (codes "iscsiadm failed")), n + 1)

abbrev host : Host ℕ
host = record {
  exec = exec;
  new_pinger = λ t n. none;
  ping = λ i t n. (text_eq t near, n);
  dial = λ i t n. (if text_eq t near then none else some (codes "timeout"), n);
  file_exists = λ p n. inl true;
  read_dir = λ p n. inl (codes "session1" ∷ codes "session2" ∷ []);
  read_file = λ p n. inl (codes "iqn.2007-11.com.nimblestorage:v1\n");
  write_file = λ p s n. (none, n);
  bound_network = λ p n. [];
  network_interfaces = λ n. inl [];
  nodes_in = λ out. target near (codes "3260") ∷ target near (codes "3260") ∷ [];
}

remove_duplicates_test :
    remove_duplicates (codes "a" ∷ codes "b" ∷ codes "a" ∷ []) ≡ codes "a" ∷ codes "b" ∷ []
unfolding remove_duplicates text_eq
remove_duplicates_test = refl

remove_duplicates-AllDiffer_example :
    AllDiffer (remove_duplicates (codes "a" ∷ codes "b" ∷ codes "a" ∷ []))
    × ((s : Text)
        → is_in s (remove_duplicates (codes "a" ∷ codes "b" ∷ codes "a" ∷ []))
          ≡ is_in s (codes "a" ∷ codes "b" ∷ codes "a" ∷ []))
remove_duplicates-AllDiffer_example =
    remove_duplicates-AllDiffer (codes "a" ∷ codes "b" ∷ codes "a" ∷ [])

-- Two portals whose address and port give one key: the second is lost.
key_test :
    remove_duplicate_targets
      (target (codes "10.0.0.1") (codes "13260") ∷ target (codes "10.0.0.11") (codes "3260") ∷ [])
    ≡ target (codes "10.0.0.1") (codes "13260") ∷ []
unfolding remove_duplicate_targets text_eq
key_test = refl

discovery_test :
    perform_discovery host (far ∷ near ∷ []) 0 ≡ (ok (target near (codes "3260") ∷ []), 1)
unfolding perform_discovery search_all is_reachable remove_duplicate_targets text_eq
discovery_test = refl

perform_discovery_unreachable_example :
    perform_discovery host (near ∷ far ∷ []) 0 ≡ (failed no_reachable_ip, 1)
unfolding search_all is_reachable text_eq
perform_discovery_unreachable_example =
    perform_discovery_unreachable host (near ∷ []) far
      (record { reachable = true; err = none; outs = codes "one" ∷ [] }) (inl false) 0 1 1 refl refl
      refl

-- Each login fails here, and so does each update.
login_to_all-ok_example :
    (login_to_all host
      (target near (codes "3260") ∷ [])
      (codes "iqn.2007-11.com.nimblestorage:v1" ∷ [])
      []
      (record { name = codes "u"; password = codes "p" })
      (codes "manual")
      0).0
    ≡ ok tt
login_to_all-ok_example =
    login_to_all-ok host (target near (codes "3260") ∷ [])
      (codes "iqn.2007-11.com.nimblestorage:v1" ∷ []) []
      (record { name = codes "u"; password = codes "p" }) (codes "manual") 0

add_target_test :
    add_target host (target near (codes "3260")) [] (record { name = []; password = [] }) [] 0 ≡ (
      failed (
          codes
            "Unable to add login to iscsi target iqn.2007-11.com.nimblestorage:v1. Error: iscsiadm failed"),
      3,
    )
unfolding add_target update_chap_user update_chap_password text_eq
add_target_test = refl

logged_in_test :
    get_logged_in_iscsi_targets host 0 ≡ (ok (codes "iqn.2007-11.com.nimblestorage:v1" ∷ []), 0)
unfolding get_logged_in_iscsi_targets remove_duplicates is_supported_target text_eq
logged_in_test = refl

abbrev single_target_volume : Volume
single_target_volume = record {
  serial_number = codes "s1";
  lun_id = codes "0";
  iqn = codes "iqn.2007-11.com.nimblestorage:v2";
  iqns = [];
  target_scope = codes "volume";
  discovery_ips = near ∷ [];
  chap = none;
  connection_mode = [];
  secondary_backends = [];
}

handle_iscsi_discovery_iqn_example :
    handle_iscsi_discovery host single_target_volume 0 ≡ (ok tt, nodes_read host 0)
unfolding text_eq
handle_iscsi_discovery_iqn_example =
    handle_iscsi_discovery_iqn host single_target_volume 0 0
      (codes "iqn.2007-11.com.nimblestorage:v1" ∷ []) refl refl refl logged_in_test
