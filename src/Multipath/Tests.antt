-- ===== src/Multipath/Tests.antt =====
-- linux/multipath.go on the output of a small host.
use common_host_libs.Prelude.{
  ℕ, suc, ◌≡◌, refl, true, List, [], ◌∷◌, Option, none, some, ltb, if◌then◌else◌, get_elem?,
}
use common_host_libs.Prelude.Text.{Text, codes, text_eq}
use common_host_libs.Multipath.{
  PathInfo, Device, paths_of_line, paths_of_lines, multipathd_show_cmd, multipath_disable_queuing,
  ok,
}
use common_host_libs.Multipath.Paths.{keep_active, paths_of_lines_active}
use common_host_libs.Multipath.Maps.{
  multipathd_show_maps, multipathd_reconfigure, get_mpath_name, set_alt_full_path_name,
  multipath_remove_dm_device,
}

abbrev serial : Text
serial = codes "abc123"

abbrev path_lines : List Text
path_lines =
    codes "2abc123 sdb active 3:0:0:1 running ready Nimble,Server"
    ∷ codes "2abc123 sdc failed 4:0:0:1 running faulty Nimble,Server"
    ∷ codes "2def456 sdd active"
    ∷ []

abbrev first_path : PathInfo
first_path = record {
  uuid = codes "abc123";
  device = codes "sdb";
  dm_state = codes "active";
  hcil = codes "3:0:0:1";
  chk_state = codes "ready";
}

abbrev second_path : PathInfo
second_path = record {
  uuid = codes "abc123";
  device = codes "sdc";
  dm_state = codes "failed";
  hcil = codes "4:0:0:1";
  chk_state = codes "faulty";
}

paths_of_lines_active_example :
    paths_of_lines serial true path_lines ≡ some (keep_active (first_path ∷ (second_path ∷ [])))
unfolding paths_of_lines paths_of_line
paths_of_lines_active_example =
    paths_of_lines_active serial path_lines (first_path ∷ (second_path ∷ [])) refl

-- A host that answers nothing but a timeout for two seconds; its state is the time.
abbrev exec : Text → List Text → ℕ → (Text × Option Text) × ℕ
exec command args now =
    if ltb now 2
    then ((codes "timeout", none), now)
    else ((codes "2abc123 sdb active 3:0:0:1 running ready Nimble,Server", none), now)

abbrev sleep : ℕ → ℕ → ℕ
sleep seconds now = suc now

abbrev sample_device : Device
sample_device = record {
  serial_number = serial;
  minor = codes "3";
  mpath_name = codes "mpatha";
  alt_full_path_name = [];
  state = [];
}

queuing_disabled : (multipath_disable_queuing exec sleep sample_device 5).0 ≡ none
unfolding multipath_disable_queuing
queuing_disabled = refl

abbrev nameless_device : Device
nameless_device = record sample_device { mpath_name = [] }

-- Only the file of the map with the minor number 3 can be read.
abbrev read_first_line : Text → ℕ → (Text × Option Text) × ℕ
read_first_line path now =
    if text_eq path (codes "/sys/block/dm-3/dm/name")
    then ((codes "mpathb", none), now)
    else (([], some (codes "no such file")), now)

-- A dmsetup that removes only mpathb.
abbrev dmsetup : Text → List Text → ℕ → (Text × Option Text) × ℕ
dmsetup command args now =
    if text_eq command (codes "dmsetup")
    then elim (get_elem? args 2) [
      | none ↦ (([], some (codes "usage")), now)
      | some name ↦
          (if text_eq name (codes "mpathb")
            then ((codes "ok", none), suc now)
            else ((codes "busy", none), now))
    ]
    else (([], some (codes "no command")), now)

removed_after_lookup :
    multipath_remove_dm_device dmsetup read_first_line sleep nameless_device 5 ≡ (
      (
        none,
        record nameless_device {
          mpath_name = codes "mpathb";
          alt_full_path_name = codes "/dev/mapper/mpathb";
        },
      ),
      6,
    )
unfolding multipath_remove_dm_device set_alt_full_path_name get_mpath_name text_eq
removed_after_lookup = refl

not_removed :
    (multipath_remove_dm_device dmsetup read_first_line sleep sample_device 5).0.0
    ≡ some (codes "failed to remove device map for mpatha. Error: busy")
unfolding multipath_remove_dm_device text_eq
not_removed = refl

not_reconfigured :
    (multipathd_reconfigure dmsetup read_first_line sleep 5).0
    ≡ ([], some (codes "unable to reconfigure multipathd settings, Error: no command "))
unfolding multipathd_reconfigure text_eq
not_reconfigured = refl

shown_maps : (multipathd_show_maps exec read_first_line sleep (codes "xyz") 5).0 ≡ ok []
unfolding multipathd_show_maps multipathd_show_cmd text_eq
shown_maps = refl
