-- ===== src/Filesystem/Tests.antt =====
-- linux/mount.go, linux/bmount.go and linux/partition.go on a host with one device.
use common_host_libs.Prelude.{
  ℕ, ◌≡◌, ◌∙◌, sym, ap, subst, refl, Bool, true, false, List, [], ◌∷◌, Option, none, some, inl,
  if◌then◌else◌,
}
use mathlib.Core.Bool.{true≢false}
use common_host_libs.Prelude.Int.{pos}
use common_host_libs.Prelude.Text.{Text, codes, text_eq, is_nil}
use common_host_libs.Prelude.Effects.{Outcome, ok, failed}
use common_host_libs.Filesystem.{Host, Device, get_mounts_entry, verify_mount, verify_unmount}
use common_host_libs.Filesystem.Partitions.{
  DevicePartition, get_largest_partition, retry_get_partition_info, partition_rounds,
  get_partition_info,
}
use common_host_libs.Filesystem.Formatting.{
  get_filesystem_type, create_file_system, create_rounds, retry_create_file_system_with_options,
  setup_on,
}
use common_host_libs.Filesystem.Mounting.{
  mount_rounds, perform_mount, mount_device_with_file_system,
}
use common_host_libs.Filesystem.Remounting.{mount_device, get_mount_options, create_mount_dir}
use common_host_libs.Filesystem.Unmounting.{unmount, unmount_file_system, cleaned_up}
use common_host_libs.Filesystem.Largest.{get_largest_partition-last}
use common_host_libs.Filesystem.Mounted.{Shown, mount_device_with_file_system-Shown}
use common_host_libs.Filesystem.Unmounted.{StaysMounted, removing, unmount_file_system_mounted}
use common_host_libs.Filesystem.Formatted.{
  Formats, StaysFormatted, ShowsType, IsFormatted, setup_on-idempotent,
}

abbrev part : Text → ℕ → DevicePartition
part name size = record { name = name; partition_type = codes "part"; size = pos size }

-- The smaller of the two is the last one.
abbrev two_parts : List DevicePartition
two_parts = part (codes "mpatha1") 900 ∷ part (codes "mpatha2") 100 ∷ []

get_largest_partition-last_example :
    get_largest_partition two_parts ≡ ok (some (part (codes "mpatha2") 100))
unfolding text_eq
get_largest_partition-last_example =
    get_largest_partition-last (part (codes "mpatha1") 900) (part (codes "mpatha2") 100 ∷ []) refl

-- A device with no partition: bare, with a file system, or mounted at /m; its directory may be gone.
data State : Type 0 where
  bare formatted mounted gone : State

abbrev table : State → Text
table mounted = codes "/dev/mapper/mpatha on /m type xfs (rw)"
table s = codes "proc on /proc type proc (rw)"

abbrev blkid_of : State → Text × Option (ℕ × Text)
blkid_of bare = ([], some (2, codes "exit status 2"))
blkid_of s = (codes "/dev/mapper/mpatha: UUID=\"1\" TYPE=\"xfs\"", none)

-- mount without arguments lists, and with some it mounts what has a file system.
abbrev mounts : List Text → State → (Text × Option (ℕ × Text)) × State
mounts [] s = ((table s, none), s)
mounts args bare = (([], some (32, codes "wrong fs type")), bare)
mounts args s = (([], none), mounted)

abbrev exec : Text → List Text → State → (Text × Option (ℕ × Text)) × State
exec command args s =
    if text_eq command (codes "mount")
    then mounts args s
    else if text_eq command (codes "blkid")
    then (blkid_of s, s)
    else if text_eq command (codes "mkfs.xfs")
    then ((codes "meta-data", none), formatted)
    else if text_eq command (codes "umount")
    then (([], none), formatted)
    else (([], none), s)

abbrev host : Host State
host = record {
  exec = exec;
  file_exists = λ p s. true;
  is_dir = λ p s. true;
  read_lines = λ p s. inl (codes "/dev/mapper/mpatha /m xfs rw,noatime 0 0" ∷ []);
  make_dir = λ p s. (none, s);
  remove_all = λ p s. (none, gone);
  sleep = λ n s. s;
  find_lsblk = λ out. [];
  parse_error = λ t. codes "invalid syntax";
}

abbrev path : Text
path = codes "/dev/mapper/mpatha"

mounted_run :
    mount_device_with_file_system host path (codes "/m") [] formatted
    ≡ (ok (some (record { mountpoint = codes "/m"; device_path = path; options = [] })), mounted)
unfolding mount_device_with_file_system get_mounts_entry get_filesystem_type get_partition_info
    retry_get_partition_info partition_rounds perform_mount mount_rounds verify_mount text_eq
mounted_run = refl

mount_device_with_file_system-Shown_example :
    (codes "/m" ≡ codes "/m") × Shown host (codes "/m") mounted
mount_device_with_file_system-Shown_example =
    mount_device_with_file_system-Shown host (codes "/m") path [] formatted
      (record { mountpoint = codes "/m"; device_path = path; options = [] }) mounted mounted_run

bare_run : (mount_device_with_file_system host path (codes "/m") [] bare).1 ≡ bare
unfolding mount_device_with_file_system get_mounts_entry get_filesystem_type get_partition_info
    retry_get_partition_info partition_rounds text_eq
bare_run = refl

setup_run : setup_on host path (codes "xfs") [] bare ≡ (ok tt, formatted)
unfolding setup_on get_filesystem_type get_partition_info retry_get_partition_info partition_rounds
    retry_create_file_system_with_options create_rounds create_file_system text_eq
setup_run = refl

abbrev outcome_text : Outcome Text → Text
outcome_text (ok t) = t
outcome_text r = []

formats : Formats host path (codes "xfs") []
unfolding get_filesystem_type get_partition_info retry_get_partition_info partition_rounds
    create_file_system text_eq
formats w w' e =
    subst (λ u. IsFormatted host path (codes "xfs") [] u) (ap (λ r. r.1) e)
      (formatted, (codes "xfs", (refl, refl)))

stays_formatted : StaysFormatted host path (codes "xfs") []
unfolding get_filesystem_type get_partition_info retry_get_partition_info partition_rounds text_eq
stays_formatted bare w' (t, (e, p)) =
    absurd (true≢false (ap (λ r. is_nil (outcome_text r.0)) e ∙ p))
stays_formatted formatted w' (t, (e, p)) =
    subst (λ u. IsFormatted host path (codes "xfs") [] u) (ap (λ r. r.1) e)
      (formatted, (codes "xfs", (refl, refl)))
stays_formatted mounted w' (t, (e, p)) =
    subst (λ u. IsFormatted host path (codes "xfs") [] u) (ap (λ r. r.1) e)
      (mounted, (codes "xfs", (refl, refl)))
stays_formatted gone w' (t, (e, p)) =
    subst (λ u. IsFormatted host path (codes "xfs") [] u) (ap (λ r. r.1) e)
      (gone, (codes "xfs", (refl, refl)))

setup_on-idempotent_example :
    (u : State) × (ShowsType host path (codes "xfs") [] formatted u
      × (setup_on host path (codes "xfs") [] formatted ≡ (ok tt, u)))
setup_on-idempotent_example =
    setup_on-idempotent host path (codes "xfs") [] formats stays_formatted bare formatted refl
      setup_run

-- Here umount works, but the mount stays; the state tells whether the directory is there.
abbrev stuck_exec : Text → List Text → Bool → (Text × Option (ℕ × Text)) × Bool
stuck_exec command args w = ((codes "/dev/mapper/mpatha on /m type xfs (rw)", none), w)

abbrev stuck : Host Bool
stuck = record {
  exec = stuck_exec;
  file_exists = λ p w. w;
  is_dir = λ p w. w;
  read_lines = λ p w. inl [];
  make_dir = λ p w. (none, true);
  remove_all = λ p w. (none, false);
  sleep = λ n w. w;
  find_lsblk = λ out. [];
  parse_error = λ t. t;
}

stuck-StaysMounted : StaysMounted stuck (codes "/m")
unfolding get_mounts_entry text_eq
stuck-StaysMounted w w' device e = sym (ap (λ r. is_nil (outcome_text r.0)) e)

unmount_file_system_mounted_example :
    unmount_file_system
      (removing stuck (codes "/m") (λ p w. (none, w)) (λ args w. (([], none), w)))
      (codes "/m")
      true
    ≡ unmount_file_system stuck (codes "/m") true
unmount_file_system_mounted_example =
    unmount_file_system_mounted stuck (codes "/m") (λ p w. (none, w)) (λ args w. (([], none), w))
      stuck-StaysMounted true

stuck_run : unmount_file_system stuck (codes "/m") true ≡ (
  failed (codes "unsuccessful in attempt to unmount. /dev/mapper/mpatha  is still mounted at /m"),
  true,
)
unfolding unmount_file_system get_mounts_entry unmount verify_unmount text_eq
stuck_run = refl

unmounted_run : unmount_file_system host (codes "/m") mounted ≡ (ok (some (codes "/m")), gone)
unfolding unmount_file_system get_mounts_entry unmount verify_unmount cleaned_up text_eq
unmounted_run = refl

abbrev the_device : Device
the_device = record {
  serial_number = codes "s1";
  alt_full_path_name = path;
  alt_full_luks_path_name = [];
}

device_run : mount_device host (some the_device) (codes "/m") [] formatted ≡ (
  ok (record {
    mountpoint = codes "/m";
    device_path = path;
    options = codes "rw" ∷ codes "noatime" ∷ [];
  }),
  mounted,
)
unfolding mount_device create_mount_dir get_mount_options mount_device_with_file_system
    get_mounts_entry get_filesystem_type get_partition_info retry_get_partition_info
    partition_rounds perform_mount mount_rounds verify_mount text_eq
device_run = refl
