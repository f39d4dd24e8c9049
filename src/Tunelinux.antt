-- ===== src/Tunelinux.antt =====
-- tunelinux/multipath.go: the multipath devices of a host, their mounts and their removal.
-- `exec` runs a command of the host, whose state is W: it gives the output and, if the command failed,
-- the error; a return code that is not 0 comes with an error. `read_mounts` gives the lines of /proc/mounts,
-- or the error, and `decode` is encoding/json. The mutexes are held around one command at a time, and are
-- left out.
pub mod Unmounting
mod Tests
use common_host_libs.Prelude.{
  ℕ, Bool, true, false, not, ◌&&◌, ◌||◌, List, [], ◌∷◌, ◌++◌, Option, none, some, ◌⊎◌, inl, inr,
  if◌then◌else◌,
}
use common_host_libs.Prelude.Int.{ℤ, pos, negsuc}
use common_host_libs.Prelude.Text.{Text, codes, text_eq, contains, is_nil, fields, has_prefix}

-- model.MultipathDevice with the fields that are read here; a path group is the list of its paths' Dev.
pub record MultipathDevice : Type 0 where
  pub name : Text
  pub queueing : Text
  pub paths : ℤ
  pub features : Text
  pub path_faults : ℤ
  pub vend : Text
  pub path_groups : List (List Text)
  pub is_unhealthy : Bool

pub record ProcMount : Type 0 where
  pub device : Text
  pub mount_point : Text
  pub file_system : Text
  pub options : Text

abbrev pub device_vendor_patterns : List Text
device_vendor_patterns = codes "Nimble" ∷ codes "3PARdata" ∷ codes "TrueNAS" ∷ codes "FreeNAS" ∷ []

abbrev pub is_supported_device_vendor : List Text → Text → Bool
is_supported_device_vendor [] vendor = false
is_supported_device_vendor (value ∷ values) vendor =
    text_eq value vendor || is_supported_device_vendor values vendor

abbrev pub is_positive : ℤ → Bool
is_positive (pos ℕ.zero) = false
is_positive (pos (ℕ.suc n)) = true
is_positive (negsuc n) = false

abbrev pub is_known : MultipathDevice → Bool
is_known d = not (is_nil d.vend) && is_supported_device_vendor device_vendor_patterns d.vend

-- `mapItem.Paths < 1 && mapItem.PathFaults > 0`
abbrev pub is_without_path : MultipathDevice → Bool
is_without_path d = not (is_positive d.paths) && is_positive d.path_faults

abbrev pub is_residual : MultipathDevice → Bool
is_residual d =
    elim d.path_groups [ [] ↦ true | g ∷ gs ↦ false ]
    && (text_eq d.queueing (codes "off") && text_eq d.features (codes "0"))

abbrev pub marked : MultipathDevice → MultipathDevice
marked d = if is_without_path d then record d { is_unhealthy = true } else d

-- The loop of GetMultipathDevices.
abbrev pub devices_of : List MultipathDevice → List MultipathDevice
devices_of [] = []
devices_of (d ∷ ds) =
    if is_known d
    then marked d ∷ devices_of ds
    else if is_residual d
    then record d { is_unhealthy = true } ∷ devices_of ds
    else devices_of ds

abbrev pub paths_of_groups : List (List Text) → List Text
paths_of_groups [] = []
paths_of_groups (g ∷ gs) = g ++ paths_of_groups gs

abbrev pub get_block_devices_of_multipath_device : MultipathDevice → List Text
get_block_devices_of_multipath_device device = paths_of_groups device.path_groups

-- A line of /proc/mounts, `none` where it has fewer than six fields.
abbrev pub mount_of : List Text → Option ProcMount
mount_of (d ∷ m ∷ f ∷ o ∷ dump ∷ pass ∷ rest) =
    some (record { device = d; mount_point = m; file_system = f; options = o })
mount_of _ = none

abbrev pub mounts_of_lines : List Text → List ProcMount
mounts_of_lines [] = []
mounts_of_lines (line ∷ lines) = elim (mount_of (fields line)) [
  | none ↦ mounts_of_lines lines
  | some m ↦ m ∷ mounts_of_lines lines
]

abbrev pub mount_points_of : Text → List ProcMount → List Text
mount_points_of device [] = []
mount_points_of device (m ∷ ms) =
    if text_eq m.device device && not (has_prefix m.mount_point (codes "/host/"))
    then m.mount_point ∷ mount_points_of device ms
    else mount_points_of device ms

abbrev pub points_in : Text → List Text ⊎ Text → List Text ⊎ Text
points_in device (inr m) = inr m
points_in device (inl lines) = inl (mount_points_of device (mounts_of_lines lines))

module _ {ℓ} {W : Type ℓ} (exec : Text → List Text → W → (Text × Option Text) × W) where
  unfoldable pub get_multipath_devices :
      (decode : Text → List MultipathDevice ⊎ Text) → W → (List MultipathDevice ⊎ Text) × W
  get_multipath_devices decode w =
      let ((out, e), w') =
        exec (codes "multipathd") (codes "show" ∷ codes "multipaths" ∷ codes "json" ∷ []) w in
      elim e [
        | some m ↦ (inr (codes "Failed to get the multipath devices due to the error: " ++ m), w')
        | none ↦
            (if is_nil out
              then (inr (codes "Invalid multipathd command output received"), w')
              else elim (decode out) [
                | inr m ↦ (inr (codes "Invalid JSON output of multipathd command: " ++ m), w')
                | inl ds ↦ (inl (devices_of ds), w')
              ])
      ]

  unfoldable pub remove_block_devices : List Text → W → Option Text × W
  remove_block_devices [] w = (none, w)
  remove_block_devices (d ∷ ds) w =
      let ((out, e), w') =
        exec (codes "sh")
          (codes "-c" ∷ (codes "echo 1 > /sys/block/" ++ (d ++ codes "/device/delete")) ∷ []) w in
      let rest = remove_block_devices ds w' in elim e [ some m ↦ (some m, w') | none ↦ rest ]

  unfoldable pub remove_block_devices_of_multipath_devices : MultipathDevice → W → Option Text × W
  remove_block_devices_of_multipath_devices device w =
      remove_block_devices (get_block_devices_of_multipath_device device) w

  -- unmount, with its error
  unfoldable pub unmount : Text → W → Option Text × W
  unmount mount_point w = let ((out, e), w') = exec (codes "umount") (mount_point ∷ []) w in (e, w')

  -- The loop of UnmountMultipathDevice.
  unfoldable pub unmount_all : List Text → W → Option Text × W
  unmount_all [] w = (none, w)
  unmount_all (m ∷ ms) w =
      let (e, w') = unmount m w in
      let rest = unmount_all ms w' in elim e [ some t ↦ (some t, w') | none ↦ rest ]

  -- UnmountMultipathDevice behind the search for the mount points.
  abbrev pub unmounted : Text → List Text ⊎ Text → W → Option Text × W
  unmounted device (inl ms) w = unmount_all ms w
  unmounted device (inr m) w = (
    some (
        codes "Error occurred while fetching the mount points of the multipath device "
        ++ (device ++ (b':' ∷ m))),
    w,
  )

  unfoldable pub multipath_device_exists : Text → W → Bool × W
  multipath_device_exists device w =
      let ((out, e), w') = exec (codes "dmsetup") (codes "table" ∷ []) w in
      elim e [ some m ↦ (false, w') | none ↦ (contains out device, w') ]

  unfoldable pub remove_multipath_device : Text → W → Option Text × W
  remove_multipath_device device w =
      let (exists, w') = multipath_device_exists device w in
      if exists
      then (let ((out, e), w'') = exec (codes "dmsetup") (codes "remove" ∷ device ∷ []) w' in
          (e, w''))
      else (none, w')

  unfoldable pub force_delete_multipath_device : Text → W → Option Text × W
  force_delete_multipath_device device w =
      let ((out, e), w') = exec (codes "dmsetup") (codes "remove" ∷ codes "-f" ∷ device ∷ []) w in
      (e, w')

  module _ (read_mounts : W → List Text ⊎ Text) where
    -- findMountPointsOfMultipathDevice behind parseMounts
    unfoldable pub find_mount_points_of_multipath_device : Text → W → List Text ⊎ Text
    find_mount_points_of_multipath_device device w = points_in device (read_mounts w)

    unfoldable pub unmount_multipath_device : Text → W → Option Text × W
    unmount_multipath_device device w =
        unmounted device (find_mount_points_of_multipath_device (codes "/dev/mapper/" ++ device) w)
          w
