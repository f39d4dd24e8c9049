-- ===== src/Filesystem.antt =====
-- linux/mount.go, linux/bmount.go and linux/partition.go: making, mounting and unmounting file systems.
-- What these call of the system are the fields of Host: functions on the state W of the host. A command
-- gives its output and, if it failed, its return code and the error; a return code other than 0 comes
-- with an error, and the time limit of a command is part of it. mountMutex is held around one command at
-- a time, and is left out, as is logging.
pub mod Partitions
pub mod Formatting
pub mod Mounting
pub mod Remounting
pub mod Unmounting
pub mod Largest
pub mod Formatted
pub mod Mounted
pub mod Unmounted
mod Tests
use common_host_libs.Prelude.{
  ℕ, Bool, true, false, List, [], ◌∷◌, ◌++◌, Option, none, some, ◌⊎◌, if◌then◌else◌,
}
use common_host_libs.Prelude.Text.{Text, codes, text_eq, fields, lines, is_nil}
use common_host_libs.Prelude.Effects.{M, ◌>>=◌, pure, fail, call}

-- A match of lsblkPattern in the output of lsblk, with its named groups.
pub record LsblkMatch : Type 0 where
  pub line : Text
  pub name : Text
  pub type : Text
  pub size : Text

-- `find_lsblk` is the regular expression of package regexp, and `parse_error` the text of the error of
-- strconv.ParseInt; `file_exists` and `is_dir` are the answers of util.FileExists.
pub record Host (W : Type 0) : Type 0 where
  pub exec : Text → List Text → W → (Text × Option (ℕ × Text)) × W
  pub file_exists : Text → W → Bool
  pub is_dir : Text → W → Bool
  pub read_lines : Text → W → List Text ⊎ Text
  pub make_dir : Text → W → Option Text × W
  pub remove_all : Text → W → Option Text × W
  pub sleep : ℕ → W → W
  pub find_lsblk : Text → List LsblkMatch
  pub parse_error : Text → Text

-- The fields of model.Device and model.Mount that are read or set here.
pub record Device : Type 0 where
  pub serial_number : Text
  pub alt_full_path_name : Text
  pub alt_full_luks_path_name : Text

pub record Mount : Type 0 where
  pub mountpoint : Text
  pub device_path : Text
  pub options : List Text

-- The path that the code works on: that of the LUKS device, where there is one.
abbrev pub dev_path : Device → Text
dev_path d =
    if is_nil d.alt_full_luks_path_name then d.alt_full_path_name else d.alt_full_luks_path_name

-- The entries at searchIndex and returnIndex of a line with more than three.
abbrev pub columns : Bool → List Text → Option (Text × Text)
columns true (device ∷ on ∷ point ∷ type ∷ rest) = some (device, point)
columns false (device ∷ on ∷ point ∷ type ∷ rest) = some (point, device)
columns dev _ = none

abbrev pub entry_in : Text → Bool → List Text → Text
entry_in path dev [] = []
entry_in path dev (line ∷ rest) = elim (columns dev (fields line)) [
  | none ↦ entry_in path dev rest
  | some (searched, returned) ↦ (if text_eq searched path then returned else entry_in path dev rest)
]

module _ {W : Type 0} (host : Host W) where
  -- A command whose error is returned.
  abbrev pub output_of : Text × Option (ℕ × Text) → M W Text
  output_of (out, none) = pure out
  output_of (out, some (rc, m)) = fail m

  abbrev pub run : Text → List Text → M W Text
  run command args = do r ← call (host.exec command args); output_of r

  unfoldable pub get_mounts_entry : Text → Bool → M W Text
  get_mounts_entry path dev = do out ← run (codes "mount") []; pure (entry_in path dev (lines out))

  abbrev pub get_device_from_mount_point : Text → M W Text
  get_device_from_mount_point mount_point = get_mounts_entry mount_point false

  abbrev pub get_mount_point_from_device : Text → M W Text
  get_mount_point_from_device path = get_mounts_entry path true

  unfoldable pub verify_unmount : Text → M W (Unit {0})
  verify_unmount mount_point = do
    device ← get_device_from_mount_point mount_point
    if is_nil device
        then pure tt
        else fail (
            codes "unsuccessful in attempt to unmount. "
            ++ (device ++ (codes "  is still mounted at " ++ mount_point)))

  unfoldable pub verify_mount : Text → Text → M W (Unit {0})
  verify_mount path mount_point = do
    device ← get_device_from_mount_point mount_point
    if is_nil device
        then fail (codes "device " ++ (path ++ (codes " is not mounted at " ++ mount_point)))
        else pure tt
