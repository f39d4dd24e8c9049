-- ===== src/Filesystem/Formatting.antt =====
-- linux/mount.go: the file system on a device, and the making of one.
use common_host_libs.Prelude.{
  ℕ, zero, suc, Bool, ◌||◌, List, [], ◌∷◌, ◌++◌, Option, none, some, ◌⊎◌, inl, inr, ◌==◌,
  if◌then◌else◌,
}
use common_host_libs.Prelude.Decimal.{split}
use common_host_libs.Prelude.Text.{
  Text, codes, text_eq, contains, is_nil, joined, strip_prefix, trim_func,
}
use common_host_libs.Prelude.Effects.{M, ◌>>=◌, pure, fail, call, change, attempt}
use common_host_libs.Filesystem.{Host, Device, dev_path, run}
use common_host_libs.Filesystem.Partitions.{
  DevicePartition, get_partition_info, get_largest_partition, largest_path,
}

abbrev pub first_or_nil : List Text → Text
first_or_nil [] = []
first_or_nil (s ∷ ss) = s

-- The value of an item TYPE="...", without newlines and quotes around it: what follows the first `=`, up
-- to the second.
abbrev pub type_value : Text → Text
type_value s = trim_func (λ c. c == b'"') (trim_func (λ c. c == 10) (first_or_nil (split b'=' s)))

abbrev pub type_in : List Text → Text
type_in [] = []
type_in (item ∷ items) = elim (strip_prefix (codes "TYPE=") item) [
  | none ↦ type_in items
  | some s ↦ type_value s
]

-- The type in the output of blkid.
abbrev pub type_of_output : Text → Text
type_of_output out = if is_nil out then [] else type_in (split b' ' out)

abbrev pub mkfs_command : Text → Option Text
mkfs_command fs_type =
    if text_eq fs_type (codes "xfs")
    then some (codes "mkfs.xfs")
    else if text_eq fs_type (codes "ext3")
    then some (codes "mkfs.ext3")
    else if text_eq fs_type (codes "ext4")
    then some (codes "mkfs.ext4")
    else if text_eq fs_type (codes "ext2")
    then some (codes "mkfs.ext2")
    else if text_eq fs_type (codes "btrfs")
    then some (codes "mkfs.btrfs")
    else none

-- The errors of mkfs that are worth another try.
abbrev pub is_busy : Text → Bool
is_busy m = contains m (codes "No such file or directory") || contains m (codes "busy")

module _ {W : Type 0} (host : Host W) where
  -- The type that blkid shows, whose error counts only with some output.
  abbrev pub shown : Text → Text × Option (ℕ × Text) → M W Text
  shown path (out, none) = pure (type_of_output out)
  shown path (out, some (rc, m)) =
      if is_nil out
      then pure (type_of_output out)
      else fail (codes "Failed to verify if FS exists on device " ++ (path ++ (codes ", " ++ m)))

  abbrev pub type_on : Text → List DevicePartition × Option Text → M W Text
  type_on path (ps, some m) =
      fail (codes "Failed to verify if partitions exists on device " ++ (path ++ (codes ", " ++ m)))
  type_on path ([], none) = do r ← call (host.exec (codes "blkid") (path ∷ [])); shown path r
  type_on path (p ∷ ps, none) = do
    largest ← largest_path host path (get_largest_partition (p ∷ ps))
    r ← call (host.exec (codes "blkid") (largest ∷ []))
    shown largest r

  unfoldable pub get_filesystem_type : Text → M W Text
  get_filesystem_type path = do ps ← get_partition_info host path; type_on path ps

  -- What createFileSystem returns behind its command.
  abbrev pub created : Text → List Text → Text × Option (ℕ × Text) → M W (Unit {0})
  created fs_type options (out, some (rc, m)) = fail (
      codes "unable to create filesystem: "
      ++ (fs_type ++ (codes " with args [" ++ (joined options ++ (codes "]. Error: " ++ m)))))
  created fs_type options (out, none) =
      if is_nil out
      then fail (codes "filesystem not created using [" ++ (joined options ++ codes "]"))
      else pure tt

  unfoldable pub create_file_system : Text → List Text → M W (Unit {0})
  create_file_system fs_type options = elim (mkfs_command fs_type) [
    | none ↦ fail (fs_type ++ codes " filesystem is unsupported")
    | some command ↦ (do r ← call (host.exec command options); created fs_type options r)
  ]

  abbrev pub create_file_system_with_options : Text → Text → List Text → M W (Unit {0})
  create_file_system_with_options path fs_type options =
      create_file_system fs_type (options ++ (path ∷ []))

  -- What a round does with the error of its attempt, if there is one.
  abbrev pub after_attempt : ℕ → M W (Unit {0}) → Unit {0} ⊎ Text → M W (Unit {0})
  after_attempt try later (inl x) = pure x
  after_attempt try later (inr m) =
      if is_busy m then (do x ← change (host.sleep try); later) else fail m

  unfoldable pub create_rounds : ℕ → ℕ → Text → Text → List Text → M W (Unit {0})
  create_rounds zero try path fs_type options = create_file_system_with_options path fs_type options
  create_rounds (suc left) try path fs_type options =
      let later = create_rounds left (suc try) path fs_type options in
      do
        r ← attempt (create_file_system_with_options path fs_type options)
        after_attempt (suc try) later r

  unfoldable pub retry_create_file_system_with_options : Text → Text → List Text → M W (Unit {0})
  retry_create_file_system_with_options path fs_type options =
      create_rounds 8 0 path fs_type options

  abbrev pub retry_create_file_system : Text → Text → M W (Unit {0})
  retry_create_file_system path fs_type = retry_create_file_system_with_options path fs_type []

  abbrev pub setup_beside : Text → Text → List Text → (existing : Text) → M W (Unit {0})
  setup_beside path fs_type options existing =
      if is_nil existing
      then retry_create_file_system_with_options path fs_type options
      else pure tt

  -- Both setups, behind the choice of the path.
  unfoldable pub setup_on : Text → Text → List Text → M W (Unit {0})
  setup_on path fs_type options =
      if is_nil fs_type
      then fail (codes "Missing filesystem type")
      else (do existing ← get_filesystem_type path; setup_beside path fs_type options existing)

  abbrev pub setup_filesystem : Device → Text → M W (Unit {0})
  setup_filesystem device fs_type = setup_on (dev_path device) fs_type []

  -- This one does not look for the path of the LUKS device.
  abbrev pub setup_filesystem_with_options : Device → Text → List Text → M W (Unit {0})
  setup_filesystem_with_options device fs_type options =
      setup_on device.alt_full_path_name fs_type options

  abbrev pub expanded : Text → List Text → M W (Unit {0})
  expanded command args = do out ← run host command args; pure tt

  -- ExpandFilesystem
  unfoldable pub expand_filesystem : (path mount_path fs_type : Text) → M W (Unit {0})
  expand_filesystem path mount_path fs_type =
      if text_eq fs_type (codes "xfs")
      then expanded (codes "xfs_growfs") (mount_path ∷ [])
      else if text_eq fs_type (codes "ext2")
          || (text_eq fs_type (codes "ext3") || text_eq fs_type (codes "ext4"))
      then expanded (codes "resize2fs") (path ∷ [])
      else if text_eq fs_type (codes "btrfs")
      then expanded (codes "btrfs")
          (codes "filesystem" ∷ codes "resize" ∷ codes "max" ∷ mount_path ∷ [])
      else fail (
          codes "unsupported filesystem "
          ++ (fs_type
              ++ (codes " for online expand on dev " ++ (path ++ (codes " mount " ++ mount_path)))))
