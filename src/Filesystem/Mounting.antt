-- ===== src/Filesystem/Mounting.antt =====
-- linux/mount.go: mounting, and the options of a mount.
use common_host_libs.Prelude.{
  ℕ, zero, suc, ◌||◌, List, [], ◌∷◌, ◌++◌, Option, none, some, ◌⊎◌, inl, inr, ◌==◌, if◌then◌else◌,
}
use common_host_libs.Prelude.Text.{Text, codes, text_eq, is_nil}
use common_host_libs.Prelude.Effects.{
  Outcome, ok, M, ◌>>=◌, pure, fail, panic, call, change, attempt,
}
use common_host_libs.Filesystem.{Host, Mount, run, get_device_from_mount_point, verify_mount}
use common_host_libs.Filesystem.Partitions.{
  DevicePartition, get_partition_info, get_largest_partition,
}
use common_host_libs.Filesystem.Formatting.{get_filesystem_type}

-- strings.Join with a comma
abbrev pub comma_joined : List Text → Text
comma_joined [] = []
comma_joined (s ∷ []) = s
comma_joined (s ∷ t ∷ rest) = s ++ (b',' ∷ comma_joined (t ∷ rest))

abbrev pub option_args : List Text → List Text
option_args [] = []
option_args (o ∷ os) = codes "-o" ∷ comma_joined (o ∷ os) ∷ []

abbrev pub mount_at : Text → Text → Mount
mount_at path mount_point = record { mountpoint = mount_point; device_path = path; options = [] }

-- The error of the look at the mount table is not read: then no device is there.
abbrev pub found_or_nil : Text ⊎ Text → Text
found_or_nil (inl device) = device
found_or_nil (inr m) = []

module _ {W : Type 0} (host : Host W) where
  abbrev pub verified : Text → Text → M W Mount
  verified path mount_point = do
    x ← verify_mount host path mount_point
    pure (mount_at path mount_point)

  abbrev pub nouuid_mount : Text → Text → M W Mount
  nouuid_mount path mount_point = do
    out ← run host (codes "mount") (codes "-o" ∷ codes "nouuid" ∷ path ∷ mount_point ∷ [])
    verified path mount_point

  -- What a round of performMount does behind its command: `later` is the next round, if there is one.
  abbrev pub mounted : Text → Text → ℕ → Option (M W Mount) → Text × Option (ℕ × Text) → M W Mount
  mounted path mount_point try later (out, none) = verified path mount_point
  mounted path mount_point try later (out, some (rc, m)) =
      if rc == 32
      then nouuid_mount path mount_point
      else elim later [ none ↦ fail m | some next ↦ (do x ← change (host.sleep try); next) ]

  unfoldable pub mount_rounds : ℕ → ℕ → Text → Text → List Text → M W Mount
  mount_rounds zero try path mount_point args = do
    r ← call (host.exec (codes "mount") args)
    mounted path mount_point (suc try) none r
  mount_rounds (suc left) try path mount_point args =
      let later = mount_rounds left (suc try) path mount_point args in
      do
        r ← call (host.exec (codes "mount") args)
        mounted path mount_point (suc try) (some later) r

  unfoldable pub perform_mount : Text → Text → List Text → M W Mount
  perform_mount path mount_point options =
      mount_rounds 5 0 path mount_point (option_args options ++ (path ∷ mount_point ∷ []))

  abbrev pub mount_largest :
      Text → List Text → Outcome (Option DevicePartition) → M W (Option Mount)
  mount_largest mount_point options (ok none) = pure none
  mount_largest mount_point options (ok (some p)) = do
    m ← perform_mount (codes "/dev/mapper/" ++ p.name) mount_point options
    pure (some m)
  mount_largest mount_point options _ = panic

  -- A nil mount with a nil error is `ok none`.
  abbrev pub mount_some_partition : Text → List Text → List DevicePartition → M W (Option Mount)
  mount_some_partition mount_point options [] = pure none
  mount_some_partition mount_point options (p ∷ ps) =
      mount_largest mount_point options (get_largest_partition (p ∷ ps))

  unfoldable pub mount_for_partition : Text → Text → List Text → M W (Option Mount)
  mount_for_partition path mount_point options = do
    r ← get_partition_info host path
    mount_some_partition mount_point options r.0

  abbrev pub mount_whole_or_partition :
      Text → Text → List Text → List DevicePartition × Option Text → M W (Option Mount)
  mount_whole_or_partition path mount_point options (ps, some m) =
      fail (codes "Failed to verify if partitions exist on device " ++ (path ++ (codes ", " ++ m)))
  mount_whole_or_partition path mount_point options (p ∷ ps, none) =
      mount_for_partition path mount_point options
  mount_whole_or_partition path mount_point options ([], none) = do
    m ← perform_mount path mount_point options
    pure (some m)

  abbrev pub mount_typed : Text → Text → List Text → Text → M W (Option Mount)
  mount_typed path mount_point options fs_type =
      if is_nil fs_type
      then fail
          (codes "no filesystem type present on device " ++ (path ++ codes ". Failing mount "))
      else (do
        r ← get_partition_info host path
        mount_whole_or_partition path mount_point options r)

  -- MountDeviceWithFileSystem once nothing is mounted at the mount point.
  abbrev pub mount_new : Text → Text → List Text → M W (Option Mount)
  mount_new path mount_point options = do
    fs_type ← get_filesystem_type host path
    mount_typed path mount_point options fs_type

  abbrev pub already_mounted : (mounted_device path mount_point : Text) → M W (Option Mount)
  already_mounted mounted_device path mount_point =
      if text_eq mounted_device path
      then pure (some (mount_at mounted_device mount_point))
      else fail (
          mounted_device
          ++ (codes " is already mounted at "
              ++ (mount_point ++ (codes ". Skipping mount for " ++ path))))

  abbrev pub mount_beside : Text → Text → List Text → (mounted_device : Text) → M W (Option Mount)
  mount_beside path mount_point options mounted_device =
      if is_nil mounted_device
      then mount_new path mount_point options
      else already_mounted mounted_device path mount_point

  unfoldable pub mount_device_with_file_system : Text → Text → List Text → M W (Option Mount)
  mount_device_with_file_system path mount_point options =
      if is_nil path || is_nil mount_point
      then fail (
          codes "devPath :"
          ++ (path ++ (codes " or mountPoint " ++ (mount_point ++ codes " cannot be empty"))))
      else (do
        r ← attempt (get_device_from_mount_point host mount_point)
        mount_beside path mount_point options (found_or_nil r))
