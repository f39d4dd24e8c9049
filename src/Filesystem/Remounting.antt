-- ===== src/Filesystem/Remounting.antt =====
-- linux/mount.go: mounting and remounting a device with the options that are asked for.
use common_host_libs.Prelude.{
  ◌&&◌, ℕ, zero, suc, Bool, true, not, List, [], ◌∷◌, ◌++◌, Option, none, some, ◌⊎◌, inl, inr, ◌==◌,
  if◌then◌else◌,
}
use common_host_libs.Prelude.Decimal.{split}
use common_host_libs.Prelude.Text.{
  Text, codes, text_eq, contains, is_nil, to_lower, joined, fields, trim_space,
}
use common_host_libs.Prelude.Effects.{
  M, ◌>>=◌, pure, fail, panic, call, look, change, attempt, wrap,
}
use common_host_libs.Stringformat.{strings_lookup}
use common_host_libs.Filesystem.{
  Host, Device, Mount, dev_path, run, get_device_from_mount_point, verify_mount,
}
use common_host_libs.Filesystem.Mounting.{
  comma_joined, option_args, found_or_nil, mount_device_with_file_system,
}

-- The options of the first line for a device and a mount point, none where there is no line.
abbrev options_in : Text → Text → List Text → List Text
options_in path mount_point [] = []
options_in path mount_point (line ∷ rest) = elim (fields line) [
  | d ∷ m ∷ t ∷ o ∷ x ∷ xs ↦
      (if text_eq (trim_space d) path && text_eq (trim_space m) mount_point
        then split b',' o
        else options_in path mount_point rest)
  | _ ↦ options_in path mount_point rest
]

module _ {W : Type 0} (host : Host W) where
  unfoldable pub get_mount_options : Text → Text → M W (List Text)
  get_mount_options path mount_point = do
    r ← look (host.read_lines (codes "/proc/mounts"))
    elim r [ inl ls ↦ pure (options_in path mount_point ls) | inr m ↦ fail m ]

  unfoldable pub create_mount_dir : Text → M W Bool
  create_mount_dir mount_point = do
    e ← call (host.make_dir mount_point)
    is_dir ← look (host.is_dir mount_point)
    elim e [
      | none ↦
          (if is_dir
            then pure true
            else fail (codes "failed to create directory at mountpoint " ++ mount_point))
      | some m ↦
          (if not (contains (to_lower m) (codes "file exists"))
            then fail m
            else if is_dir
            then pure true
            else fail (codes "failed to create directory at mountpoint " ++ mount_point))
    ]

  -- The error of MountDevice reads the text of the error, which may be nil.
  abbrev pub unable : Text → Option Mount ⊎ Text → M W Mount
  unable mount_point (inl (some m)) = pure m
  unable mount_point (inl none) = panic
  unable mount_point (inr e) = fail (
      codes "unable to mount the device at mountPoint : "
      ++ (mount_point ++ (codes ". Error: " ++ e)))

  unfoldable pub mount_device : Option Device → Text → List Text → M W Mount
  mount_device none mount_point options = fail (codes "no device or mountPoint present to mount")
  mount_device (some device) mount_point options =
      if is_nil mount_point then fail (codes "no device or mountPoint present to mount") else (do
        x ← create_mount_dir mount_point
        r ← attempt (mount_device_with_file_system host (dev_path device) mount_point options)
        m ← unable mount_point r
        os ←
            wrap
              (λ e.
                codes "Error retrieving the mount options for mountPoint "
                ++ (mount_point ++ (codes ", Err: " ++ e)))
              (get_mount_options (dev_path device) mount_point)
        pure (record m { options = os }))

  unfoldable pub remount_rounds : ℕ → ℕ → List Text → M W (Option (ℕ × Text))
  remount_rounds zero try args = do r ← call (host.exec (codes "mount") args); pure r.1
  remount_rounds (suc left) try args =
      let later = remount_rounds left (suc try) args in
      do
        r ← call (host.exec (codes "mount") args)
        elim (r.1) [ none ↦ pure none | some e ↦ (do x ← change (host.sleep (suc try)); later) ]

  -- The last attempt, which leaves the options out.
  abbrev pub remounted : Text → Option (ℕ × Text) → M W (Unit {0})
  remounted mount_point none = pure tt
  remounted mount_point (some (rc, m)) =
      if rc == 32
      then (do
        out ← run host (codes "mount") (codes "-o" ∷ codes "nouuid" ∷ mount_point ∷ [])
        pure tt)
      else fail m

  unfoldable pub remount_with_options : Text → List Text → M W (Unit {0})
  remount_with_options mount_point [] =
      fail (codes "No mount point or mount options are present to remount")
  remount_with_options mount_point (o ∷ os) =
      if is_nil mount_point
      then fail (codes "No mount point or mount options are present to remount")
      else (do
        e ←
            remount_rounds 5 0
              (codes "-o" ∷ comma_joined (codes "remount" ∷ o ∷ os) ∷ mount_point ∷ [])
        remounted mount_point e)

  abbrev pub options_applied : Device → Text → List Text → Mount → M W Mount
  options_applied device mount_point options m =
      if strings_lookup m.options options then pure m else (do
        x ←
            wrap
              (λ e.
                codes "Error applying mount options ["
                ++ (joined options
                    ++ (codes "] on the mountpoint " ++ (mount_point ++ (codes ", " ++ e)))))
              (remount_with_options mount_point options)
        os ←
            wrap
              (λ e.
                codes "Error retrieving mount options for the mountpoint "
                ++ (mount_point ++ (codes ", " ++ e)))
              (get_mount_options (dev_path device) mount_point)
        pure (record m { options = os }))

  -- SetupMount. Its test for a nil mount cannot meet one.
  unfoldable pub setup_mount : Device → Text → List Text → M W Mount
  setup_mount device mount_point options = do
    m ←
        wrap
          (λ e.
            codes "Error mounting device "
            ++ (device.alt_full_path_name
                ++ (codes " on mountpoint "
                    ++ (mount_point
                        ++ (codes " with options [" ++ (joined options ++ (codes "], " ++ e)))))))
          (mount_device (some device) mount_point options)
    elim options [ [] ↦ pure m | o ∷ os ↦ options_applied device mount_point (o ∷ os) m ]

  unfoldable pub mount_nfs_share : (source target : Text) → List Text → Text → M W (Unit {0})
  mount_nfs_share source target options nfs_type = do
    r ← attempt (get_device_from_mount_point host target)
    if is_nil (found_or_nil r)
        then (do
          out ← run host (codes "mount") (
              option_args options
              ++ ((codes "-t" ++ (if is_nil nfs_type then codes "nfs4" else nfs_type))
                  ∷ source
                  ∷ target
                  ∷ []))
          verify_mount host source target)
        else if text_eq (found_or_nil r) source
        then pure tt
        else fail (
            found_or_nil r
            ++ (codes " is already mounted at "
                ++ (source ++ (codes ". Skipping mount for " ++ target))))
