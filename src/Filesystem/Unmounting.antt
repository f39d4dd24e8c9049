-- ===== src/Filesystem/Unmounting.antt =====
-- linux/mount.go and linux/bmount.go: unmounting, and bind mounts.
use common_host_libs.Prelude.{
  ℕ, zero, suc, Bool, [], ◌∷◌, ◌++◌, Option, none, some, ◌⊎◌, inl, inr, if◌then◌else◌,
}
use common_host_libs.Prelude.Text.{Text, codes, contains, is_nil}
use common_host_libs.Prelude.Effects.{M, ◌>>=◌, pure, fail, call, change, attempt, wrap}
use common_host_libs.Filesystem.{Host, Device, run, get_device_from_mount_point, verify_unmount}

module _ {W : Type 0} (host : Host W) where
  -- An error with the text kill is ignored.
  abbrev pub without_kill : Unit {0} ⊎ Text → M W (Unit {0})
  without_kill (inl x) = pure tt
  without_kill (inr m) = if contains m (codes "kill") then pure tt else fail m

  abbrev pub umount : Text → M W (Unit {0})
  umount mount_point = do out ← run host (codes "umount") (mount_point ∷ []); pure tt

  unfoldable pub unmount : Text → M W (Unit {0})
  unmount mount_point = do r ← attempt (umount mount_point); without_kill r

  -- Its output is only logged.
  abbrev pub flushbufs : Text → M W (Unit {0})
  flushbufs path = do
    r ← call (host.exec (codes "blockdev") (codes "--flushbufs" ∷ path ∷ []))
    pure tt

  -- The attempts to remove the directory that are left, each with a second of sleep behind it.
  abbrev pub remove_rounds : ℕ → Text → M W (Unit {0})
  remove_rounds zero mount_point = pure tt
  remove_rounds (suc left) mount_point =
      let later = remove_rounds left mount_point in
      do
        e ← call (host.remove_all mount_point)
        x ← change (host.sleep 1)
        elim e [ none ↦ pure tt | some m ↦ later ]

  abbrev pub removed_by_force : Text → Option Text → M W (Unit {0})
  removed_by_force mount_point none = pure tt
  removed_by_force mount_point (some m) = do
    x ← remove_rounds 5 mount_point
    r ← call (host.exec (codes "rm") (codes "-r" ∷ codes "-f" ∷ mount_point ∷ []))
    pure tt

  -- What UnmountFileSystem does once the mount point is free.
  unfoldable pub cleaned_up : (device mount_point : Text) → M W (Option Text)
  cleaned_up device mount_point = do
    x ← flushbufs device
    e ← call (host.remove_all mount_point)
    y ← removed_by_force mount_point e
    pure (some mount_point)

  abbrev pub unmount_from : (device mount_point : Text) → M W (Option Text)
  unmount_from device mount_point = do
    x ← unmount mount_point
    y ← verify_unmount host mount_point
    cleaned_up device mount_point

  abbrev pub unmount_found : (mount_point device : Text) → M W (Option Text)
  unmount_found mount_point device =
      if is_nil device then pure none else unmount_from device mount_point

  abbrev pub device_of : Text → M W Text
  device_of mount_point =
      wrap
        (λ e.
          codes "unable to get mounted Device from Mountpoint "
          ++ (mount_point ++ (codes ", err: " ++ e)))
        (get_device_from_mount_point host mount_point)

  -- UnmountFileSystem, with the mount point of the Mount that it returns; `none` is a nil Mount.
  unfoldable pub unmount_file_system : Text → M W (Option Text)
  unmount_file_system mount_point w =
      if is_nil mount_point
      then fail (codes "empty mountpoint was passed") w
      else if host.file_exists mount_point w
      then (device_of mount_point >>= unmount_found mount_point) w
      else fail (codes "mountpoint " ++ (mount_point ++ codes " does not exist")) w

  abbrev pub unmount_device : Option Device → Text → M W (Option Text)
  unmount_device none mount_point = fail (codes "no device or mountPoint present to unmount")
  unmount_device (some device) mount_point =
      if is_nil mount_point
      then fail (codes "no device or mountPoint present to unmount")
      else unmount_file_system mount_point

  unfoldable pub bind_mount : Text → Text → Bool → M W (Unit {0})
  bind_mount path mount_point rbind = do
    out ←
        run host (codes "mount")
          ((if rbind then codes "--rbind" else codes "--bind") ∷ path ∷ mount_point ∷ [])
    pure tt

  unfoldable pub bind_unmount : Text → M W (Unit {0})
  bind_unmount mount_point = do
    device ←
        wrap
          (λ e.
            codes "Unable to get mounted device from mountpoint "
            ++ (mount_point ++ (codes ", err: " ++ e)))
          (get_device_from_mount_point host mount_point)
    if is_nil device then pure tt else unmount mount_point

  -- RetryBindMount and RetryBindUnmount: the attempts that are left behind the one that is made.
  abbrev pub retried : M W (Unit {0}) → ℕ → ℕ → M W (Unit {0})
  retried m zero try = m
  retried m (suc left) try =
      let later = retried m left (suc try) in
      do
        r ← attempt m
        elim r [ inl x ↦ pure tt | inr e ↦ (do x ← change (host.sleep (suc try)); later) ]

  unfoldable pub retry_bind_mount : Text → Text → Bool → M W (Unit {0})
  retry_bind_mount path mount_point rbind = retried (bind_mount path mount_point rbind) 3 0

  unfoldable pub retry_bind_unmount : Text → M W (Unit {0})
  retry_bind_unmount mount_point = retried (bind_unmount mount_point) 3 0
