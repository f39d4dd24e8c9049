-- ===== src/Filesystem/Unmounted.antt =====
-- linux/mount.go: no directory is removed while something is mounted there.
use common_host_libs.Prelude.{
  ℕ, List, ◌≡◌, refl, Bool-cases, false, ◌++◌, Option, inl, inr, if◌then◌else◌,
}
use common_host_libs.Prelude.Text.{Text, codes, text_eq, is_nil}
use common_host_libs.Prelude.Effects.{ok, ◌>>=◌, pure, fail}
use common_host_libs.Prelude.Ensures.{Ensures, Ensures-seen, Ensures-run, bind-never, bind-same}
use common_host_libs.Filesystem.{
  Host, get_device_from_mount_point, verify_unmount, get_mounts_entry,
}
use common_host_libs.Filesystem.Unmounting.{
  unmount, cleaned_up, unmount_from, unmount_found, device_of, unmount_file_system,
}

module _ {W : Type 0} (host : Host W) (mount_point : Text) where
  -- Each look at the mount table that succeeds shows a device at the mount point.
  abbrev pub StaysMounted : Type 0
  StaysMounted =
      (w w' : W) (device : Text)
      → get_device_from_mount_point host mount_point w ≡ (ok device, w')
      → is_nil device ≡ false

  -- The host with other ways to remove files: os.RemoveAll and the command rm.
  abbrev pub removing :
      (Text → W → Option Text × W) → (List Text → W → (Text × Option (ℕ × Text)) × W) → Host W
  removing r rm = record host {
    remove_all = r;
    exec = λ command args w.
        if text_eq command (codes "rm") then rm args w else host.exec command args w;
  }

  module _ (r : Text → W → Option Text × W) (rm : List Text → W → (Text × Option (ℕ × Text)) × W)
      (h : StaysMounted) where
    verify_unmount-fails : Ensures (verify_unmount host mount_point) (λ x w. ⊥)
    unfolding verify_unmount
    verify_unmount-fails =
        Ensures-seen (get_device_from_mount_point host mount_point)
          (λ device.
            if is_nil device
            then pure tt
            else fail (
                codes "unsuccessful in attempt to unmount. "
                ++ (device ++ (codes "  is still mounted at " ++ mount_point))))
          (λ x w. ⊥) (λ w device w' e. rw (h w w' device e) tt)

    unmount_from_mounted :
        (device : Text) (w : W)
        → unmount_from (removing r rm) device mount_point w ≡ unmount_from host device mount_point w
    unfolding unmount verify_unmount get_mounts_entry text_eq
    unmount_from_mounted device w =
        bind-same (unmount host mount_point)
          (λ x.
            verify_unmount host mount_point
            >>= (λ y. cleaned_up (removing r rm) device mount_point))
          (λ x. verify_unmount host mount_point >>= (λ y. cleaned_up host device mount_point)) w
          (λ x u.
            bind-never (verify_unmount host mount_point)
              (λ y. cleaned_up (removing r rm) device mount_point)
              (λ y. cleaned_up host device mount_point) u
              (λ y u' e.
                Ensures-run (verify_unmount host mount_point) (λ z v. ⊥) verify_unmount-fails u y u'
                  e))

    unmount_found_mounted :
        (device : Text) (w : W)
        → unmount_found (removing r rm) mount_point device w
          ≡ unmount_found host mount_point device w
    unmount_found_mounted device w = elim (Bool-cases (is_nil device)) [
      | inl p ↦ rw p refl
      | inr p ↦ rw p (unmount_from_mounted device w)
    ]

    -- As long as each look at the mount table that succeeds shows a device at the mount point, a run of
    -- UnmountFileSystem is the same whatever os.RemoveAll and the command rm do: it removes nothing.
    pub unmount_file_system_mounted :
        (w : W)
        → unmount_file_system (removing r rm) mount_point w ≡ unmount_file_system host mount_point w
    unfolding unmount_file_system get_mounts_entry text_eq
    unmount_file_system_mounted w = elim (Bool-cases (is_nil mount_point)) [
      | inl p ↦ rw p refl
      | inr p ↦ elim (Bool-cases (host.file_exists mount_point w)) [
        | inl q ↦
            rw (p, q)
              (bind-same (device_of host mount_point) (unmount_found (removing r rm) mount_point)
                (unmount_found host mount_point) w unmount_found_mounted)
        | inr q ↦ rw (p, q) refl
      ]
    ]
