-- ===== src/Filesystem/Mounted.antt =====
-- linux/mount.go: a mount that is returned has been seen.
use common_host_libs.Prelude.{
  ℕ, zero, suc, ◌≡◌, refl, subst, Bool-cases, false, ◌||◌, List, [], ◌∷◌, ◌++◌, Option, none, some,
  ◌⊎◌, inl, inr, ◌==◌, arith,
}
use common_host_libs.Prelude.Text.{Text, codes, text_eq, is_nil}
use common_host_libs.Prelude.Effects.{Outcome, ok, failed, panics, M, ◌>>=◌, pure, call, attempt}
use common_host_libs.Prelude.Ensures.{
  Holds, Ensures, Ensures-seen, Ensures-bind, Ensures-then, Ensures-run, attempt-ok,
}
use common_host_libs.Filesystem.{Host, Mount, get_device_from_mount_point, verify_mount}
use common_host_libs.Filesystem.Partitions.{
  DevicePartition, get_partition_info, get_largest_partition,
}
use common_host_libs.Filesystem.Formatting.{get_filesystem_type}
use common_host_libs.Filesystem.Mounting.{
  verified, nouuid_mount, mounted, mount_rounds, perform_mount, mount_largest, mount_some_partition,
  mount_for_partition, mount_whole_or_partition, mount_typed, mount_new, found_or_nil, mount_beside,
  mount_device_with_file_system,
}

module _ {W : Type 0} (host : Host W) (mount_point : Text) where
  -- A look at the mount table led to the state and showed a device at the mount point.
  abbrev pub Shown : W → Type 0
  Shown w' =
      (w : W) × ((device : Text) × ((get_device_from_mount_point host mount_point w
            ≡ (ok device, w'))
          × (is_nil device ≡ false)))

  abbrev pub IsSeen : Mount → W → Type 0
  IsSeen m w = (m.mountpoint ≡ mount_point) × Shown w

  abbrev pub IsSeenIf : Option Mount → W → Type 0
  IsSeenIf none w = Unit {0}
  IsSeenIf (some m) w = IsSeen m w

  verify_mount-Shown : (path : Text) → Ensures (verify_mount host path mount_point) (λ x w. Shown w)
  unfolding verify_mount
  verify_mount-Shown path =
      Ensures-seen (get_device_from_mount_point host mount_point) _ (λ x w. Shown w)
        (λ w device w' e. elim (Bool-cases (is_nil device)) [
          | inl p ↦ rw p tt
          | inr p ↦ rw p (w, (device, (e, p)))
        ])

  verified-IsSeen : (path : Text) → Ensures (verified host path mount_point) IsSeen
  verified-IsSeen path =
      Ensures-then (verify_mount host path mount_point) _ (λ x w. Shown w) IsSeen
        (verify_mount-Shown path) (λ x w s. (refl, s))

  nouuid_mount-IsSeen : (path : Text) → Ensures (nouuid_mount host path mount_point) IsSeen
  nouuid_mount-IsSeen path = Ensures-bind _ _ IsSeen (λ out. verified-IsSeen path)

  mounted-IsSeen :
      (path : Text) (try : ℕ) (later : Option (M W Mount))
      → ((next : M W Mount) → later ≡ some next → Ensures next IsSeen)
      → (r : Text × Option (ℕ × Text)) → Ensures (mounted host path mount_point try later r) IsSeen
  mounted-IsSeen path try later h (out, none) = verified-IsSeen path
  mounted-IsSeen path try none h (out, some (rc, m)) = elim (Bool-cases (rc == 32)) [
    | inl p ↦ rw p (nouuid_mount-IsSeen path)
    | inr p ↦ rw p (λ w. tt)
  ]
  mounted-IsSeen path try (some next) h (out, some (rc, m)) = elim (Bool-cases (rc == 32)) [
    | inl p ↦ rw p (nouuid_mount-IsSeen path)
    | inr p ↦ rw p (λ w. h next refl (host.sleep try w))
  ]

  mount_rounds-IsSeen :
      (left try : ℕ) (path : Text) (args : List Text)
      → Ensures (mount_rounds host left try path mount_point args) IsSeen
  unfolding mount_rounds
  mount_rounds-IsSeen zero try path args =
      Ensures-bind (call (host.exec (codes "mount") args)) _ IsSeen
        (λ r. mounted-IsSeen path (suc try) none (λ next e. absurd (ground (arith, e))) r)
  mount_rounds-IsSeen (suc left) try path args =
      Ensures-bind (call (host.exec (codes "mount") args)) _ IsSeen (λ r.
        mounted-IsSeen path (suc try)
          (some (mount_rounds host left (suc try) path mount_point args))
          (λ next e. subst (λ o. EnsuresIf o) e (mount_rounds-IsSeen left (suc try) path args)) r)
    where
      EnsuresIf : Option (M W Mount) → Type 0
      EnsuresIf none = Unit {0}
      EnsuresIf (some m) = Ensures m IsSeen

  perform_mount-IsSeen :
      (path : Text) (options : List Text)
      → Ensures (perform_mount host path mount_point options) IsSeen
  unfolding perform_mount
  perform_mount-IsSeen path options = mount_rounds-IsSeen 5 0 path _

  some_mount-IsSeenIf :
      (m : M W Mount) → Ensures m IsSeen → Ensures (m >>= (λ a. pure (some a))) IsSeenIf
  some_mount-IsSeenIf m h = Ensures-then m _ IsSeen IsSeenIf h (λ a w s. s)

  mount_largest-IsSeenIf :
      (options : List Text) (o : Outcome (Option DevicePartition))
      → Ensures (mount_largest host mount_point options o) IsSeenIf
  mount_largest-IsSeenIf options (ok none) = λ w. tt
  mount_largest-IsSeenIf options (ok (some p)) =
      some_mount-IsSeenIf (perform_mount host (codes "/dev/mapper/" ++ p.name) mount_point options)
        (perform_mount-IsSeen (codes "/dev/mapper/" ++ p.name) options)
  mount_largest-IsSeenIf options (failed m) = λ w. tt
  mount_largest-IsSeenIf options panics = λ w. tt

  mount_some_partition-IsSeenIf :
      (options : List Text) (ps : List DevicePartition)
      → Ensures (mount_some_partition host mount_point options ps) IsSeenIf
  mount_some_partition-IsSeenIf options [] = λ w. tt
  mount_some_partition-IsSeenIf options (p ∷ ps) =
      mount_largest-IsSeenIf options (get_largest_partition (p ∷ ps))

  mount_whole_or_partition-IsSeenIf :
      (path : Text) (options : List Text) (r : List DevicePartition × Option Text)
      → Ensures (mount_whole_or_partition host path mount_point options r) IsSeenIf
  unfolding mount_for_partition
  mount_whole_or_partition-IsSeenIf path options (ps, some m) = λ w. tt
  mount_whole_or_partition-IsSeenIf path options (p ∷ ps, none) =
      Ensures-bind (get_partition_info host path) _ IsSeenIf
        (λ r. mount_some_partition-IsSeenIf options r.0)
  mount_whole_or_partition-IsSeenIf path options ([], none) =
      some_mount-IsSeenIf (perform_mount host path mount_point options)
        (perform_mount-IsSeen path options)

  mount_typed-IsSeenIf :
      (path : Text) (options : List Text) (fs_type : Text)
      → Ensures (mount_typed host path mount_point options fs_type) IsSeenIf
  mount_typed-IsSeenIf path options fs_type = elim (Bool-cases (is_nil fs_type)) [
    | inl p ↦ rw p (λ w. tt)
    | inr p ↦ rw p (
        Ensures-bind (get_partition_info host path)
          (mount_whole_or_partition host path mount_point options) IsSeenIf
          (mount_whole_or_partition-IsSeenIf path options))
  ]

  mount_new-IsSeenIf :
      (path : Text) (options : List Text)
      → Ensures (mount_new host path mount_point options) IsSeenIf
  mount_new-IsSeenIf path options =
      Ensures-bind (get_filesystem_type host path) (mount_typed host path mount_point options)
        IsSeenIf (mount_typed-IsSeenIf path options)

  -- The look that the mount begins with is the last one where the device is there.
  mount_beside-IsSeenIf :
      (path : Text) (options : List Text) (r : Text ⊎ Text) (w w' : W)
      → attempt (get_device_from_mount_point host mount_point) w ≡ (ok r, w')
      → Holds IsSeenIf (mount_beside host path mount_point options (found_or_nil r) w')
  mount_beside-IsSeenIf path options (inr m) w w' e = mount_new-IsSeenIf path options w'
  mount_beside-IsSeenIf path options (inl device) w w' e = elim (Bool-cases (is_nil device)) [
    | inl p ↦ rw p (mount_new-IsSeenIf path options w')
    | inr p ↦ elim (Bool-cases (text_eq device path)) [
      | inl q ↦
          rw (p, q)
            (
              refl,
              (
                w,
                (
                  device,
                  (attempt-ok (get_device_from_mount_point host mount_point) w device w' e, p),
                ),
              ),
            )
      | inr q ↦ rw (p, q) tt
    ]
  ]

  mount_device_with_file_system-IsSeenIf :
      (path : Text) (options : List Text)
      → Ensures (mount_device_with_file_system host path mount_point options) IsSeenIf
  unfolding mount_device_with_file_system
  mount_device_with_file_system-IsSeenIf path options =
      elim (Bool-cases (is_nil path || is_nil mount_point)) [
        | inl p ↦ rw p (λ w. tt)
        | inr p ↦ rw p (
            Ensures-seen (attempt (get_device_from_mount_point host mount_point))
              (λ r. mount_beside host path mount_point options (found_or_nil r)) IsSeenIf
              (λ w r w' e. mount_beside-IsSeenIf path options r w w' e))
      ]

  -- If MountDeviceWithFileSystem returns a mount, its mount point is the one that was asked for, and the
  -- last command before the return was a look at the mount table that showed a device there.
  pub mount_device_with_file_system-Shown :
      (path : Text) (options : List Text) (w : W) (m : Mount) (w' : W)
      → mount_device_with_file_system host path mount_point options w ≡ (ok (some m), w')
      → (m.mountpoint ≡ mount_point) × Shown w'
  mount_device_with_file_system-Shown path options w m w' e =
      Ensures-run (mount_device_with_file_system host path mount_point options) IsSeenIf
        (mount_device_with_file_system-IsSeenIf path options) w (some m) w' e
