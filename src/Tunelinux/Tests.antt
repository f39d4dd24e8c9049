-- ===== src/Tunelinux/Tests.antt =====
-- tunelinux/multipath.go on a host with two mounts of one device.
use common_host_libs.Prelude.{
  ◌≡◌, refl, if◌then◌else◌, true, false, List, [], ◌∷◌, Option, none, some, ◌⊎◌, inl,
}
use common_host_libs.Prelude.Int.{pos}
use common_host_libs.Prelude.Text.{Text, codes, text_eq}
use common_host_libs.Tunelinux.{
  MultipathDevice, get_multipath_devices, remove_block_devices,
  remove_block_devices_of_multipath_devices, multipath_device_exists, remove_multipath_device,
  force_delete_multipath_device,
}

data Mounted : Type 0 where
  both second neither : Mounted

abbrev others : List Text
others =
    codes "/dev/mapper/mpathb /c xfs rw 0 0" ∷ codes "/dev/mapper/mpatha /host/a xfs rw 0 0" ∷ []

abbrev mount_lines : Mounted → List Text
mount_lines both =
    codes "/dev/mapper/mpatha /a xfs rw 0 0" ∷ codes "/dev/mapper/mpatha /b xfs rw 0 0" ∷ others
mount_lines second = codes "/dev/mapper/mpatha /b xfs rw 0 0" ∷ others
mount_lines neither = others

abbrev read_mounts : Mounted → List Text ⊎ Text
read_mounts w = inl (mount_lines w)

abbrev refused : Mounted → (Text × Option Text) × Mounted
refused w = (([], some (codes "not mounted")), w)

-- A umount of /a, and one of /b behind it.
abbrev umount : Text → List Text → Mounted → (Text × Option Text) × Mounted
umount command (m ∷ ms) both = if text_eq m (codes "/a") then (([], none), second) else refused both
umount command (m ∷ ms) second =
    if text_eq m (codes "/b") then (([], none), neither) else refused second
umount command args w = refused w

abbrev residual : MultipathDevice
residual = record {
  name = codes "mpathr";
  queueing = codes "off";
  paths = pos 0;
  features = codes "0";
  path_faults = pos 0;
  vend = [];
  path_groups = [];
  is_unhealthy = false;
}

abbrev nimble : MultipathDevice
nimble = record residual {
  name = codes "mpathn";
  path_faults = pos 2;
  vend = codes "Nimble";
  path_groups = (codes "sdb" ∷ codes "sdc" ∷ []) ∷ (codes "sdd" ∷ []) ∷ [];
}

-- A device with a path is healthy, and one of another vendor is left out.
devices_test :
    (get_multipath_devices
      (λ cmd args (w : Mounted). ((codes "{}", none), w))
      (λ out. inl (
        nimble
        ∷ record nimble { paths = pos 1 }
        ∷ record nimble { vend = codes "Other" }
        ∷ residual
        ∷ []))
      both).0
    ≡ inl (
        record nimble { is_unhealthy = true }
        ∷ record nimble { paths = pos 1 }
        ∷ record residual { is_unhealthy = true }
        ∷ [])
unfolding get_multipath_devices text_eq
devices_test = refl

-- The commands that ran, and an answer by the number of arguments.
abbrev logged : Text → List Text → List (List Text) → (Text × Option Text) × List (List Text)
logged command args w = ((codes "0 1 multipath mpathab", none), args ∷ w)

remove_test :
    (remove_block_devices_of_multipath_devices logged nimble []).1
    ≡ (codes "-c" ∷ codes "echo 1 > /sys/block/sdd/device/delete" ∷ [])
      ∷ (codes "-c" ∷ codes "echo 1 > /sys/block/sdc/device/delete" ∷ [])
      ∷ (codes "-c" ∷ codes "echo 1 > /sys/block/sdb/device/delete" ∷ [])
      ∷ []
unfolding remove_block_devices_of_multipath_devices remove_block_devices
remove_test = refl

-- The table has no mpatha, but a name that starts so.
prefix_test :
    (remove_multipath_device logged (codes "mpatha") []).1
    ≡ (codes "remove" ∷ codes "mpatha" ∷ []) ∷ (codes "table" ∷ []) ∷ []
unfolding remove_multipath_device multipath_device_exists
prefix_test = refl

-- Where the table cannot be read, the device counts as removed.
no_table_test : remove_multipath_device umount (codes "mpatha") neither ≡ (none, neither)
unfolding remove_multipath_device multipath_device_exists
no_table_test = refl

force_test :
    force_delete_multipath_device umount (codes "mpatha") neither
    ≡ (some (codes "not mounted"), neither)
unfolding force_delete_multipath_device
force_test = refl
