-- ===== src/Tunelinux/Unmounting.antt =====
-- tunelinux/multipath.go: UnmountMultipathDevice leaves no mount of the device.
use mathlib.Core.List.{Memᴰ}
use mathlib.Core.List.Memᴰ
use common_host_libs.Prelude.{◌≡◌, ◌≢◌, true, false, List, [], Option, none, ◌⊎◌, inl, inr}
use common_host_libs.Prelude.Text.{Text, codes, has_prefix}
use common_host_libs.Tunelinux.{ProcMount, mounts_of_lines, unmount}

-- The mount is one of the device, and not below /host/.
abbrev pub IsOutside : Text → ProcMount → Type 0
IsOutside device x = (x.device ≡ device) × (has_prefix x.mount_point (codes "/host/") ≡ false)

-- The mounts that a reading of /proc/mounts shows.
abbrev pub shown : List Text ⊎ Text → List ProcMount
shown (inl lines) = mounts_of_lines lines
shown (inr m) = []

-- No mount of the device is there but those below /host/.
abbrev pub IsFreeOf : Text → List ProcMount → Type 0
IsFreeOf device ms =
    (x : ProcMount)
    → Memᴰ x ms
    → x.device ≡ device
    → has_prefix x.mount_point (codes "/host/") ≡ true

module _ {ℓ} {W : Type ℓ} (exec : Text → List Text → W → (Text × Option Text) × W)
    (read_mounts : W → List Text ⊎ Text) where
  abbrev pub IsReadable : W → Type 0
  IsReadable w = (lines : List Text) × (read_mounts w ≡ inl lines)

  -- Behind a umount of m, /proc/mounts can be read still, each mount in it was there before, and none is
  -- at m.
  abbrev pub IsDetached : W → Text → W → Type 0
  IsDetached w m w' =
      IsReadable w'
      × ((x : ProcMount)
          → Memᴰ x (shown (read_mounts w'))
          → Memᴰ x (shown (read_mounts w)) × (x.mount_point ≢ m))

  -- A umount that reports no error detaches what is mounted at its argument. (This holds of a host on
  -- which nothing is mounted over a mount.)
  abbrev pub Detaches : Type ℓ
  Detaches =
      (w : W) (m : Text)
      → IsReadable w
      → (unmount exec m w).0 ≡ none
      → IsDetached w m (unmount exec m w).1

  -- The list has the mount points of all mounts of the device outside /host/.
  abbrev Covers : Text → List Text → W → Type 0
  Covers device points w =
      (x : ProcMount)
      → Memᴰ x (shown (read_mounts w))
      → IsOutside device x
      → Memᴰ x.mount_point points

  -- The state shows that the device is free.
  abbrev pub IsFree : Text → W → Type 0
  IsFree device w = IsReadable w × IsFreeOf device (shown (read_mounts w))
