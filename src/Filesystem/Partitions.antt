-- ===== src/Filesystem/Partitions.antt =====
-- linux/partition.go: the partitions of a device.
use common_host_libs.Prelude.{
  ℕ, zero, suc, Bool, true, false, not, ◌&&◌, ◌||◌, List, [], ◌∷◌, ◌++◌, Option, none, some,
  if◌then◌else◌,
}
use common_host_libs.Prelude.Int.{ℤ, ltb_ℤ}
use common_host_libs.Prelude.Decimal.{atoi}
use common_host_libs.Prelude.Text.{Text, codes, text_eq, contains, is_nil, has_prefix}
use common_host_libs.Prelude.Effects.{Outcome, ok, panics, M, ◌>>=◌, pure, call, change}
use common_host_libs.Filesystem.{LsblkMatch, Host}

pub record DevicePartition : Type 0 where
  pub name : Text
  pub partition_type : Text
  pub size : ℤ

abbrev pub is_part : Text → Bool
is_part type = text_eq type (codes "part")

-- Is the partition to replace the largest so far?
abbrev pub is_larger : DevicePartition → DevicePartition → Bool
is_larger partition largest = ltb_ℤ largest.size partition.size && is_part partition.partition_type

-- The loop of getLargestPartition. `largest` is nil, or points to the variable of the loop, which all
-- rounds share in this version of Go: behind the pointer stands the partition of the round itself.
abbrev pub largest_in :
    Bool → Option DevicePartition → List DevicePartition → Outcome (Option DevicePartition)
largest_in is_set partition [] = ok (if is_set then partition else none)
largest_in is_set partition (p ∷ ps) =
    if not is_set && is_part p.partition_type
    then largest_in true (some p) ps
    else if is_set
    then largest_in (is_set || is_larger p p) (some p) ps
    else panics

unfoldable pub get_largest_partition : List DevicePartition → Outcome (Option DevicePartition)
get_largest_partition ps = largest_in false none ps

abbrev pub is_heading : LsblkMatch → Bool
is_heading m = is_nil m.line || (has_prefix m.line (codes "NAME") || contains m.line (codes "TYPE"))

-- A list and the error that stopped it.
abbrev pub Partitions : Type 0
Partitions = List DevicePartition × Option Text

abbrev pub before : DevicePartition → Partitions → Partitions
before p (ps, e) = (p ∷ ps, e)

abbrev pub partitions_of : (Text → Text) → List LsblkMatch → Partitions
partitions_of parse_error [] = ([], none)
partitions_of parse_error (m ∷ ms) =
    let rest = partitions_of parse_error ms in
    if is_heading m then rest else elim (atoi m.size) [
      | none ↦ ([], some (parse_error m.size))
      | some size ↦
          (if is_part m.type
            then before (record { name = m.name; partition_type = m.type; size = size }) rest
            else rest)
    ]

module _ {W : Type 0} (host : Host W) where
  abbrev pub get_partitions : Text → Partitions
  get_partitions output = partitions_of host.parse_error (host.find_lsblk output)

  abbrev pub lsblk_args : Text → List Text
  lsblk_args path = codes "-b" ∷ codes "-l" ∷ codes "-o" ∷ codes "NAME,TYPE,SIZE" ∷ path ∷ []

  abbrev pub is_not_block_device : Text × Option (ℕ × Text) → Bool
  is_not_block_device (out, none) = false
  is_not_block_device (out, some (rc, m)) = contains m (codes "not a block device")

  -- What an attempt that is not repeated returns.
  abbrev pub listed : Text → Text × Option (ℕ × Text) → Partitions
  listed path (out, some (rc, m)) = ([], some (codes "unable to execute lsblk command, err=" ++ m))
  listed path (out, none) =
      if contains out (codes "failed to get device path")
      then (
        [],
        some (codes "unable to execute lsblk command for " ++ (path ++ (codes ", err " ++ out))),
      )
      else get_partitions out

  -- The rounds that are left, and the number of the one before.
  unfoldable pub partition_rounds : ℕ → ℕ → Text → M W Partitions
  partition_rounds zero try path = do
    r ← call (host.exec (codes "lsblk") (lsblk_args path))
    pure (listed path r)
  partition_rounds (suc left) try path =
      let later = partition_rounds left (suc try) path in
      do
        r ← call (host.exec (codes "lsblk") (lsblk_args path))
        if is_not_block_device r
            then (do x ← change (host.sleep (suc try)); later)
            else pure (listed path r)

  unfoldable pub retry_get_partition_info : Text → M W Partitions
  retry_get_partition_info path = partition_rounds 3 0 path

  unfoldable pub get_partition_info : Text → M W Partitions
  get_partition_info path =
      if is_nil path
      then pure ([], some (codes "Pathname not set for device  to obtain partition info"))
      else retry_get_partition_info path

  -- The path of the largest partition, or that of the device where there is none.
  abbrev pub largest_path : Text → Outcome (Option DevicePartition) → M W Text
  largest_path path (ok none) = pure path
  largest_path path (ok (some p)) = pure (codes "/dev/mapper/" ++ p.name)
  largest_path path _ = λ w. (panics, w)

  abbrev pub is_empty : List DevicePartition → Bool
  is_empty [] = true
  is_empty (p ∷ ps) = false

  -- isPartitionPresent
  unfoldable pub is_partition_present : Text → M W Bool
  is_partition_present path = do (ps, e) ← get_partition_info path; pure (not (is_empty ps))
