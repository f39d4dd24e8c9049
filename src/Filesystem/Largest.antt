-- ===== src/Filesystem/Largest.antt =====
-- linux/partition.go: which partition getLargestPartition gives.
use common_host_libs.Prelude.{◌≡◌, refl, true, List, [], ◌∷◌, some}
use common_host_libs.Prelude.Effects.{ok}
use common_host_libs.Filesystem.Partitions.{
  DevicePartition, is_part, largest_in, get_largest_partition,
}

abbrev pub last_of : DevicePartition → List DevicePartition → DevicePartition
last_of p [] = p
last_of p (q ∷ ps) = last_of q ps

largest_in-last :
    (p : DevicePartition) (ps : List DevicePartition)
    → largest_in true (some p) ps ≡ ok (some (last_of p ps))
largest_in-last p [] = refl
largest_in-last p (q ∷ ps) = largest_in-last q ps

-- When the first of some partitions is of type part, getLargestPartition gives the last of them,
-- whatever their sizes are.
pub get_largest_partition-last :
    (p : DevicePartition) (ps : List DevicePartition)
    → is_part p.partition_type ≡ true
    → get_largest_partition (p ∷ ps) ≡ ok (some (last_of p ps))
unfolding get_largest_partition
get_largest_partition-last p ps h = rw h (largest_in-last p ps)
