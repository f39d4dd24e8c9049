-- ===== src/Storage/Requests.antt =====
-- storageprovider/fake/fake_storage_provider.go: the invariant of the provider under any sequence of
-- the calls that change it.
pub mod Operations
pub mod Invariant
pub mod Tables
pub mod Refinement
use common_host_libs.Prelude.{
  ℕ, ◌≡◌, ◌≢◌, refl, sym, ap, subst, ◌∙◌, Bool, true, false, List, [], ◌∷◌, Option, none, some,
  String, str_eq, eq_iff, Dict, lookup, insert, erase, lookup-insert, lookup-erase, is_some, arith,
  if◌then◌else◌, Option-cases, Bool-cases, inl, inr,
}
use common_host_libs.Prelude.Int.{ℤ}
use common_host_libs.Model.{
  MapRef, Volume, zero_volume, Snapshot, zero_snapshot, VolumeGroup, SnapshotGroup,
}
use common_host_libs.Storage.{
  StorageError, Outcome, ok, failed, panics, Provider, new_fake_storage_provider, create_volume,
  create_volume_group, create_snapshot_group, create_snapshot, clone_from, clone_made,
  clone_snapshot, clone_source, clone_volume, delete_volume, delete_volume_group,
  delete_snapshot_group, delete_snapshot, expand_volume, edit_config, edit_volume, get_snapshot,
  write_map, write_all,
}

-- The calls that change the provider, with their arguments.
pub data Request (A : Type 0) : Type 0 where
  create_volume_req : String → String → ℤ → MapRef → Request A
  create_volume_group_req : String → String → MapRef → Request A
  create_snapshot_group_req : String → String → MapRef → Request A
  create_snapshot_req : String → String → String → MapRef → Request A
  clone_volume_req : String → String → String → String → ℤ → MapRef → Request A
  delete_volume_req : String → Bool → Request A
  delete_volume_group_req : String → Request A
  delete_snapshot_group_req : String → Request A
  delete_snapshot_req : String → Request A
  expand_volume_req : String → ℤ → Request A
  edit_volume_req : String → Dict A → Request A

module _ {A : Type 0} where
  -- The provider after a request, and whether the request returned with no error.
  pub forget : {T : Type 0} → Provider A × Outcome T → Provider A × Bool
  forget (p, ok x) = (p, true)
  forget (p, failed e) = (p, false)
  forget (p, panics) = (p, false)

  pub apply : Request A → Provider A → Provider A × Bool
  unfolding forget
  apply (create_volume_req n d s o) p = forget (create_volume p n d s o)
  apply (create_volume_group_req n d o) p = forget (create_volume_group p n d o)
  apply (create_snapshot_group_req n s o) p = forget (create_snapshot_group p n s o)
  apply (create_snapshot_req n d s o) p = forget (create_snapshot p n d s o)
  apply (clone_volume_req n d v s z o) p = forget (clone_volume p n d v s z o)
  apply (delete_volume_req n f) p = forget (delete_volume p n f)
  apply (delete_volume_group_req n) p = forget (delete_volume_group p n)
  apply (delete_snapshot_group_req n) p = forget (delete_snapshot_group p n)
  apply (delete_snapshot_req n) p = forget (delete_snapshot p n)
  apply (expand_volume_req n s) p = forget (expand_volume p n s)
  apply (edit_volume_req n kvs) p = forget (edit_volume p n kvs)

  pub run : List (Request A) → Provider A → Provider A
  run [] p = p
  run (r ∷ rs) p = run rs (apply r p).0
