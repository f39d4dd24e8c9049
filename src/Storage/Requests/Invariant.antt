-- ===== src/Storage/Requests/Invariant.antt =====
-- storageprovider/fake/fake_storage_provider.go: each object stays under its own id and name, and a
-- request that fails changes nothing.
use common_host_libs.Prelude.{
  ℕ, ◌≡◌, refl, sym, subst, Bool, true, false, List, [], ◌∷◌, Dict, arith,
}
use common_host_libs.Storage.{
  Outcome, ok, failed, panics, Provider, new_fake_storage_provider, create_volume,
  create_volume_group, create_snapshot_group, delete_volume, delete_volume_group,
  delete_snapshot_group, delete_snapshot,
}
use common_host_libs.Storage.Requests.{
  Request, create_volume_req, create_volume_group_req, create_snapshot_group_req,
  create_snapshot_req, clone_volume_req, delete_volume_req, delete_volume_group_req,
  delete_snapshot_group_req, delete_snapshot_req, expand_volume_req, edit_volume_req, forget, apply,
  run,
}
use common_host_libs.Storage.Requests.Operations.{
  IsWellFormed, IsKeyed-insert, IsKeyed-erase, with_volumes, with_snapshots, with_volume_groups,
  with_snapshot_groups, Ends, Ends-unless, Ends-if, create_snapshot-Ends, clone_volume-Ends,
  expand_volume-Ends, edit_volume-Ends,
}

module _ {A : Type 0} where
  -- The same of what `forget` keeps.
  abbrev pub Settles : Provider A → Provider A × Bool → Type 0
  Settles p (q, true) = IsWellFormed q
  Settles p (q, false) = q ≡ p

  forget-Settles :
      {T : Type 0} (p : Provider A) (r : Provider A × Outcome T) → Ends p r → Settles p (forget r)
  unfolding forget
  forget-Settles p (q, ok x) h = h
  forget-Settles p (q, failed e) h = h
  forget-Settles p (q, panics) h = h

  -- From a provider in which each object is stored under its id and name, every request that
  -- returns with no error leads to such a provider again, and every request that fails or panics
  -- leaves the provider exactly as it was.
  pub apply-Settles : (r : Request A) (p : Provider A) → IsWellFormed p → Settles p (apply r p)
  unfolding apply
  apply-Settles (create_volume_req n d s o) p h = forget-Settles p _ (
      unfold create_volume in
      Ends-unless _ p _ _ _
        (with_volumes p h _ (IsKeyed-insert _ _ n _ p.volumes refl refl h.volumes)))
  apply-Settles (create_volume_group_req n d o) p h = forget-Settles p _ (
      unfold create_volume_group in
      Ends-unless _ p _ _ _ (
        with_volume_groups p h _
          (IsKeyed-insert _ _ n _ p.volume_groups refl refl h.volume_groups)))
  apply-Settles (create_snapshot_group_req n s o) p h = forget-Settles p _ (
      unfold create_snapshot_group in
      Ends-unless _ p _ _ _ (
        with_snapshot_groups p h _
          (IsKeyed-insert _ _ n _ p.snapshot_groups refl refl h.snapshot_groups)))
  apply-Settles (create_snapshot_req n d s o) p h =
      forget-Settles p _ (create_snapshot-Ends p n d s o h)
  apply-Settles (clone_volume_req n d v s z o) p h =
      forget-Settles p _ (clone_volume-Ends p n d v s z o h)
  apply-Settles (delete_volume_req n f) p h = forget-Settles p _ (
      unfold delete_volume in
      Ends-if _ p _ _ _ (with_volumes p h _ (IsKeyed-erase _ _ n p.volumes h.volumes)))
  apply-Settles (delete_volume_group_req n) p h = forget-Settles p _ (
      unfold delete_volume_group in
      Ends-if _ p _ _ _
        (with_volume_groups p h _ (IsKeyed-erase _ _ n p.volume_groups h.volume_groups)))
  apply-Settles (delete_snapshot_group_req n) p h = forget-Settles p _ (
      unfold delete_snapshot_group in
      Ends-if _ p _ _ _
        (with_snapshot_groups p h _ (IsKeyed-erase _ _ n p.snapshot_groups h.snapshot_groups)))
  apply-Settles (delete_snapshot_req n) p h = forget-Settles p _ (
      unfold delete_snapshot in
      Ends-if _ p _ _ _ (with_snapshots p h _ (IsKeyed-erase _ _ n p.snapshots h.snapshots)))
  apply-Settles (expand_volume_req n s) p h = forget-Settles p _ (expand_volume-Ends p n s h)
  apply-Settles (edit_volume_req n kvs) p h = forget-Settles p _ (edit_volume-Ends p n kvs h)

  new_fake_storage_provider-IsWellFormed :
      (maps : ℕ → Dict A) → IsWellFormed (new_fake_storage_provider maps)
  unfolding new_fake_storage_provider
  new_fake_storage_provider-IsWellFormed maps = record {
    volumes = λ k v e. absurd (ground arith);
    snapshots = λ k v e. absurd (ground arith);
    volume_groups = λ k v e. absurd (ground arith);
    snapshot_groups = λ k v e. absurd (ground arith);
  }

  Settles-IsWellFormed :
      (p : Provider A) (r : Provider A × Bool) → IsWellFormed p → Settles p r → IsWellFormed r.0
  Settles-IsWellFormed p (q, true) h s = s
  Settles-IsWellFormed p (q, false) h s = subst IsWellFormed (sym s) h

  run_from-IsWellFormed :
      (rs : List (Request A)) (p : Provider A) → IsWellFormed p → IsWellFormed (run rs p)
  unfolding run
  run_from-IsWellFormed [] p h = h
  run_from-IsWellFormed (r ∷ rs) p h =
      run_from-IsWellFormed rs (apply r p).0
        (Settles-IsWellFormed p (apply r p) h (apply-Settles r p h))

  -- After any sequence of requests to a new provider, whatever their outcomes, each volume,
  -- snapshot and group is stored under the key that is both its id and its name.
  pub run-IsWellFormed :
      (maps : ℕ → Dict A) (rs : List (Request A))
      → IsWellFormed (run rs (new_fake_storage_provider maps))
  run-IsWellFormed maps rs =
      run_from-IsWellFormed rs (new_fake_storage_provider maps)
        (new_fake_storage_provider-IsWellFormed maps)
