-- ===== src/Storage/Requests/Operations.antt =====
-- storageprovider/fake/fake_storage_provider.go: what one operation does to a provider in which each
-- object is stored under its id and name.
use common_host_libs.Prelude.{
  ℕ, ◌≡◌, refl, Bool, true, false, [], ◌∷◌, none, some, String, str_eq, eq_iff, Dict, lookup,
  insert, erase, lookup-insert, lookup-erase, is_some, arith, if◌then◌else◌, Option-cases,
  Bool-cases, inl, inr,
}
use common_host_libs.Prelude.Int.{ℤ}
use common_host_libs.Model.{MapRef, Volume, Snapshot, VolumeGroup, SnapshotGroup}
use common_host_libs.Storage.{
  StorageError, Outcome, ok, failed, panics, Provider, create_snapshot, clone_from, clone_made,
  clone_snapshot, clone_volume, expand_volume, edit_config, edit_volume, get_snapshot,
}

-- Each value is stored under the key that is its id and its name.
module _ {V : Type 0} (id name : V → String) where
  abbrev pub IsKeyed : Dict V → Type 0
  IsKeyed d = (k : String) (v : V) → lookup k d ≡ some v → (id v ≡ k) × (name v ≡ k)

  pub IsKeyed-insert :
      (k : String) (v : V) (d : Dict V) → id v ≡ k → name v ≡ k → IsKeyed d → IsKeyed (insert k v d)
  IsKeyed-insert k v d a b h j w e = elim (Bool-cases (str_eq k j)) [
    | inl same ↦ ground (arith, lookup-insert k j v d, eq_iff k j)
    | inr other ↦ h j w (ground (arith, lookup-insert k j v d))
  ]

  pub IsKeyed-erase : (k : String) (d : Dict V) → IsKeyed d → IsKeyed (erase k d)
  IsKeyed-erase k d h j w e = h j w (ground (arith, lookup-erase k j d))

module _ {A : Type 0} where
  pub record IsWellFormed (p : Provider A) : Type 0 where
    pub volumes : IsKeyed (λ (v : Volume). v.id) (λ v. v.name) p.volumes
    pub snapshots : IsKeyed (λ (s : Snapshot). s.id) (λ s. s.name) p.snapshots
    pub volume_groups : IsKeyed (λ (g : VolumeGroup). g.id) (λ g. g.name) p.volume_groups
    pub snapshot_groups : IsKeyed (λ (g : SnapshotGroup). g.id) (λ g. g.name) p.snapshot_groups

  module _ (p : Provider A) (h : IsWellFormed p) where
    pub with_volumes :
        (d : Dict Volume)
        → IsKeyed (λ (v : Volume). v.id) (λ v. v.name) d
        → IsWellFormed (record p { volumes = d })
    with_volumes d k = record {
      volumes = k;
      snapshots = h.snapshots;
      volume_groups = h.volume_groups;
      snapshot_groups = h.snapshot_groups;
    }

    pub with_snapshots :
        (d : Dict Snapshot)
        → IsKeyed (λ (s : Snapshot). s.id) (λ s. s.name) d
        → IsWellFormed (record p { snapshots = d })
    with_snapshots d k = record {
      volumes = h.volumes;
      snapshots = k;
      volume_groups = h.volume_groups;
      snapshot_groups = h.snapshot_groups;
    }

    pub with_volume_groups :
        (d : Dict VolumeGroup)
        → IsKeyed (λ (g : VolumeGroup). g.id) (λ g. g.name) d
        → IsWellFormed (record p { volume_groups = d })
    with_volume_groups d k = record {
      volumes = h.volumes;
      snapshots = h.snapshots;
      volume_groups = k;
      snapshot_groups = h.snapshot_groups;
    }

    pub with_snapshot_groups :
        (d : Dict SnapshotGroup)
        → IsKeyed (λ (g : SnapshotGroup). g.id) (λ g. g.name) d
        → IsWellFormed (record p { snapshot_groups = d })
    with_snapshot_groups d k = record {
      volumes = h.volumes;
      snapshots = h.snapshots;
      volume_groups = h.volume_groups;
      snapshot_groups = k;
    }

    with_maps : (m : ℕ → Dict A) → IsWellFormed (record p { maps = m })
    with_maps m = record {
      volumes = h.volumes;
      snapshots = h.snapshots;
      volume_groups = h.volume_groups;
      snapshot_groups = h.snapshot_groups;
    }

  -- A call that returns with no error leaves the provider well formed; any other changes nothing.
  abbrev pub Ends : {T : Type 0} → Provider A → Provider A × Outcome T → Type 0
  Ends p (q, ok x) = IsWellFormed q
  Ends p (q, failed e) = q ≡ p
  Ends p (q, panics) = q ≡ p

  pub Ends-unless :
      {T : Type 0} (b : Bool) (p q : Provider A) (e : StorageError) (x : T)
      → IsWellFormed q
      → Ends p (if b then (p, failed e) else (q, ok x))
  Ends-unless true p q e x h = refl
  Ends-unless false p q e x h = h

  pub Ends-if :
      {T : Type 0} (b : Bool) (p q : Provider A) (e : StorageError) (x : T)
      → IsWellFormed q
      → Ends p (if b then (q, ok x) else (p, failed e))
  Ends-if true p q e x h = h
  Ends-if false p q e x h = refl

  clone_from-Ends :
      (p q : Provider A) (n : String) (z : ℤ) (s : Snapshot)
      → IsWellFormed q
      → Ends p (clone_from q n z (some s))
  unfolding clone_from
  clone_from-Ends p q n z s h =
      with_volumes q h _ (IsKeyed-insert _ _ n _ q.volumes refl refl h.volumes)

  clone_made-Ends :
      (p : Provider A) (n : String) (z : ℤ) (r : Provider A × Outcome Snapshot)
      → Ends p r
      → Ends p (clone_made n z r)
  unfolding clone_made
  clone_made-Ends p n z (q, ok s) h = clone_from-Ends p q n z s h
  clone_made-Ends p n z (q, failed e) h = h
  clone_made-Ends p n z (q, panics) h = h

  clone_snapshot-Ends :
      (p : Provider A) (n i : String) (z : ℤ) → IsWellFormed p → Ends p (clone_snapshot p n i z)
  unfolding clone_snapshot
  clone_snapshot-Ends p n i z h = elim (Option-cases (get_snapshot p i)) [
    | inl e ↦ rw (e, clone_snapshot)
    | inr (s, e) ↦ rw (e, clone_snapshot) (clone_from-Ends p p n z s h)
  ]

  pub create_snapshot-Ends :
      (p : Provider A) (n d s : String) (o : MapRef)
      → IsWellFormed p
      → Ends p (create_snapshot p n d s o)
  unfolding create_snapshot
  create_snapshot-Ends p n d s o h =
      Ends-unless _ p _ _ _
        (with_snapshots p h _ (IsKeyed-insert _ _ n _ p.snapshots refl refl h.snapshots))

  pub clone_volume-Ends :
      (p : Provider A) (n d v s : String) (z : ℤ) (o : MapRef)
      → IsWellFormed p
      → Ends p (clone_volume p n d v s z o)
  unfolding clone_volume
  clone_volume-Ends p n d v s z o h = elim (Bool-cases (is_some (lookup n p.volumes))) [
    | inl taken ↦ rw (taken, clone_volume)
    | inr free ↦ elim (Bool-cases (str_eq v "")) [
      | inl a ↦ rw (free, a, clone_volume) (clone_snapshot-Ends p n s z h)
      | inr a ↦ elim (Bool-cases (str_eq s "")) [
        | inl b ↦
            rw (free, a, b, clone_volume)
              (clone_made-Ends p n z (create_snapshot p "testSnapshot" "testSnapshot" v none)
                (create_snapshot-Ends p "testSnapshot" "testSnapshot" v none h))
        | inr b ↦ rw (free, a, b, clone_volume) (unfold clone_from in refl)
      ]
    ]
  ]

  edit_config-Ends :
      (p : Provider A) (v : Volume) (c : MapRef) (kvs : Dict A)
      → IsWellFormed p
      → Ends p (edit_config p v c kvs)
  unfolding edit_config
  edit_config-Ends p v c [] h = h
  edit_config-Ends p v none (kv ∷ kvs) h = refl
  edit_config-Ends p v (some a) (kv ∷ kvs) h = with_maps p h _

  pub expand_volume-Ends :
      (p : Provider A) (n : String) (z : ℤ) → IsWellFormed p → Ends p (expand_volume p n z)
  unfolding expand_volume
  expand_volume-Ends p n z h = elim (Option-cases (lookup n p.volumes)) [
    | inl e ↦ rw (e, expand_volume)
    | inr (v, e) ↦ rw (e, expand_volume) h
  ]

  pub edit_volume-Ends :
      (p : Provider A) (n : String) (kvs : Dict A) → IsWellFormed p → Ends p (edit_volume p n kvs)
  unfolding edit_volume
  edit_volume-Ends p n kvs h = elim (Option-cases (lookup n p.volumes)) [
    | inl e ↦ rw (e, edit_volume)
    | inr (v, e) ↦ rw (e, edit_volume) (edit_config-Ends p v v.config kvs h)
  ]
