-- ===== src/Storage/Clones.antt =====
-- storageprovider/fake/fake_storage_provider.go: CloneVolume on each of its paths.
use common_host_libs.Prelude.{
  ◌≡◌, ◌≢◌, ◌↔◌, refl, sym, ap, ◌∙◌, true, List, ◌∷◌, Option, none, some, String, str_eq, eq_iff,
  lookup, insert, lookup-insert_self, lookup-insert_ne, is_some, arith, Option-cases, Bool-cases,
  inl, inr,
}
use common_host_libs.Prelude.Int.{ℤ}
use common_host_libs.Model.{MapRef, Volume, zero_volume, Snapshot, zero_snapshot}
use common_host_libs.Storage.{
  snapshot_exists, Outcome, ok, failed, panics, Provider, create_snapshot, get_snapshot, clone_from,
  clone_made, clone_snapshot, clone_source, clone_volume, edit_volume, edit_config,
}

module _ {A : Type 0} where
  -- CloneVolume reads through a nil snapshot, and so panics, exactly when the name is free and the
  -- caller gives both a source volume and a snapshot.
  pub clone_volume_panics_iff :
      (p : Provider A) (name description source_id snapshot_id : String) (size : ℤ) (opts : MapRef)
      → ((clone_volume p name description source_id snapshot_id size opts).1 ≡ panics)
        ↔ (lookup name p.volumes ≡ none) × (source_id ≢ "") × (snapshot_id ≢ "")
  unfolding clone_volume create_snapshot
  clone_volume_panics_iff p name description source_id snapshot_id size opts = (
    (λ h.
        (ground arith, ground (arith, eq_iff source_id ""), ground (arith, eq_iff snapshot_id ""))),
    (λ h. ground (arith, eq_iff source_id "", eq_iff snapshot_id "")),
  )

  create_snapshot_taken :
      (p : Provider A) (name description source : String) (opts : MapRef)
      → is_some (lookup name p.snapshots) ≡ true
      → create_snapshot p name description source opts ≡ (p, failed (snapshot_exists name))
  unfolding create_snapshot
  create_snapshot_taken p name description source opts h = rw (h, create_snapshot)

  create_snapshot_free :
      (p : Provider A) (name description source : String) (opts : MapRef)
      → lookup name p.snapshots ≡ none
      → (q : Provider A) × (s : Snapshot) × (create_snapshot p name description source opts
          ≡ (q, ok s))
        × (is_some (lookup name q.snapshots) ≡ true)
        × (q.volumes ≡ p.volumes)
  unfolding create_snapshot
  create_snapshot_free p name description source opts h =
      let s : Snapshot = record zero_snapshot {
        id = name;
        name = name;
        volume_id = source;
        volume_name = source;
        ready_to_use = true;
      } in
      (
        record p { snapshots = insert name s p.snapshots },
        s,
        rw (h, create_snapshot),
        rw (lookup-insert_self name s p.snapshots),
        refl,
      )

  clone_source_refused :
      (p : Provider A) (name source_id : String) (size : ℤ)
      → is_some (lookup "testSnapshot" p.snapshots) ≡ true
      → clone_source p name source_id size ≡ (p, failed (snapshot_exists "testSnapshot"))
  unfolding clone_source clone_made
  clone_source_refused p name source_id size h =
      ap (clone_made name size)
        (create_snapshot_taken p "testSnapshot" "testSnapshot" source_id none h)

  -- What a clone from a volume leaves: its snapshot, and the volumes of other names.
  clone_source_leaves :
      (p : Provider A) (name source_id : String) (size : ℤ) (other : String)
      → name ≢ other
      → (is_some (lookup "testSnapshot" (clone_source p name source_id size).0.snapshots) ≡ true)
        × (lookup other (clone_source p name source_id size).0.volumes ≡ lookup other p.volumes)
  unfolding clone_source clone_made clone_from
  clone_source_leaves p name source_id size other d =
      elim (Option-cases (lookup "testSnapshot" p.snapshots)) [
        | inl free ↦
            let (q, s, made, there, same) =
              create_snapshot_free p "testSnapshot" "testSnapshot" source_id none free in
            let after = ap (clone_made name size) made in
            (
              ap (λ z. is_some (lookup "testSnapshot" z.0.snapshots)) after ∙ there,
              ap (λ z. lookup other z.0.volumes) after
                  ∙ lookup-insert_ne name other
                      (record zero_volume {
                        id = name;
                        name = name;
                        size = size;
                        base_snap_id = s.id;
                      })
                      q.volumes d
                  ∙ ap (lookup other) same,
            )
        | inr (s, there) ↦
            let taken : is_some (lookup "testSnapshot" p.snapshots) ≡ true = rw there in
            rw (clone_source_refused p name source_id size taken) (taken, refl)
      ]

  clone_volume_source :
      (p : Provider A) (name description source : String) (size : ℤ) (opts : MapRef)
      → lookup name p.volumes ≡ none
      → source ≢ ""
      → clone_volume p name description source "" size opts ≡ clone_source p name source size
  unfolding clone_volume
  clone_volume_source p name description source size opts f s =
      elim (Bool-cases (str_eq source "")) [
        | inl e ↦ absurd (s ((eq_iff source "").0 e))
        | inr e ↦ rw (f, e, clone_volume)
      ]

  -- Of two clones that are made from volumes, under two free names and with no snapshot given, the
  -- second one fails, whatever the source volumes are.
  pub clone_volume_twice :
      (p : Provider A) (name name' source source' description : String) (size : ℤ) (opts : MapRef)
      → lookup name p.volumes ≡ none
      → lookup name' p.volumes ≡ none
      → name ≢ name'
      → source ≢ ""
      → source' ≢ ""
      → let q = (clone_volume p name description source "" size opts).0 in
        clone_volume q name' description source' "" size opts
        ≡ (q, failed (snapshot_exists "testSnapshot"))
  clone_volume_twice p name name' source source' description size opts f f' d s s' =
      let (taken, same) = clone_source_leaves p name source size name' d in
      rw (clone_volume_source p name description source size opts f s) (
        clone_volume_source (clone_source p name source size).0 name' description source' size opts
          (same ∙ f') s'
        ∙ clone_source_refused (clone_source p name source size).0 name' source' size taken)

  clone_from_ok :
      (p q : Provider A) (name : String) (size : ℤ) (s : Option Snapshot) (v : Volume)
      → clone_from p name size s ≡ (q, ok v)
      → (lookup name q.volumes ≡ some v) × (v.config ≡ none)
  unfolding clone_from
  clone_from_ok p q name size none v h = absurd (ground arith)
  clone_from_ok p q name size (some s) v h =
      let w : Volume = record zero_volume {
        id = name;
        name = name;
        size = size;
        base_snap_id = s.id;
      } in
      let same : w ≡ v = cc in
      let stored : insert name w p.volumes ≡ q.volumes =
        ap (λ (z : Provider A × Outcome Volume). z.0.volumes) h in
      (
        ap (lookup name) (sym stored) ∙ lookup-insert_self name w p.volumes ∙ ap some same,
        ap (λ (z : Volume). z.config) (sym same),
      )

  clone_made_ok :
      (r : Provider A × Outcome Snapshot) (q : Provider A) (name : String) (size : ℤ) (v : Volume)
      → clone_made name size r ≡ (q, ok v)
      → (lookup name q.volumes ≡ some v) × (v.config ≡ none)
  unfolding clone_made
  clone_made_ok (p, ok s) q name size v h = clone_from_ok p q name size (some s) v h
  clone_made_ok (p, failed e) q name size v h = absurd (ground arith)
  clone_made_ok (p, panics) q name size v h = absurd (ground arith)

  clone_snapshot_ok :
      (p q : Provider A) (name snapshot_id : String) (size : ℤ) (v : Volume)
      → clone_snapshot p name snapshot_id size ≡ (q, ok v)
      → (lookup name q.volumes ≡ some v) × (v.config ≡ none)
  unfolding clone_snapshot
  clone_snapshot_ok p q name snapshot_id size v h =
      elim (Option-cases (get_snapshot p snapshot_id)) [
        | inl e ↦ absurd (ground arith)
        | inr (s, e) ↦ clone_from_ok p q name size (some s) v (rw (e, clone_snapshot) at h)
      ]

  clone_volume_ok :
      (p q : Provider A) (name description source snapshot : String) (size : ℤ) (opts : MapRef)
      (v : Volume)
      → clone_volume p name description source snapshot size opts ≡ (q, ok v)
      → (lookup name q.volumes ≡ some v) × (v.config ≡ none)
  clone_volume_ok p q name description source snapshot size opts v h =
      elim (Bool-cases (is_some (lookup name p.volumes))) [
        | inl taken ↦ absurd (unfold clone_volume in ground arith)
        | inr free ↦ elim (Bool-cases (str_eq source "")) [
          | inl a ↦
              clone_snapshot_ok p q name snapshot size v
                (unfold clone_volume in (rw (free, a, clone_volume) at h))
          | inr a ↦ elim (Bool-cases (str_eq snapshot "")) [
            | inl b ↦
                clone_made_ok (create_snapshot p "testSnapshot" "testSnapshot" source none) q name
                  size v (unfold clone_volume clone_source in (rw (free, a, b, clone_volume) at h))
            | inr b ↦
                clone_from_ok p q name size none v
                  (unfold clone_volume in (rw (free, a, b, clone_volume) at h))
          ]
        ]
      ]

  -- A clone that has just been made cannot be edited: its options are the nil map, so EditVolume
  -- panics at the first parameter.
  pub edit_volume-clone_volume :
      (p q : Provider A) (name description source snapshot : String) (size : ℤ) (opts : MapRef)
      (v : Volume) (key : String) (value : A) (more : List (String × A))
      → clone_volume p name description source snapshot size opts ≡ (q, ok v)
      → edit_volume q name ((key, value) ∷ more) ≡ (q, panics)
  unfolding edit_volume edit_config
  edit_volume-clone_volume p q name description source snapshot size opts v key value more h =
      let (stored, no_config) =
        clone_volume_ok p q name description source snapshot size opts v h in
      rw (stored, edit_volume) (rw (no_config, edit_config))
