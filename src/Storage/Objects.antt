-- ===== src/Storage/Objects.antt =====
-- storageprovider/fake/fake_storage_provider.go: what creating, deleting and expanding a volume do
-- to what the provider shows.
use common_host_libs.Prelude.{
  ◌≡◌, refl, Bool, none, some, String, str_eq, eq_iff, lookup, insert, erase, lookup-insert,
  lookup-erase, lookup-insert_self, arith, if◌then◌else◌, Option-cases, Bool-cases, inl, inr,
}
use common_host_libs.Prelude.Int.{ℤ}
use common_host_libs.Model.{MapRef, Volume, zero_volume}
use common_host_libs.Storage.{
  ok, Provider, volume_view, create_volume, get_volume, delete_volume, expand_volume,
}

pub get_volume-none :
    {A : Type 0} (p : Provider A) (id : String)
    → get_volume p id ≡ none
    → lookup id p.volumes ≡ none
unfolding get_volume
get_volume-none p id h = ground arith

module _ {A : Type 0} where
  -- The parts of the provider that hold no volumes are the same.
  pub record SameBesides (p q : Provider A) : Type 0 where
    pub same_snapshots : q.snapshots ≡ p.snapshots
    pub same_volume_groups : q.volume_groups ≡ p.volume_groups
    pub same_snapshot_groups : q.snapshot_groups ≡ p.snapshot_groups
    pub same_maps : q.maps ≡ p.maps

  pub get_volume-insert :
      (p : Provider A) (name : String) (v : Volume) (id : String)
      → get_volume (record p { volumes = insert name v p.volumes }) id
        ≡ (if str_eq name id then some (volume_view v) else get_volume p id)
  unfolding get_volume
  get_volume-insert p name v id = elim (Bool-cases (str_eq name id)) [
    | inl e ↦ ground (arith, lookup-insert name id v p.volumes)
    | inr e ↦ ground (arith, lookup-insert name id v p.volumes)
  ]

  pub get_volume-erase :
      (p : Provider A) (name id : String)
      → get_volume (record p { volumes = erase name p.volumes }) id
        ≡ (if str_eq name id then none else get_volume p id)
  unfolding get_volume
  get_volume-erase p name id = ground (arith, lookup-erase name id p.volumes)

  pub create_fresh :
      (p : Provider A) (name description : String) (size : ℤ) (opts : MapRef)
      → lookup name p.volumes ≡ none
      → let v : Volume = record zero_volume {
        id = name;
        name = name;
        size = size;
        config = opts;
      } in
        create_volume p name description size opts
        ≡ (record p { volumes = insert name v p.volumes }, ok v)
  unfolding create_volume
  create_fresh p name description size opts h = rw (h, create_volume)

  pub delete_found :
      (p : Provider A) (name : String) (force : Bool) {v : Volume}
      → lookup name p.volumes ≡ some v
      → delete_volume p name force ≡ (record p { volumes = erase name p.volumes }, ok tt)
  unfolding delete_volume
  delete_found p name force h = rw (h, delete_volume)

  erase-insert_view :
      (p : Provider A) (name : String) (v : Volume) (id : String)
      → lookup name p.volumes ≡ none
      → get_volume (record p { volumes = erase name (insert name v p.volumes) }) id
        ≡ get_volume p id
  unfolding get_volume
  erase-insert_view p name v id h = ground (
    arith,
    lookup-erase name id (insert name v p.volumes),
    lookup-insert name id v p.volumes,
    eq_iff name id,
  )

  -- CreateVolume under a free name returns a volume with that name as its id, and with the size
  -- and the options given. The provider then shows that volume and every other one as before, and
  -- nothing but the volumes changes.
  pub create_volume-get_volume :
      (p : Provider A) (name description : String) (size : ℤ) (opts : MapRef) (id : String)
      → get_volume p name ≡ none
      → let (q, r) = create_volume p name description size opts in
        (r ≡ ok (record zero_volume { id = name; name = name; size = size; config = opts }))
        × (get_volume q id ≡ (
            if str_eq name id
            then some (record zero_volume { id = name; name = name; size = size })
            else get_volume p id))
        × SameBesides p q
  unfolding create_volume get_volume
  create_volume-get_volume p name description size opts id h =
      let free = get_volume-none p name h in
      let v : Volume = record zero_volume { id = name; name = name; size = size; config = opts } in
      rw (free, create_volume)
        (
          refl,
          get_volume-insert p name v id,
          record {
            same_snapshots = refl;
            same_volume_groups = refl;
            same_snapshot_groups = refl;
            same_maps = refl;
          },
        )

  -- A volume that is created under a free name can be deleted again, and the provider then shows
  -- exactly the volumes that it showed before.
  pub delete_volume-create_volume :
      (p : Provider A) (name description : String) (size : ℤ) (opts : MapRef) (force : Bool)
      (id : String)
      → get_volume p name ≡ none
      → let (q, r) = delete_volume (create_volume p name description size opts).0 name force in
        (r ≡ ok tt) × (get_volume q id ≡ get_volume p id)
  delete_volume-create_volume p name description size opts force id h =
      let free = get_volume-none p name h in
      let v : Volume = record zero_volume { id = name; name = name; size = size; config = opts } in
      let q : Provider A = record p { volumes = insert name v p.volumes } in
      rw (create_fresh p name description size opts free) (
        rw (delete_found q name force (lookup-insert_self name v p.volumes))
          (refl, erase-insert_view p name v id free))

  -- ExpandVolume returns a volume of the new size, but stores it nowhere: the provider goes on to
  -- show the volume as before, with its old size.
  pub expand_volume-get_volume :
      (p : Provider A) (id : String) (size : ℤ) (u : Volume)
      → get_volume p id ≡ some u
      → let (q, r) = expand_volume p id size in
        (v : Volume) × (r ≡ ok v) × (v.size ≡ size) × (get_volume q id ≡ some u)
  unfolding expand_volume
  expand_volume-get_volume p id size u h = elim (Option-cases (lookup id p.volumes)) [
    | inl e ↦ absurd (unfold get_volume in ground arith)
    | inr (v, e) ↦ rw (e, expand_volume) (record v { size = size }, refl, refl, h)
  ]
