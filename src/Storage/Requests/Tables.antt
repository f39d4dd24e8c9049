-- ===== src/Storage/Requests/Tables.antt =====
-- storageprovider/fake/fake_storage_provider.go: what the provider promises, as tables that say which
-- names are taken and what the maps hold, with a step for each request and the tables of a provider.
use common_host_libs.Prelude.{
  ℕ, ◌==◌, ◌≡◌, refl, ap, fun_ext, ◌∙◌, Bool, true, false, List, [], ◌∷◌, Option, none, some,
  String, str_eq, Dict, lookup, insert, erase, lookup-insert, lookup-erase, is_some, if◌then◌else◌,
}
use common_host_libs.Prelude.Int.{ℤ}
use common_host_libs.Model.{MapRef, Volume, Snapshot, VolumeGroup, SnapshotGroup}
use common_host_libs.Storage.{Provider, write_all, write_map}
use common_host_libs.Storage.Requests.{
  Request, create_volume_req, create_volume_group_req, create_snapshot_group_req,
  create_snapshot_req, clone_volume_req, delete_volume_req, delete_volume_group_req,
  delete_snapshot_group_req, delete_snapshot_req, expand_volume_req, edit_volume_req,
}

-- What is known of the object of a name, if there is one.
abbrev pub Table : Type 0 → Type 0
Table E = String → Option E

abbrev pub put : {E : Type 0} → String → E → Table E → Table E
put n x t k = if str_eq n k then some x else t k

abbrev pub drop : {E : Type 0} → String → Table E → Table E
drop n t k = if str_eq n k then none else t k

-- The abstract provider: the size of each volume and the map that its options stand in, the names of the
-- other objects, and what each map has under each key, in no order.
pub record Tables (A : Type 0) : Type 0 where
  pub volumes : Table (ℤ × MapRef)
  pub snapshots : Table (Unit {0})
  pub volume_groups : Table (Unit {0})
  pub snapshot_groups : Table (Unit {0})
  pub maps : ℕ → Table A

abbrev pub added :
    {A E : Type 0} → String → E → Table E → (Table E → Tables A) → Tables A → Tables A × Bool
added n x t update a = if is_some (t n) then (a, false) else (update (put n x t), true)

abbrev pub dropped :
    {A E : Type 0} → String → Table E → (Table E → Tables A) → Tables A → Tables A × Bool
dropped n t update a = if is_some (t n) then (update (drop n t), true) else (a, false)

-- The clone of a snapshot, which has to exist, or of a volume, which is not asked for.
abbrev pub cloned : {A : Type 0} → String → ℤ → Tables A → Tables A
cloned n z a = record a { volumes = put n (z, none) a.volumes }

abbrev pub clone_step : {A : Type 0} → String → String → String → ℤ → Tables A → Tables A × Bool
clone_step n source snapshot z a =
    if is_some (a.volumes n)
    then (a, false)
    else if str_eq source ""
    then (if is_some (a.snapshots snapshot) then (cloned n z a, true) else (a, false))
    else if str_eq snapshot ""
    then (if is_some (a.snapshots "testSnapshot")
        then (a, false)
        else (cloned n z (record a { snapshots = put "testSnapshot" tt a.snapshots }), true))
    else (a, false)

abbrev pub put_all : {E : Type 0} → Dict E → Table E → Table E
put_all [] t = t
put_all ((k, x) ∷ kxs) t = put_all kxs (put k x t)

-- The settings of a dictionary, the last one of a key, go into one map.
abbrev pub set_all : {E : Type 0} → ℕ → Dict E → (ℕ → Table E) → ℕ → Table E
set_all m kxs maps b = if m == b then put_all kxs (maps m) else maps b

-- A volume without options can be edited with none only. What is set is seen through every volume whose
-- options stand in the same map.
abbrev pub edited : {A : Type 0} → Option (ℤ × MapRef) → Dict A → Tables A → Tables A × Bool
edited none kvs a = (a, false)
edited (some x) [] a = (a, true)
edited (some (z, none)) (kx ∷ kvs) a = (a, false)
edited (some (z, some m)) (kx ∷ kvs) a = (record a { maps = set_all m (kx ∷ kvs) a.maps }, true)

unfoldable pub step : {A : Type 0} → Request A → Tables A → Tables A × Bool
step (create_volume_req n d z o) a = added n (z, o) a.volumes (λ t. record a { volumes = t }) a
step (create_volume_group_req n d o) a =
    added n tt a.volume_groups (λ t. record a { volume_groups = t }) a
step (create_snapshot_group_req n s o) a =
    added n tt a.snapshot_groups (λ t. record a { snapshot_groups = t }) a
step (create_snapshot_req n d s o) a = added n tt a.snapshots (λ t. record a { snapshots = t }) a
step (clone_volume_req n d v s z o) a = clone_step n v s z a
step (delete_volume_req n f) a = dropped n a.volumes (λ t. record a { volumes = t }) a
step (delete_volume_group_req n) a =
    dropped n a.volume_groups (λ t. record a { volume_groups = t }) a
step (delete_snapshot_group_req n) a =
    dropped n a.snapshot_groups (λ t. record a { snapshot_groups = t }) a
step (delete_snapshot_req n) a = dropped n a.snapshots (λ t. record a { snapshots = t }) a
step (expand_volume_req n z) a = (a, is_some (a.volumes n))
step (edit_volume_req n kvs) a = edited (a.volumes n) kvs a

abbrev pub seen : {V E : Type 0} → (V → E) → Option V → Option E
seen f none = none
seen f (some v) = some (f v)

abbrev pub shown : {V E : Type 0} → (V → E) → Dict V → Table E
shown f m k = seen f (lookup k m)

-- What a map holds, in no order.
abbrev pub viewed : {A : Type 0} → Dict A → Table A
viewed d k = lookup k d

-- The tables of a provider.
abbrev pub tables : {A : Type 0} → Provider A → Tables A
tables p = record {
  volumes = shown (λ (v : Volume). (v.size, v.config)) p.volumes;
  snapshots = shown (λ (s : Snapshot). tt {0}) p.snapshots;
  volume_groups = shown (λ (g : VolumeGroup). tt {0}) p.volume_groups;
  snapshot_groups = shown (λ (g : SnapshotGroup). tt {0}) p.snapshot_groups;
  maps = λ b. viewed (p.maps b);
}

module _ {V E : Type 0} (f : V → E) where
  pub seen-if :
      (b : Bool) (o o' : Option V)
      → seen f (if b then o else o') ≡ (if b then seen f o else seen f o')
  seen-if true o o' = refl
  seen-if false o o' = refl

  pub is_some-seen : (o : Option V) → is_some (seen f o) ≡ is_some o
  is_some-seen none = refl
  is_some-seen (some v) = refl

  pub shown-insert :
      (m : Dict V) (n : String) (v : V) → shown f (insert n v m) ≡ put n (f v) (shown f m)
  shown-insert m n v =
      fun_ext
        (λ k. ap (seen f) (lookup-insert n k v m) ∙ seen-if (str_eq n k) (some v) (lookup k m))

  pub shown-erase : (m : Dict V) (n : String) → shown f (erase n m) ≡ drop n (shown f m)
  shown-erase m n =
      fun_ext (λ k. ap (seen f) (lookup-erase n k m) ∙ seen-if (str_eq n k) none (lookup k m))

viewed-write_all : {A : Type 0} (kxs m : Dict A) → viewed (write_all kxs m) ≡ put_all kxs (viewed m)
viewed-write_all [] m = refl
viewed-write_all ((k, x) ∷ kxs) m =
    viewed-write_all kxs (insert k x m) ∙ ap (put_all kxs) (fun_ext (λ j. lookup-insert k j x m))

viewed-if :
    {A : Type 0} (b : Bool) (d e : Dict A)
    → viewed (if b then d else e) ≡ (if b then viewed d else viewed e)
viewed-if true d e = refl
viewed-if false d e = refl

pub viewed-write_map :
    {A : Type 0} (maps : ℕ → Dict A) (m : ℕ) (kxs : Dict A)
    → (b : ℕ)
    → viewed (write_map maps m (write_all kxs (maps m)) b) ≡ set_all m kxs (λ c. viewed (maps c)) b
viewed-write_map {A} maps m kxs b =
    viewed-if (m == b) (write_all kxs (maps m)) (maps b)
    ∙ ap (λ (t : Table A). if m == b then t else viewed (maps b)) (viewed-write_all kxs (maps m))

abbrev pub steps : {A : Type 0} → List (Request A) → Tables A → List Bool × Tables A
steps [] a = ([], a)
steps (r ∷ rs) a = let rest = steps rs (step r a).0 in ((step r a).1 ∷ rest.0, rest.1)
