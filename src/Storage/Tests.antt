-- ===== src/Storage/Tests.antt =====
-- Small scenarios of the provider, and the theorems at concrete inputs.
use common_host_libs.Prelude.{
  ◌↔◌, ℕ, List, true, ◌≡◌, ◌≢◌, refl, false, [], ◌∷◌, none, some, String, eq_iff, Dict, lookup,
  arith,
}
use common_host_libs.Prelude.Int.{pos}
use common_host_libs.Model.{Volume, zero_volume, unknown_type, volume_access_type_string}
use common_host_libs.Storage.{
  panics, ok, Provider, new_fake_storage_provider, create_volume, create_snapshot, get_volume,
  get_volumes, get_snapshots, clone_volume, delete_volume,
}
use common_host_libs.Storage.Objects.{delete_volume-create_volume}
use common_host_libs.Storage.Requests.{
  Request, create_volume_req, clone_volume_req, delete_volume_req, edit_volume_req, apply, run,
}
use common_host_libs.Storage.Clones.{clone_volume_panics_iff}
use common_host_libs.Storage.Requests.Tables.{tables, steps, step}
use common_host_libs.Storage.Requests.Refinement.{trace, trace-refines}
use common_host_libs.Storage.Requests.Operations.{IsWellFormed}
use common_host_libs.Storage.Requests.Invariant.{Settles, apply-Settles, run-IsWellFormed}

abbrev no_maps : ℕ → Dict String
no_maps a = []

abbrev fresh : Provider String
fresh = new_fake_storage_provider no_maps

-- One volume, "v" of 10 bytes.
abbrev one : Provider String
one = (create_volume fresh "v" "" (pos 10) none).0

view_v : Volume
view_v = record zero_volume { id = "v"; name = "v"; size = pos 10 }

one_shows : get_volume one "v" ≡ some view_v
unfolding create_volume get_volume new_fake_storage_provider view_v
one_shows = refl

one_lists : get_volumes one ≡ view_v ∷ []
unfolding create_volume get_volumes new_fake_storage_provider view_v
one_lists = refl

one_is_missing : get_volume one "w" ≡ none
unfolding create_volume get_volume new_fake_storage_provider
one_is_missing = refl

-- GetSnapshots returns the snapshots of all volumes, whichever volume is asked for.
all_snapshots :
    get_snapshots (create_snapshot one "s" "" "v" none).0 "another"
    ≡ get_snapshots (create_snapshot one "s" "" "v" none).0 "v"
unfolding get_snapshots
all_snapshots = refl

delete_volume-create_volume_example :
    let (q, r) = delete_volume (create_volume one "w" "" (pos 5) none).0 "w" false in
    (r ≡ ok tt) × (get_volume q "v" ≡ get_volume one "v")
delete_volume-create_volume_example =
    delete_volume-create_volume one "w" "" (pos 5) none false "v" one_is_missing

free_in_one : (lookup "c" one.volumes ≡ none) × (lookup "d" one.volumes ≡ none)
unfolding create_volume new_fake_storage_provider
free_in_one = (refl, refl)

differ : (◌≢◌ {A = String} "c" "d") × (◌≢◌ {A = String} "v" "")
differ = (ground (arith, eq_iff "c" "d"), ground (arith, eq_iff "v" ""))

clone_made_of_v : Volume
clone_made_of_v = record zero_volume {
  id = "c";
  name = "c";
  size = pos 1;
  base_snap_id = "testSnapshot";
}

cloning :
    clone_volume one "c" "" "v" "" (pos 1) none
    ≡ ((clone_volume one "c" "" "v" "" (pos 1) none).0, ok clone_made_of_v)
unfolding clone_volume create_volume new_fake_storage_provider clone_made_of_v
cloning = refl

apply-Settles_example :
    Settles
      (run (create_volume_req "v" "" (pos 1) none ∷ []) fresh)
      (apply (delete_volume_req "w" false) (run (create_volume_req "v" "" (pos 1) none ∷ []) fresh))
apply-Settles_example =
    apply-Settles (delete_volume_req "w" false)
      (run (create_volume_req "v" "" (pos 1) none ∷ []) fresh)
      (run-IsWellFormed no_maps (create_volume_req "v" "" (pos 1) none ∷ []))

run-IsWellFormed_example : IsWellFormed (
    run
      (create_volume_req "v" "" (pos 1) none ∷ clone_volume_req "c" "" "v" "" (pos 2) none ∷ [])
      fresh)
run-IsWellFormed_example =
    run-IsWellFormed no_maps
      (create_volume_req "v" "" (pos 1) none ∷ clone_volume_req "c" "" "v" "" (pos 2) none ∷ [])

-- UnknownType is the number of MountType.
unknown_access_type : volume_access_type_string unknown_type ≡ "mount"
unknown_access_type = refl

-- A name that is taken, a clone, and the deletion of its source.
clone_volume_panics_iff_example :
    ((clone_volume one "c" "" "v" "s" (pos 1) none).1 ≡ panics)
    ↔ (lookup "c" one.volumes ≡ none) × (◌≢◌ {A = String} "v" "") × (◌≢◌ {A = String} "s" "")
clone_volume_panics_iff_example = clone_volume_panics_iff one "c" "" "v" "s" (pos 1) none

abbrev lifetime : List (Request String)
lifetime =
    create_volume_req "v" "" (pos 10) none
    ∷ create_volume_req "v" "" (pos 20) none
    ∷ clone_volume_req "c" "" "v" "" (pos 10) none
    ∷ delete_volume_req "v" false
    ∷ create_volume_req "o" "" (pos 5) (some 7)
    ∷ edit_volume_req "o" (("limit", "1") ∷ ("limit", "2") ∷ [])
    ∷ []

trace-refines_example :
    steps lifetime (tables fresh) ≡ ((trace lifetime fresh).0, tables (trace lifetime fresh).1)
trace-refines_example = trace-refines lifetime fresh

lifetime_test : (steps lifetime (tables fresh)).0 ≡ true ∷ false ∷ true ∷ true ∷ true ∷ true ∷ []
unfolding step new_fake_storage_provider
lifetime_test = refl

lifetime_map_test : (steps lifetime (tables fresh)).1.maps 7 "limit" ≡ some "2"
unfolding step new_fake_storage_provider
lifetime_map_test = refl
