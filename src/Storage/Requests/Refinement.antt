-- ===== src/Storage/Requests/Refinement.antt =====
-- storageprovider/fake/fake_storage_provider.go: the maps of the provider implement its tables.
use common_host_libs.Prelude.{
  ◌≡◌, refl, sym, ap, fun_ext, ◌∙◌, Bool, true, false, List, [], ◌∷◌, none, some, String, str_eq,
  Dict, lookup, insert, is_some, if◌then◌else◌, Option-cases, Bool-cases, inl, inr,
}
use common_host_libs.Prelude.Int.{ℤ}
use common_host_libs.Model.{MapRef, Volume, Snapshot, zero_snapshot}
use common_host_libs.Storage.{
  ok, failed, Provider, create_volume, create_volume_group, create_snapshot_group, create_snapshot,
  clone_volume, delete_volume, delete_volume_group, delete_snapshot_group, delete_snapshot,
  expand_volume, edit_volume, edit_config, clone_from, clone_snapshot, clone_source, clone_made,
  get_snapshot, snapshot_view, StorageError,
}
use common_host_libs.Storage.Requests.{
  Request, create_volume_req, create_volume_group_req, create_snapshot_group_req,
  create_snapshot_req, clone_volume_req, delete_volume_req, delete_volume_group_req,
  delete_snapshot_group_req, delete_snapshot_req, expand_volume_req, edit_volume_req, forget, apply,
}
use common_host_libs.Storage.Requests.Tables.{
  put, Tables, cloned, clone_step, edited, viewed-write_map, step, tables, is_some-seen,
  shown-insert, shown-erase, steps,
}

abbrev pub observed : {A : Type 0} → Provider A × Bool → Tables A × Bool
observed (p, b) = (tables p, b)

module _ {A T : Type 0} where
  -- The two shapes in which the provider's operations end.
  observed-unless :
      (b c : Bool) (p q : Provider A) (e : StorageError) (x : T) (a : Tables A)
      → b ≡ c
      → a ≡ tables q
      → (if b then (tables p, false) else (a, true))
        ≡ observed (forget (if c then (p, failed e) else (q, ok x)))
  unfolding forget
  observed-unless b true p q e x a h k = rw h refl
  observed-unless b false p q e x a h k = rw h (ap (λ t. (t, true)) k)

  observed-if :
      (b c : Bool) (p q : Provider A) (e : StorageError) (x : T) (a : Tables A)
      → b ≡ c
      → a ≡ tables q
      → (if b then (a, true) else (tables p, false))
        ≡ observed (forget (if c then (q, ok x) else (p, failed e)))
  unfolding forget
  observed-if b true p q e x a h k = rw h (ap (λ t. (t, true)) k)
  observed-if b false p q e x a h k = rw h refl

clone_from-observed :
    {A : Type 0} (q : Provider A) (n : String) (z : ℤ) (s : Snapshot)
    → (cloned n z (tables q), true) ≡ observed (forget (clone_from q n z (some s)))
unfolding clone_from forget
clone_from-observed q n z s =
    ap (λ t. (record (tables q) { volumes = t }, true)) (sym (shown-insert _ q.volumes n _))

module _ {A : Type 0} (p : Provider A) where
  expand_volume-observed :
      (n : String) (z : ℤ)
      → (tables p, is_some ((tables p).volumes n)) ≡ observed (forget (expand_volume p n z))
  unfolding expand_volume forget
  expand_volume-observed n z = elim (Option-cases (lookup n p.volumes)) [
    | inl e ↦ rw (expand_volume, e) refl
    | inr (v, e) ↦ rw (expand_volume, e) refl
  ]

  edit_config-observed :
      (v : Volume) (c : MapRef) (kvs : Dict A)
      → edited (some (v.size, c)) kvs (tables p) ≡ observed (forget (edit_config p v c kvs))
  unfolding edit_config forget
  edit_config-observed v c [] = refl
  edit_config-observed v none (kx ∷ kvs) = refl
  edit_config-observed v (some a) (kx ∷ kvs) =
      ap (λ t. (record (tables p) { maps = t }, true))
        (sym (fun_ext (viewed-write_map p.maps a (kx ∷ kvs))))

  edit_volume-observed :
      (n : String) (kvs : Dict A)
      → edited ((tables p).volumes n) kvs (tables p) ≡ observed (forget (edit_volume p n kvs))
  unfolding edit_volume forget
  edit_volume-observed n kvs = elim (Option-cases (lookup n p.volumes)) [
    | inl e ↦ rw (edit_volume, e) refl
    | inr (v, e) ↦ rw (edit_volume, e) (edit_config-observed v v.config kvs)
  ]

  clone_snapshot-observed :
      (n s : String) (z : ℤ)
      → (if is_some ((tables p).snapshots s)
          then (cloned n z (tables p), true)
          else (tables p, false))
        ≡ observed (forget (clone_snapshot p n s z))
  unfolding clone_snapshot get_snapshot forget
  clone_snapshot-observed n s z = elim (Option-cases (lookup s p.snapshots)) [
    | inl e ↦ rw (clone_snapshot, get_snapshot, e) refl
    | inr (x, e) ↦
        rw (clone_snapshot, get_snapshot, e) (clone_from-observed p n z (snapshot_view x))
  ]

  clone_source-observed :
      (n v : String) (z : ℤ)
      → (if is_some ((tables p).snapshots "testSnapshot") then (tables p, false) else (
        cloned n z (record (tables p) { snapshots = put "testSnapshot" tt (tables p).snapshots }),
        true,
      ))
        ≡ observed (forget (clone_source p n v z))
  unfolding clone_source create_snapshot clone_made forget
  clone_source-observed n v z = elim (Option-cases (lookup "testSnapshot" p.snapshots)) [
    | inl e ↦
        let s : Snapshot = record zero_snapshot {
          id = "testSnapshot";
          name = "testSnapshot";
          volume_id = v;
          volume_name = v;
          ready_to_use = true;
        } in
        rw e (
          ap (λ t. (cloned n z (record (tables p) { snapshots = t }), true))
            (sym (shown-insert (λ x. tt {0}) p.snapshots "testSnapshot" s))
          ∙ clone_from-observed (record p { snapshots = insert "testSnapshot" s p.snapshots }) n z
              s)
    | inr (x, e) ↦ rw e refl
  ]

  clone_volume-observed :
      (n d v s : String) (z : ℤ) (o : MapRef)
      → clone_step n v s z (tables p) ≡ observed (forget (clone_volume p n d v s z o))
  unfolding clone_volume clone_from forget
  clone_volume-observed n d v s z o = elim (Option-cases (lookup n p.volumes)) [
    | inr (x, e) ↦ rw e refl
    | inl e ↦ elim (Bool-cases (str_eq v "")) [
      | inl q ↦ rw (e, q) (clone_snapshot-observed n s z)
      | inr q ↦ elim (Bool-cases (str_eq s "")) [
        | inl r ↦ rw (e, q, r) (clone_source-observed n v z)
        | inr r ↦ rw (e, q, r) refl
      ]
    ]
  ]

  -- The tables behind a request, and whether it succeeds, are those that the abstract provider gives.
  pub apply-refines : (r : Request A) → step r (tables p) ≡ observed (apply r p)
  unfolding apply step
  apply-refines (create_volume_req n d z o) =
      unfold create_volume in
      observed-unless _ _ p _ _ _ _ (is_some-seen _ (lookup n p.volumes))
        (ap (λ t. record (tables p) { volumes = t }) (sym (shown-insert _ p.volumes n _)))
  apply-refines (create_volume_group_req n d o) =
      unfold create_volume_group in
      observed-unless _ _ p _ _ _ _ (is_some-seen _ (lookup n p.volume_groups)) (
        ap (λ t. record (tables p) { volume_groups = t })
          (sym (shown-insert _ p.volume_groups n _)))
  apply-refines (create_snapshot_group_req n s o) =
      unfold create_snapshot_group in
      observed-unless _ _ p _ _ _ _ (is_some-seen _ (lookup n p.snapshot_groups)) (
        ap (λ t. record (tables p) { snapshot_groups = t })
          (sym (shown-insert _ p.snapshot_groups n _)))
  apply-refines (create_snapshot_req n d s o) =
      unfold create_snapshot in
      observed-unless _ _ p _ _ _ _ (is_some-seen _ (lookup n p.snapshots))
        (ap (λ t. record (tables p) { snapshots = t }) (sym (shown-insert _ p.snapshots n _)))
  apply-refines (clone_volume_req n d v s z o) = clone_volume-observed n d v s z o
  apply-refines (delete_volume_req n f) =
      unfold delete_volume in
      observed-if _ _ p _ _ _ _ (is_some-seen _ (lookup n p.volumes))
        (ap (λ t. record (tables p) { volumes = t }) (sym (shown-erase _ p.volumes n)))
  apply-refines (delete_volume_group_req n) =
      unfold delete_volume_group in
      observed-if _ _ p _ _ _ _ (is_some-seen _ (lookup n p.volume_groups))
        (ap (λ t. record (tables p) { volume_groups = t }) (sym (shown-erase _ p.volume_groups n)))
  apply-refines (delete_snapshot_group_req n) =
      unfold delete_snapshot_group in
      observed-if _ _ p _ _ _ _ (is_some-seen _ (lookup n p.snapshot_groups)) (
        ap (λ t. record (tables p) { snapshot_groups = t })
          (sym (shown-erase _ p.snapshot_groups n)))
  apply-refines (delete_snapshot_req n) =
      unfold delete_snapshot in
      observed-if _ _ p _ _ _ _ (is_some-seen _ (lookup n p.snapshots))
        (ap (λ t. record (tables p) { snapshots = t }) (sym (shown-erase _ p.snapshots n)))
  apply-refines (expand_volume_req n z) = expand_volume-observed n z
  apply-refines (edit_volume_req n kvs) = edit_volume-observed n kvs

-- Which requests of a sequence succeed, and the provider behind them.
abbrev pub trace : {A : Type 0} → List (Request A) → Provider A → List Bool × Provider A
trace [] p = ([], p)
trace (r ∷ rs) p = let rest = trace rs (apply r p).0 in ((apply r p).1 ∷ rest.0, rest.1)

-- Whatever requests are made of a provider, in the abstract provider of its tables, what its maps hold
-- included, the same ones succeed, and its tables are those of the provider behind them.
pub trace-refines :
    {A : Type 0} (rs : List (Request A)) (p : Provider A)
    → steps rs (tables p) ≡ ((trace rs p).0, tables (trace rs p).1)
trace-refines [] p = refl
trace-refines (r ∷ rs) p =
    ap (λ x. (let rest = steps rs x.0 in (x.1 ∷ rest.0, rest.1))) (apply-refines p r)
    ∙ ap (λ rest. ((apply r p).1 ∷ rest.0, rest.1)) (trace-refines rs (apply r p).0)
