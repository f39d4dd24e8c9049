-- ===== src/Mounts/Tests.antt =====
-- linux/mount.go on a small updatedb.conf, and on owners.
use common_host_libs.Prelude.{◌≡◌, refl, true, false, List, [], ◌∷◌, none, some, ◌⊎◌, inl}
use common_host_libs.Prelude.Text.{Text, codes, text_eq}
use common_host_libs.Prelude.Decimal.{atoi}
use common_host_libs.Mounts.{
  prune_paths, update_db_configuration, exclude_mount_dir_from_update_db, FilesystemOpts, answer,
  failed, panics, owner_mismatch, is_fs_owner_match, are_fs_options_compatible,
}
use common_host_libs.Mounts.Pruning.{update_db_configuration_idempotent}

abbrev conf : List Text
conf =
    codes "PRUNE_BIND_MOUNTS=\"yes\""
    ∷ codes "PRUNEPATHS = \"/tmp /var/spool\""
    ∷ codes "PRUNEPATHS=\"/media\""
    ∷ []

abbrev conf_updated : List Text
conf_updated =
    codes "PRUNE_BIND_MOUNTS=\"yes\""
    ∷ codes "PRUNEPATHS=\"/tmp /var/spool /opt/hpe\""
    ∷ codes "PRUNEPATHS=\"/media\""
    ∷ []

update_test : update_db_configuration conf (codes "/opt/hpe") ≡ (conf_updated, true)
unfolding update_db_configuration prune_paths text_eq
update_test = refl

update_db_configuration_idempotent_example :
    update_db_configuration (update_db_configuration conf (codes "/opt/hpe")).0 (codes "/opt/hpe")
    ≡ ((update_db_configuration conf (codes "/opt/hpe")).0, false)
update_db_configuration_idempotent_example =
    update_db_configuration_idempotent (codes "/opt/hpe")
      (refl, (refl, (refl, (refl, (refl, (refl, (refl, (refl, tt)))))))) refl conf

exclude_test :
    exclude_mount_dir_from_update_db
      (λ (ls : List Text). true)
      (λ ls. ls)
      (λ ls w. (none, ls))
      (codes "/opt/hpe")
      conf
    ≡ (none, conf_updated)
unfolding exclude_mount_dir_from_update_db update_db_configuration prune_paths text_eq
exclude_test = refl

abbrev id_of_name : Text → Text ⊎ Text
id_of_name name = inl (codes "0")

owner_test :
    is_fs_owner_match id_of_name id_of_name (codes "root:100") (codes "0:100") ≡ answer true
unfolding is_fs_owner_match atoi text_eq
owner_test = refl

-- An owner without a colon panics.
no_colon_test : is_fs_owner_match id_of_name id_of_name (codes "root") (codes "0:0") ≡ panics
unfolding is_fs_owner_match
no_colon_test = refl

abbrev xfs_opts : Text → FilesystemOpts
xfs_opts owner = record { fs_type = codes "xfs"; mode = codes "755"; owner = owner }

compatible_test :
    are_fs_options_compatible id_of_name id_of_name
      (some (xfs_opts (codes "7:root")))
      (some (xfs_opts (codes "8:0")))
    ≡ failed (owner_mismatch (codes "8:0") (codes "7:root"))
unfolding are_fs_options_compatible is_fs_owner_match atoi text_eq
compatible_test = refl
