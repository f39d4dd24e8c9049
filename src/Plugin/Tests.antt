-- ===== src/Plugin/Tests.antt =====
-- dockerplugin/plugin/plugin.go: the options of a request under a small configuration.
use common_host_libs.Prelude.{ℕ, ◌≡◌, refl, String, List, [], ◌∷◌, none, some, lookup}
use common_host_libs.Prelude.Int.{pos}
use common_host_libs.Prelude.Decimal.{atoi}
use common_host_libs.Prelude.Text.{codes}
use common_host_libs.Prelude.Effects.{ok, panics}
use common_host_libs.Jconfig.{Json, text, number, object, end, field, Config, get_map}
use common_host_libs.Plugin.{
  linux, windows, populate_all, populate_config_opts_by_section, get_updated_opts_from_config,
  initialize_mount_conflict_delay, initialize_delete_conflict_delay,
}
use common_host_libs.Plugin.Merging.{◌or_else◌, first_in, last_in, filesystem_in, volume_dir_in}
use common_host_libs.Plugin.Precedence.{opts_of, get_updated_opts_from_config-precedence}

abbrev config : Config ℕ
config =
    (
      "global",
      object (
          field "size" (number 10) (
            field "filesystem" (text (codes "xfs")) (
              field "mountConflictDelay" (number 5)
                (field "deleteConflictDelay" (text (codes "7")) end)))),
    )
    ∷ ("defaults", object (field "filesystem" (text (codes "ext4")) (field "pool" (number 1) end)))
    ∷ ("overrides", object (field "pool" (number 2) end))
    ∷ []

abbrev request : List (String × Json ℕ)
request = ("pool", number 3) ∷ []

get_updated_opts_from_config_test :
    get_updated_opts_from_config linux (some config) (some request) ≡ (
      ok tt,
      some (
          ("pool", number 2)
          ∷ ("sizeInGiB", number 10)
          ∷ ("filesystem", text (codes "xfs"))
          ∷ ("mountConflictDelay", number 5)
          ∷ ("deleteConflictDelay", text (codes "7"))
          ∷ []),
    )
unfolding get_updated_opts_from_config populate_config_opts_by_section populate_all get_map
get_updated_opts_from_config_test = refl

nil_map_test : (get_updated_opts_from_config linux (some config) none).0 ≡ panics
unfolding get_updated_opts_from_config populate_config_opts_by_section populate_all get_map
nil_map_test = refl

-- A number in the file is passed over, a text is not.
delays_test :
    (initialize_mount_conflict_delay (some config) ≡ pos 120)
    × (initialize_delete_conflict_delay (some config) ≡ pos 7)
unfolding initialize_mount_conflict_delay initialize_delete_conflict_delay get_map atoi
delays_test = (refl, refl)

get_updated_opts_from_config-precedence_example :
    let (result, opts) = get_updated_opts_from_config windows (some config) (some request) in
    (result ≡ ok tt)
    × ((k : String)
        → lookup k (opts_of opts) ≡ (
            last_in k (("pool", number 2) ∷ [])
            or_else ((((lookup k request or_else filesystem_in windows k)
                    or_else first_in k (
                        ("size", number 10)
                        ∷ ("filesystem", text (codes "xfs"))
                        ∷ ("mountConflictDelay", number 5)
                        ∷ ("deleteConflictDelay", text (codes "7"))
                        ∷ []))
                  or_else first_in k
                      (("filesystem", text (codes "ext4")) ∷ ("pool", number 1) ∷ []))
                or_else volume_dir_in windows k)))
unfolding get_map
get_updated_opts_from_config-precedence_example =
    get_updated_opts_from_config-precedence windows config request
      (("size", number 10)
        ∷ ("filesystem", text (codes "xfs"))
        ∷ ("mountConflictDelay", number 5)
        ∷ ("deleteConflictDelay", text (codes "7"))
        ∷ [])
      (("filesystem", text (codes "ext4")) ∷ ("pool", number 1) ∷ []) (("pool", number 2) ∷ []) refl
      refl refl
