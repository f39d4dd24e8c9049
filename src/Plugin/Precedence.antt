-- ===== src/Plugin/Precedence.antt =====
-- dockerplugin/plugin/plugin.go, GetUpdatedOptsFromConfig: which setting an option gets.
use common_host_libs.Prelude.{◌≡◌, ap, ◌∙◌, String, false, List, [], refl, none, some, lookup}
use common_host_libs.Prelude.Effects.{ok, ◌>>=◌, then_run, wrapped}
use common_host_libs.Jconfig.{Json, Config, get_map}
use common_host_libs.Plugin.{
  Platform, Section, global, defaults, overrides, section_name, section_text, is_overrides, Opts,
  set_default_volume_dir, populate_from, populate, populate_config_opts_by_section,
  get_updated_opts_from_config,
}
use common_host_libs.Plugin.Merging.{
  ◌or_else◌, first_in, last_in, filesystem_in, volume_dir_in, filled, overridden, with_filesystem,
  with_volume_dir, lookup-filled, lookup-overridden, lookup-with_filesystem, lookup-with_volume_dir,
  set_default_filesystem-with, set_default_volume_dir-with, populate_all-filled,
  populate_all-overridden,
}

module _ {F : Type 0} where
  abbrev pub opts_of : Opts F → List (String × Json F)
  opts_of none = []
  opts_of (some m) = m

  populate-filled :
      (c : Config F) (s : Section) (o m : List (String × Json F))
      → is_overrides s ≡ false
      → get_map c (section_name s) ≡ ok o
      → populate (some c) s (some m) ≡ (ok tt, some (filled o m))
  unfolding populate_config_opts_by_section
  populate-filled c s o m h e =
      ap (λ r. wrapped (populate_from s r (some m)) (section_text s)) e
      ∙ ap (λ r. wrapped r (section_text s)) (populate_all-filled s o m h)

  populate-overridden :
      (c : Config F) (o m : List (String × Json F))
      → get_map c "overrides" ≡ ok o
      → populate (some c) overrides (some m) ≡ (ok tt, some (overridden o m))
  unfolding populate_config_opts_by_section
  populate-overridden c o m e =
      ap (λ r. wrapped (populate_from overrides r (some m)) (section_text overrides)) e
      ∙ ap (λ r. wrapped r (section_text overrides)) (populate_all-overridden o m)

  -- The map behind each step.
  abbrev merged : Platform → (request g d o : List (String × Json F)) → List (String × Json F)
  merged p request g d o =
      overridden o (with_volume_dir p (filled d (filled g (with_filesystem p request))))

  get_updated_opts_from_config-merged :
      (p : Platform) (c : Config F) (request g d o : List (String × Json F))
      → get_map c "global" ≡ ok g
      → get_map c "defaults" ≡ ok d
      → get_map c "overrides" ≡ ok o
      → get_updated_opts_from_config p (some c) (some request)
        ≡ (ok tt, some (merged p request g d o))
  unfolding get_updated_opts_from_config
  get_updated_opts_from_config-merged p c request g d o eg ed eo =
      ap
        (λ r. then_run r (λ x. populate (some c) global >>= (λ y.
          populate (some c) defaults
          >>= (λ z. set_default_volume_dir p >>= (λ u. populate (some c) overrides)))))
        (set_default_filesystem-with p request)
      ∙ (ap
            (λ r. then_run r (λ y.
              populate (some c) defaults
              >>= (λ z. set_default_volume_dir p >>= (λ u. populate (some c) overrides))))
            (populate-filled c global g (with_filesystem p request) refl eg)
          ∙ (ap
                (λ r.
                  then_run r (λ z. set_default_volume_dir p >>= (λ u. populate (some c) overrides)))
                (populate-filled c defaults d (filled g (with_filesystem p request)) refl ed)
              ∙ (ap (λ r. then_run r (λ u. populate (some c) overrides))
                    (set_default_volume_dir-with p
                      (filled d (filled g (with_filesystem p request))))
                  ∙ populate-overridden c o
                      (with_volume_dir p (filled d (filled g (with_filesystem p request)))) eo)))

  lookup-merged :
      (p : Platform) (request g d o : List (String × Json F)) (k : String)
      → lookup k (merged p request g d o) ≡ (
          last_in k o
          or_else ((((lookup k request or_else filesystem_in p k) or_else first_in k g)
                or_else first_in k d)
              or_else volume_dir_in p k))
  lookup-merged p request g d o k =
      lookup-overridden k o _
      ∙ ap (λ x. last_in k o or_else x)
          (lookup-with_volume_dir p k _
            ∙ ap (λ x. x or_else volume_dir_in p k)
                (lookup-filled k d _
                  ∙ ap (λ x. x or_else first_in k d)
                      (lookup-filled k g _
                        ∙ ap (λ x. x or_else first_in k g) (lookup-with_filesystem p k request))))

  -- If the configuration has its three sections and the request's map is not nil,
  -- GetUpdatedOptsFromConfig reports no error, and each option has the first that there is of: its last
  -- setting in overrides, that of the request, the file system of the platform, its first settings in
  -- global and in defaults, and the volume directory of the platform.
  pub get_updated_opts_from_config-precedence :
      (p : Platform) (c : Config F) (request g d o : List (String × Json F))
      → get_map c "global" ≡ ok g
      → get_map c "defaults" ≡ ok d
      → get_map c "overrides" ≡ ok o
      → let (result, opts) = get_updated_opts_from_config p (some c) (some request) in
        (result ≡ ok tt)
        × ((k : String)
            → lookup k (opts_of opts) ≡ (
                last_in k o
                or_else ((((lookup k request or_else filesystem_in p k) or_else first_in k g)
                      or_else first_in k d)
                    or_else volume_dir_in p k)))
  get_updated_opts_from_config-precedence p c request g d o eg ed eo =
      let e = get_updated_opts_from_config-merged p c request g d o eg ed eo in
      (ap (λ r. r.0) e, λ k. ap (λ r. lookup k (opts_of r.1)) e ∙ lookup-merged p request g d o k)
