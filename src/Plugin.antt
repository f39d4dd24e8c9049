-- ===== src/Plugin.antt =====
-- dockerplugin/plugin/plugin.go: the options of a request and those of the configuration. The map of
-- options is the state, where a nil map is none: the functions change the map that they are given, and
-- the map that they return is that one. What is set on each platform is in plugin_linux.go,
-- plugin_darwin.go and plugin_windows.go.
mod Merging
mod Precedence
mod Tests
use common_host_libs.Prelude.{
  String, str_eq, Bool, true, false, not, ◌&&◌, List, [], ◌∷◌, ◌++◌, Option, none, some,
  if◌then◌else◌, lookup, insert,
}
use common_host_libs.Prelude.Int.{ℤ, pos}
use common_host_libs.Prelude.Decimal.{atoi}
use common_host_libs.Prelude.Text.{Text, codes}
use common_host_libs.Prelude.Effects.{
  Outcome, ok, failed, panics, M, ◌>>=◌, pure, fail, panic, wrap,
}
use common_host_libs.Jconfig.{Json, text, Config, get_map}

pub data Platform : Type 0 where
  linux : Platform
  darwin : Platform
  windows : Platform

pub data Section : Type 0 where
  global : Section
  defaults : Section
  overrides : Section

abbrev pub section_name : Section → String
section_name global = "global"
section_name defaults = "defaults"
section_name overrides = "overrides"

abbrev pub section_text : Section → Text → Text
section_text s m = codes "unable to obtain " ++ (codes (section_name s) ++ (codes " options " ++ m))

abbrev pub Opts : Type 0 → Type 0
Opts F = Option (List (String × Json F))

-- The key of an option in a request.
abbrev pub option_key : String → String
option_key key = if str_eq key "size" then "sizeInGiB" else key

abbrev pub is_overrides : Section → Bool
is_overrides overrides = true
is_overrides s = false

module _ {F : Type 0} where
  abbrev pub has : Option (Json F) → Bool
  has none = false
  has (some v) = true

  abbrev pub is_present : String → Opts F → Bool
  is_present key none = false
  is_present key (some opts) = has (lookup key opts)

  -- `m[key] = value`, which panics on a nil map
  abbrev pub written : String → Json F → M (Opts F) (Unit {0})
  written key v none = (panics, none)
  written key v (some opts) = (ok tt, some (insert key v opts))

  abbrev pub written_if_absent : String → Json F → M (Opts F) (Unit {0})
  written_if_absent key v opts = if is_present key opts then (ok tt, opts) else written key v opts

  abbrev pub set_default_filesystem : Platform → M (Opts F) (Unit {0})
  set_default_filesystem windows = written_if_absent "filesystem" (text (codes "ntfs"))
  set_default_filesystem linux = pure tt
  set_default_filesystem darwin = pure tt

  abbrev pub set_default_volume_dir : Platform → M (Opts F) (Unit {0})
  set_default_volume_dir windows =
      written_if_absent "volumeDir" (text (codes "C:\\ProgramData\\hpe-storage-mounts\\"))
  set_default_volume_dir linux = pure tt
  set_default_volume_dir darwin = pure tt

  abbrev pub populate_one : Section → String → Json F → M (Opts F) (Unit {0})
  populate_one s key v opts =
      if is_present key opts && not (is_overrides s) then (ok tt, opts) else written key v opts

  unfoldable pub populate_all : Section → List (String × Json F) → M (Opts F) (Unit {0})
  populate_all s [] = pure tt
  populate_all s ((key, v) ∷ options) = do
    x ← populate_one s (option_key key) v
    populate_all s options

  abbrev pub populate_from : Section → Outcome (List (String × Json F)) → M (Opts F) (Unit {0})
  populate_from s (ok options) = populate_all s options
  populate_from s (failed m) = fail m
  populate_from s panics = panic

  -- populateConfigOptsBySection, where none is a VolumeDriverConfig that is nil
  unfoldable pub populate_config_opts_by_section :
      Option (Config F) → Section → M (Opts F) (Unit {0})
  populate_config_opts_by_section none s = fail (codes "no config cache present to populate")
  populate_config_opts_by_section (some c) s = populate_from s (get_map c (section_name s))

  abbrev pub populate : Option (Config F) → Section → M (Opts F) (Unit {0})
  populate c s = wrap (section_text s) (populate_config_opts_by_section c s)

  unfoldable pub get_updated_opts_from_config : Platform → Option (Config F) → M (Opts F) (Unit {0})
  get_updated_opts_from_config platform c = do
    x ← set_default_filesystem platform
    g ← populate c global
    d ← populate c defaults
    y ← set_default_volume_dir platform
    populate c overrides

  -- The setting of a delay. JSON has no int: what a file holds is a float64, and is passed over.
  abbrev pub delay_of : ℤ → Option (Json F) → ℤ
  delay_of default_delay (some (text t)) = elim (atoi t) [ none ↦ default_delay | some z ↦ z ]
  delay_of default_delay o = default_delay

  abbrev pub delay_in : ℤ → String → Outcome (List (String × Json F)) → ℤ
  delay_in default_delay key (ok options) = delay_of default_delay (lookup key options)
  delay_in default_delay key r = default_delay

  abbrev pub conflict_delay : ℤ → String → Option (Config F) → ℤ
  conflict_delay default_delay key none = default_delay
  conflict_delay default_delay key (some c) = delay_in default_delay key (get_map c "global")

  unfoldable initialize_mount_conflict_delay : Option (Config F) → ℤ
  initialize_mount_conflict_delay = conflict_delay (pos 120) "mountConflictDelay"

  unfoldable initialize_delete_conflict_delay : Option (Config F) → ℤ
  initialize_delete_conflict_delay = conflict_delay (pos 150) "deleteConflictDelay"
