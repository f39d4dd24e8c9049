-- ===== src/MpathConfig/Tests.antt =====
-- mpathconfig/configresource.go on a small multipath.conf.
use common_host_libs.Prelude.{ℕ, ◌≡◌, ◌≢◌, refl, true, List, [], ◌∷◌}
use common_host_libs.Prelude.Text.{Text, codes, text_eq}
use common_host_libs.MpathConfig.Syntax.{parse_option, is_section, section_name, match_property}
use common_host_libs.MpathConfig.Tree.{
  Configuration, Result, ok, err, panics, Properties, get_section, get_device_section, add_section,
  add_option, add_property, new_configuration, find_section, find_child, find_device, find_devices,
}
use common_host_libs.MpathConfig.Tree.Search.{get_section-first_match}
use common_host_libs.MpathConfig.Parser.{
  parse_config, parse_lines, parse_line, close_section, is_user_friendly_names_enabled,
}
use common_host_libs.MpathConfig.Parser.Lines.{balanced, parse_config-balanced}
use common_host_libs.MpathConfig.Printer.{property_lines, property_line, print_section, print_conf}

abbrev sample_lines : List Text
sample_lines =
    codes "# multipath.conf"
    ∷ codes "defaults {"
    ∷ codes "    user_friendly_names yes"
    ∷ codes "}"
    ∷ codes ""
    ∷ codes "devices"
    ∷ codes "{"
    ∷ codes "  device {"
    ∷ codes "    vendor \"Nimble\""
    ∷ codes "    product \"Server\""
    ∷ codes "    no_path_retry 30"
    ∷ codes "    no_path_retry 31"
    ∷ codes "  }"
    ∷ codes "}"
    ∷ []

abbrev sample_path : Text
sample_path = codes "/etc/multipath.conf"

abbrev printed_lines : List Text
printed_lines =
    codes "defaults {"
    ∷ codes "    user_friendly_names yes"
    ∷ codes "}"
    ∷ codes "devices {"
    ∷ codes "    device {"
    ∷ codes "        vendor        \"Nimble\""
    ∷ codes "        product       \"Server\""
    ∷ codes "        no_path_retry 30"
    ∷ codes "        no_path_retry 31"
    ∷ codes "    }"
    ∷ codes "}"
    ∷ []

abbrev printed : Result Configuration → List Text
printed (ok c) = print_conf 2 c
printed (err e) = []
printed panics = []

-- The settings of a file of the usual form are printed as they were read, the second value of an
-- option that is set twice as well.
sample_printed : printed (parse_config sample_path sample_lines true) ≡ printed_lines
unfolding parse_config parse_lines parse_line close_section is_section section_name parse_option
    match_property add_section add_option add_property new_configuration print_conf print_section
    property_lines property_line text_eq
sample_printed = refl

abbrev device_properties : Properties
device_properties = (codes "vendor", codes "\"Nimble\"") ∷ (codes "alias", codes "db") ∷ []

sample_balanced : balanced 0 sample_lines ≡ true
unfolding balanced is_section parse_option match_property text_eq
sample_balanced = refl

parse_config-balanced_example : parse_config sample_path sample_lines true ≢ panics
parse_config-balanced_example = parse_config-balanced sample_path sample_lines true sample_balanced

-- A brace too many ends the root, and a comment and an option follow.
abbrev trailing_lines : List Text
trailing_lines = codes "# blacklist" ∷ codes "find_multipaths no" ∷ []

-- A word with nothing behind it loses its last character to the value.
single_word : parse_option (codes "queue_without_daemon") ≡ (codes "queue_without_daemo", codes "n")
unfolding parse_option match_property
single_word = refl

-- A section that is indented by a tab keeps it in its name.
tab_name : section_name (codes "\tdevice {") ≡ codes "\tdevice"
unfolding section_name
tab_name = refl

-- An option in front of every section is a write to the root's nil map.
top_level_option : parse_config sample_path (codes "find_multipaths no" ∷ []) true ≡ panics
unfolding parse_config parse_lines parse_line is_section parse_option match_property add_option
    add_property new_configuration text_eq
top_level_option = refl

sample_user_friendly :
    is_user_friendly_names_enabled (parse_config sample_path sample_lines true) ≡ ok true
unfolding parse_config parse_lines parse_line close_section is_section section_name parse_option
    match_property add_section add_option add_property new_configuration text_eq
    is_user_friendly_names_enabled get_section find_section find_child
sample_user_friendly = refl

device_of : Result Configuration → Result ℕ
device_of (ok c) = get_device_section c (codes "Nimble")
device_of (err e) = err e
device_of panics = panics

sample_device : device_of (parse_config sample_path sample_lines true) ≡ ok 3
unfolding parse_config parse_lines parse_line close_section is_section section_name parse_option
    match_property add_section add_option add_property new_configuration text_eq device_of
    get_device_section find_devices find_device
sample_device = refl

abbrev config_of : Result Configuration → Configuration
config_of (ok c) = c
config_of (err e) = new_configuration sample_path
config_of panics = new_configuration sample_path

get_section-first_match_example :
    get_section
      (config_of (parse_config sample_path sample_lines true))
      (codes "device")
      (codes "Nim")
    ≡ ok 3
unfolding parse_config parse_lines parse_line close_section is_section section_name parse_option
    match_property add_section add_option add_property new_configuration text_eq
get_section-first_match_example =
    get_section-first_match (config_of (parse_config sample_path sample_lines true))
      (codes "device") (codes "Nim")
