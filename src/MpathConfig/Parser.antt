-- ===== src/MpathConfig/Parser.antt =====
-- mpathconfig/configresource.go: ParseConfig on the lines that bufio.Scanner gives, and the settings
-- that are read from the defaults section.
pub mod Lines
use common_host_libs.Prelude.{
  ℕ, zero, suc, ◌+◌, Bool, true, false, not, ◌&&◌, ◌||◌, List, [], ◌∷◌, ◌++◌, Option, none, some,
  length, get_elem?, set, ltb, ◌==◌, if◌then◌else◌,
}
use common_host_libs.Prelude.Text.{
  Text, codes, text_eq, is_space, is_re_space, drop_while, take_while, trim_func, trim_space,
  strip_prefix, contains, is_nil,
}
use common_host_libs.MpathConfig.Syntax.{is_section, section_name}
use common_host_libs.MpathConfig.Tree.{
  Section, Configuration, ConfigError, section_not_found, read_error, Result, ok, err, panics,
  new_configuration, find_property, add_section, add_option, get_section,
}

-- `strings.HasPrefix(line, "#") || len(line) == 0`
abbrev pub is_skipped : Text → Bool
is_skipped [] = true
is_skipped (c ∷ s) = c == b'#'

-- The end of a section; at the nil section that is a nil dereference.
unfoldable pub close_section : Configuration → Option ℕ → Result (Configuration × Option ℕ)
close_section c none = panics
close_section c (some a) = elim (get_elem? c.heap a) [ none ↦ panics | some s ↦ ok (c, s.parent) ]

abbrev pub opened : Result (Configuration × ℕ) → Result (Configuration × Option ℕ)
opened (ok (c, a)) = ok (c, some a)
opened (err e) = err e
opened panics = panics

abbrev pub keeping : Option ℕ → Result Configuration → Result (Configuration × Option ℕ)
keeping current (ok c) = ok (c, current)
keeping current (err e) = err e
keeping current panics = panics

-- One line of the file, from the current section.
unfoldable pub parse_line : Configuration → Option ℕ → Text → Result (Configuration × Option ℕ)
unfolding close_section
parse_line c current line =
    if is_skipped line
    then ok (c, current)
    else if is_section line
    then opened (add_section c (section_name line) current)
    else if text_eq (trim_space line) (codes "{")
    then ok (c, current)
    else if text_eq (trim_space line) (codes "}")
    then close_section c current
    else keeping current (add_option c current line)

unfoldable pub parse_lines :
    Configuration → Option ℕ → List Text → Result (Configuration × Option ℕ)
parse_lines c current [] = ok (c, current)
parse_lines c current (line ∷ lines) = elim (parse_line c current line) [
  | ok (c', current') ↦ parse_lines c' current' lines
  | err e ↦ err e
  | panics ↦ panics
]

-- ParseConfig of a file that could be opened; `read` is false if the scanner stopped at an error.
unfoldable pub parse_config : Text → List Text → Bool → Result Configuration
parse_config path lines read = elim (parse_lines (new_configuration path) (some 0) lines) [
  | ok (c, current) ↦ (if read then ok c else err read_error)
  | err e ↦ err e
  | panics ↦ panics
]

abbrev is_quote : ℕ → Bool
is_quote c = c == b'"'

abbrev says_yes : Option Section → Bool
says_yes none = false
says_yes (some s) = elim s.properties [
  | none ↦ false
  | some ps ↦ elim (find_property (codes "user_friendly_names") ps) [
    | none ↦ false
    | some v ↦ text_eq (trim_func is_quote v) (codes "yes")
  ]
]

-- IsUserFriendlyNamesEnabled, from what ParseConfig of /etc/multipath.conf has given.
unfoldable pub is_user_friendly_names_enabled : Result Configuration → Result Bool
is_user_friendly_names_enabled panics = panics
is_user_friendly_names_enabled (err (section_not_found name)) = ok false
is_user_friendly_names_enabled (err e) = err e
is_user_friendly_names_enabled (ok c) = elim (get_section c (codes "defaults") []) [
  | ok a ↦ ok (says_yes (get_elem? c.heap a))
  | err (section_not_found name) ↦ ok false
  | err e ↦ err e
  | panics ↦ panics
]
