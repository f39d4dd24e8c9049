-- ===== src/MpathConfig/Syntax.antt =====
-- mpathconfig/configresource.go: the lines of multipath.conf, parseOption and isSection. The regular
-- expressions are matched as package regexp matches them: leftmost, the longest repetition first.
pub mod RoundTrip
use common_host_libs.Prelude.{
  ℕ, zero, suc, ◌+◌, Bool, true, false, not, ◌&&◌, ◌||◌, List, [], ◌∷◌, ◌++◌, Option, none, some,
  length, get_elem?, set, ltb, ◌==◌, if◌then◌else◌,
}
use common_host_libs.Prelude.Text.{
  Text, codes, text_eq, is_space, is_re_space, drop_while, take_while, trim_func, trim_space,
  strip_prefix, contains, is_nil,
}

-- What stands before the last double quote.
abbrev pub before_last_quote : Text → Option Text
before_last_quote [] = none
before_last_quote (c ∷ s) = elim (before_last_quote s) [
  | some m ↦ some (c ∷ m)
  | none ↦ if c == b'"' then some [] else none
]

abbrev pub not_re_space : ℕ → Bool
not_re_space c = not (is_re_space c)

abbrev pub quoted : Text → Option Text → Text
quoted tail none = take_while not_re_space tail
quoted tail (some []) = take_while not_re_space tail
quoted tail (some (c ∷ m)) = b'"' ∷ ((c ∷ m) ++ (b'"' ∷ []))

-- The character `.` of a regular expression: any but a newline.
abbrev pub is_dot : ℕ → Bool
is_dot c = not (c == 10)

-- The group `value`, `".+"|[^\s\t]+`, at a text that begins with no space.
abbrev pub match_value : Text → Text
match_value [] = []
match_value (c ∷ t) =
    if c == b'"'
    then quoted (c ∷ t) (before_last_quote (take_while is_dot t))
    else take_while not_re_space (c ∷ t)

-- With nothing behind the first word the group `param` gives its last character to `value`.
abbrev pub split_last : Text → Text × Text
split_last [] = ([], [])
split_last (c ∷ []) = ([], [])
split_last (c ∷ d ∷ []) = (c ∷ [], d ∷ [])
split_last (c ∷ d ∷ e ∷ s) = let (param, value) = split_last (d ∷ e ∷ s) in (c ∷ param, value)

-- The groups `param` and `value` of `propertyPattern`; both are empty where it does not match.
unfoldable pub match_property : Text → Text × Text
match_property line =
    let body = drop_while is_re_space line in
    let word = take_while not_re_space body in
    let tail = drop_while is_re_space (drop_while not_re_space body) in
    if is_nil tail then split_last word else (word, match_value tail)

unfoldable pub parse_option : Text → Text × Text
unfolding match_property
parse_option option =
    let (param, value) = match_property option in (trim_space param, trim_space value)

abbrev section_prefixes : List Text
section_prefixes =
    codes "defaults"
    ∷ codes "blacklist"
    ∷ codes "blacklist_exceptions"
    ∷ codes "devices"
    ∷ codes "device"
    ∷ codes "multipaths"
    ∷ codes "multipath"
    ∷ []

abbrev is_brace : ℕ → Bool
is_brace c = c == b'{'

-- The expression `^prefix\s*[{]*$` on a trimmed line.
abbrev matches_prefix : Text → Text → Bool
matches_prefix prefix line = elim (strip_prefix prefix line) [
  | none ↦ false
  | some r ↦ is_nil (drop_while is_brace (drop_while is_re_space r))
]

abbrev matches_any : List Text → Text → Bool
matches_any [] line = false
matches_any (p ∷ ps) line = matches_prefix p line || matches_any ps line

unfoldable pub is_section : Text → Bool
is_section line = matches_any section_prefixes (trim_space line)

abbrev is_blank_or_brace : ℕ → Bool
is_blank_or_brace c = c == 32 || c == b'{'

-- The name of a section: `strings.Trim(line, " {")`, on the line before its spaces are trimmed.
unfoldable pub section_name : Text → Text
section_name line = trim_func is_blank_or_brace line
