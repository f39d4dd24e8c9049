-- ===== src/MpathConfig/Printer.antt =====
-- mpathconfig/configresource.go: PrintSection and PrintConf.
pub mod Reading
use common_host_libs.Prelude.{
  ℕ, zero, suc, ◌+◌, ◌-◌, Bool, true, false, not, ◌&&◌, ◌||◌, List, [], ◌∷◌, ◌++◌, Option, none,
  some, length, get_elem?, set, ltb, ◌==◌, if◌then◌else◌,
}
use common_host_libs.Prelude.Text.{
  Text, codes, text_eq, is_space, is_re_space, drop_while, take_while, trim_func, trim_space,
  strip_prefix, contains, is_nil,
}
use common_host_libs.MpathConfig.Tree.{Properties, Section, Configuration, children_at}

-- `fmt.Sprintf("%Ns", " ")` for a positive N, and the empty text for 0.
abbrev pub indenter : ℕ → Text
indenter zero = []
indenter (suc n) = b' ' ∷ indenter n

-- `%-Ns`: blanks up to the width, and never a cut.
abbrev pub pad_right : ℕ → Text → Text
pad_right width s = s ++ indenter (width - length s)

-- The longest key, from a width of at least 1, and one more.
abbrev pub widest : ℕ → Properties → ℕ
widest width [] = width
widest width ((key, value) ∷ ps) = widest (if ltb width (length key) then length key else width) ps

abbrev pub spacer_size : Properties → ℕ
spacer_size ps = suc (widest 1 ps)

-- The line of a property, without its newline.
unfoldable pub property_line : ℕ → ℕ → Text × Text → Text
property_line indent width (key, value) =
    indenter indent ++ (indenter 4 ++ (pad_right width key ++ value))

unfoldable pub property_lines : ℕ → ℕ → Properties → List Text
unfolding property_line
property_lines indent width [] = []
property_lines indent width (p ∷ ps) = property_line indent width p ∷ property_lines indent width ps

abbrev no_properties : Option Properties → Properties
no_properties none = []
no_properties (some ps) = ps

-- The lines of sections, by what a section prints.
abbrev pub lines_of : (ℕ → List Text) → List ℕ → List Text
lines_of printed [] = []
lines_of printed (a ∷ rest) = printed a ++ lines_of printed rest

-- PrintSection, to a depth of `fuel` sections inside one another.
unfoldable pub print_section : ℕ → List Section → ℕ → ℕ → List Text
unfolding property_lines
print_section zero heap indent a = []
print_section (suc fuel) heap indent a = elim (get_elem? heap a) [
  | none ↦ []
  | some s ↦
      (let ps = no_properties s.properties in
        let width = spacer_size ps in
        (indenter indent ++ (s.name ++ codes " {"))
        ∷ (property_lines indent width ps
            ++ (property_lines indent width s.duplicates
                ++ (lines_of (print_section fuel heap (indent + 4)) s.children
                    ++ ((indenter indent ++ codes "}") ∷ [])))))
]

unfoldable pub print_conf : ℕ → Configuration → List Text
print_conf fuel c = lines_of (print_section fuel c.heap 0) (children_at c.heap 0)
