-- ===== src/MpathConfig/Parser/Lines/Ended.antt =====
-- mpathconfig/configresource.go: ParseConfig behind a closing brace that has no section to close.
use common_host_libs.Prelude.{
  ◌≡◌, refl, ◌∙◌, ap, Bool, true, false, ◌&&◌, List, [], ◌∷◌, none, if◌then◌else◌,
}
use common_host_libs.Prelude.Text.{Text}
use common_host_libs.MpathConfig.Syntax.{section_name}
use common_host_libs.MpathConfig.Tree.{Configuration, ok, panics}
use common_host_libs.MpathConfig.Tree.Shape.{add_section_nil, add_option_nil}
use common_host_libs.MpathConfig.Parser.{close_section, opened, keeping, parse_lines}
use common_host_libs.MpathConfig.Parser.Lines.{
  LineKind, ignored, opens, closes, sets, kind, by_kind, parse_line-by_kind, next_lines,
  parse_lines-next,
}

abbrev pub is_ignored : LineKind → Bool
is_ignored ignored = true
is_ignored _ = false

abbrev pub all_ignored : List Text → Bool
all_ignored [] = true
all_ignored (line ∷ lines) = is_ignored (kind line) && all_ignored lines

by_kind_nil :
    (c : Configuration) (line : Text) (k : LineKind)
    → by_kind c none line k ≡ (if is_ignored k then ok (c, none) else panics)
unfolding by_kind close_section
by_kind_nil c line ignored = refl
by_kind_nil c line opens = ap opened (add_section_nil c (section_name line))
by_kind_nil c line closes = refl
by_kind_nil c line (sets b) = ap (keeping none) (add_option_nil c line)

next_lines_if :
    (c : Configuration) (lines : List Text) (b : Bool)
    → parse_lines c none lines ≡ (if all_ignored lines then ok (c, none) else panics)
    → next_lines lines (if b then ok (c, none) else panics)
      ≡ (if b && all_ignored lines then ok (c, none) else panics)
unfolding next_lines
next_lines_if c lines true h = h
next_lines_if c lines false h = refl

-- Once a closing brace has ended the root, ParseConfig goes on only while the lines are comments,
-- empty or an opening brace: at the first other line it dereferences the nil section.
pub parse_lines_ended :
    (c : Configuration) (lines : List Text)
    → parse_lines c none lines ≡ (if all_ignored lines then ok (c, none) else panics)
unfolding parse_lines
parse_lines_ended c [] = refl
parse_lines_ended c (line ∷ lines) =
    parse_lines-next c none line lines
    ∙ (ap (next_lines lines) (parse_line-by_kind c none line ∙ by_kind_nil c line (kind line))
        ∙ next_lines_if c lines (is_ignored (kind line)) (parse_lines_ended c lines))
