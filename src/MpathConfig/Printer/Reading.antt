-- ===== src/MpathConfig/Printer/Reading.antt =====
-- mpathconfig/configresource.go: the lines that PrintSection writes for properties, read back by
-- parseOption.
use common_host_libs.Prelude.{ℕ, length, ◌<◌, All}
use common_host_libs.Prelude.Text.{Text}
use common_host_libs.MpathConfig.Syntax.RoundTrip.{IsWord, IsValue}
use common_host_libs.MpathConfig.Tree.{Properties}

-- Every key is a word, and every value one or a text in quotes with no newline in it.
abbrev pub IsPrintable : Properties → Type 0
IsPrintable ps = All (λ p. IsWord p.0 × IsValue p.1) ps

NarrowerThan : ℕ → Properties → Type 0
NarrowerThan width ps = All (λ p. length p.0 < width) ps
