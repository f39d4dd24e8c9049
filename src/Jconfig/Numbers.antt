-- ===== src/Jconfig/Numbers.antt =====
-- jconfig/jconfig.go: strconv.ParseInt and strconv.ParseBool, as it calls them.
use common_host_libs.Prelude.{
  ℕ, ◌+◌, ◌-◌, ◌*◌, ◌^◌, String, Bool, true, false, ◌||◌, List, [], ◌∷◌, Option, none, some, ltb,
  leb, ◌==◌, if◌then◌else◌,
}
use common_host_libs.Prelude.Int.{ℤ, pos, negsuc}
use common_host_libs.Prelude.Decimal.{is_digit, negated}
use common_host_libs.Prelude.Text.{Text, codes, text_eq}

-- strconv.ParseUint in base 10, up to 64 bits
pub data Digits : Type 0 where
  value : ℕ → Digits
  bad : Digits
  large : Digits

abbrev pub parse_digits : ℕ → Text → Digits
parse_digits n [] = value n
parse_digits n (c ∷ s) =
    let rest = parse_digits (n * 10 + (c - 48)) s in
    if is_digit c then (if ltb (n * 10 + (c - 48)) (2 ^ 64) then rest else large) else bad

abbrev pub parse_uint : Text → Digits
parse_uint [] = bad
parse_uint (c ∷ s) = parse_digits 0 (c ∷ s)

-- The bounds of an int64 in its two signs: the number, and the reason of an error.
abbrev pub plus : Digits → ℤ × Option Text
plus (value n) =
    if ltb n (2 ^ 63) then (pos n, none) else (pos (2 ^ 63 - 1), some (codes "value out of range"))
plus bad = (pos 0, some (codes "invalid syntax"))
plus large = (pos (2 ^ 63 - 1), some (codes "value out of range"))

abbrev pub minus : Digits → ℤ × Option Text
minus (value n) =
    if leb n (2 ^ 63)
    then (negated n, none)
    else (negsuc (2 ^ 63 - 1), some (codes "value out of range"))
minus bad = (pos 0, some (codes "invalid syntax"))
minus large = (negsuc (2 ^ 63 - 1), some (codes "value out of range"))

-- strconv.ParseInt in base 10 with 64 bits, which gives a number beside its error.
unfoldable pub parse_int : Text → ℤ × Option Text
parse_int [] = (pos 0, some (codes "invalid syntax"))
parse_int (c ∷ s) =
    if c == b'-' then minus (parse_uint s) else plus (parse_uint (if c == b'+' then s else c ∷ s))

abbrev pub any_of : Text → List String → Bool
any_of s [] = false
any_of s (w ∷ ws) = text_eq s (codes w) || any_of s ws

-- strconv.ParseBool
unfoldable pub parse_bool : Text → Bool × Option Text
parse_bool s =
    if any_of s ("1" ∷ "t" ∷ "T" ∷ "true" ∷ "TRUE" ∷ "True" ∷ [])
    then (true, none)
    else if any_of s ("0" ∷ "f" ∷ "F" ∷ "false" ∷ "FALSE" ∷ "False" ∷ [])
    then (false, none)
    else (false, some (codes "invalid syntax"))
