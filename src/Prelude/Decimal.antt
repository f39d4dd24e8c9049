-- ===== src/Prelude/Decimal.antt =====
-- strconv.Atoi and strings.Split on texts.
use Prim.Native.Nat.{ℕ, zero, suc, ◌+◌, ◌-◌, ◌*◌, ◌^◌}
use mathlib.Core.Bool.{Bool, ◌&&◌}
use mathlib.Core.List.{List, [], ◌∷◌}
use mathlib.Core.Option.{Option, none, some}
use common_host_libs.Prelude.Tests.{leb, ltb, ◌==◌, if◌then◌else◌}
use common_host_libs.Prelude.Int.{ℤ, pos, negsuc}
use common_host_libs.Prelude.Text.{Text}

abbrev pub is_digit : ℕ → Bool
is_digit c = leb 48 c && leb c 57

abbrev pub digits_value : ℕ → Text → Option ℕ
digits_value n [] = some n
digits_value n (c ∷ s) = if is_digit c then digits_value (n * 10 + (c - 48)) s else none

abbrev pub unsigned : Text → Option ℕ
unsigned [] = none
unsigned (c ∷ s) = digits_value 0 (c ∷ s)

abbrev pub negated : ℕ → ℤ
negated zero = pos 0
negated (suc n) = negsuc n

-- A number with a sign or none that fits in an int of 64 bits.
unfoldable pub atoi : Text → Option ℤ
atoi [] = none
atoi (c ∷ s) =
    if c == b'-'
    then elim (unsigned s) [
      | none ↦ none
      | some n ↦ if leb n (2 ^ 63) then some (negated n) else none
    ]
    else elim (unsigned (if c == b'+' then s else c ∷ s)) [
      | none ↦ none
      | some n ↦ if ltb n (2 ^ 63) then some (pos n) else none
    ]

abbrev pub cons_head : ℕ → List Text → List Text
cons_head c [] = (c ∷ []) ∷ []
cons_head c (w ∷ ws) = (c ∷ w) ∷ ws

-- strings.Split at one character
abbrev pub split : ℕ → Text → List Text
split d [] = [] ∷ []
split d (c ∷ s) = if c == d then [] ∷ split d s else cons_head c (split d s)
