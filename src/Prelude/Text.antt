-- ===== src/Prelude/Text.antt =====
-- Texts that are walked: lists of ASCII codes, with the functions of Go's strings package on them.
use Prim.Native.Nat.{ℕ, zero, suc, ◌+◌, ◌/◌, ◌%◌}
use Prim.Native.Char.{code}
use Prim.Native.String.{String}
use mathlib.Core.Path.{◌≡◌, refl, ap, ◌∙◌}
use mathlib.Core.Logic.{◌↔◌}
use mathlib.Core.Bool.{Bool, true, false, not, ◌&&◌, ◌||◌}
use mathlib.Core.List.{List, [], ◌∷◌, ◌++◌, reverse, reverse-cons, reverse-append, reverse-reverse}
use mathlib.Core.Option.{Option, none, some}
use native.Mathlib.Omega.{arith}
use common_host_libs.Prelude.Tests.{leb, ltb, ◌==◌, if◌then◌else◌}
use common_host_libs.Prelude.Lists.{All}

abbrev pub Text : Type 0
Text = List ℕ

abbrev pub codes : String → Text
codes String.[] = []
codes (String.◌∷◌ c s) = code c ∷ codes s

unfoldable pub text_eq : Text → Text → Bool
text_eq [] [] = true
text_eq (a ∷ s) (b ∷ t) = a == b && text_eq s t
text_eq _ _ = false

pub text_eq_iff : (s t : Text) → (text_eq s t ≡ true) ↔ (s ≡ t)
unfolding text_eq
text_eq_iff (a ∷ s) (b ∷ t) = ground (arith, text_eq_iff s t)
text_eq_iff _ _ = ground arith

-- unicode.IsSpace, and the class \s of package regexp, which has no vertical tab.
abbrev pub is_space : ℕ → Bool
is_space c = (leb 9 c && leb c 13) || c == 32

abbrev pub is_re_space : ℕ → Bool
is_re_space c = is_space c && not (c == 11)

abbrev pub drop_while : (ℕ → Bool) → Text → Text
drop_while p [] = []
drop_while p (c ∷ s) = if p c then drop_while p s else c ∷ s

abbrev pub take_while : (ℕ → Bool) → Text → Text
take_while p [] = []
take_while p (c ∷ s) = if p c then c ∷ take_while p s else []

-- strings.TrimFunc
abbrev pub trim_func : (ℕ → Bool) → Text → Text
trim_func p s = reverse (drop_while p (reverse (drop_while p s)))

-- strings.TrimSpace
abbrev pub trim_space : Text → Text
trim_space s = trim_func is_space s

-- What stands behind a prefix.
abbrev pub strip_prefix : Text → Text → Option Text
strip_prefix [] s = some s
strip_prefix (a ∷ p) [] = none
strip_prefix (a ∷ p) (c ∷ s) = if a == c then strip_prefix p s else none

-- strings.Contains
abbrev pub contains : Text → Text → Bool
contains [] p = elim (strip_prefix p []) [ none ↦ false | some r ↦ true ]
contains (c ∷ s) p = elim (strip_prefix p (c ∷ s)) [ none ↦ contains s p | some r ↦ true ]

abbrev pub is_nil : Text → Bool
is_nil [] = true
is_nil (c ∷ s) = false

abbrev pub AllHold : (ℕ → Bool) → Text → Type 0
AllHold p s = All (λ c. p c ≡ true) s

abbrev pub NoneHold : (ℕ → Bool) → Text → Type 0
NoneHold p s = All (λ c. p c ≡ false) s

pub drop_while-append :
    (p : ℕ → Bool) (s t : Text) → AllHold p s → drop_while p (s ++ t) ≡ drop_while p t
drop_while-append p [] t h = refl
drop_while-append p (c ∷ s) t h = ground (arith, drop_while-append p s t h.1)

pub drop_while_stop : (p : ℕ → Bool) (c : ℕ) (s : Text) → p c ≡ false → drop_while p (c ∷ s) ≡ c ∷ s
drop_while_stop p c s h = ground arith

pub NoneHold-append :
    (p : ℕ → Bool) (s t : Text) → NoneHold p s → NoneHold p t → NoneHold p (s ++ t)
NoneHold-append p [] t h k = k
NoneHold-append p (c ∷ s) t h k = (h.0, NoneHold-append p s t h.1 k)

NoneHold-reverse : (p : ℕ → Bool) (s : Text) → NoneHold p s → NoneHold p (reverse s)
NoneHold-reverse p [] h = h
NoneHold-reverse p (c ∷ s) h =
    rw (reverse-cons c s)
      (NoneHold-append p (reverse s) (c ∷ []) (NoneHold-reverse p s h.1) (h.0, tt))

drop_while_none : (p : ℕ → Bool) (s : Text) → NoneHold p s → drop_while p s ≡ s
drop_while_none p [] h = refl
drop_while_none p (c ∷ s) h = drop_while_stop p c s h.0

pub trim_func_none : (p : ℕ → Bool) (s : Text) → NoneHold p s → trim_func p s ≡ s
trim_func_none p s h =
    rw (drop_while_none p s h, drop_while_none p (reverse s) (NoneHold-reverse p s h))
      (reverse-reverse s)

-- A text between two characters that are kept.
pub trim_func_between :
    (p : ℕ → Bool) (c : ℕ) (s : Text) (d : ℕ)
    → p c ≡ false
    → p d ≡ false
    → trim_func p (c ∷ (s ++ (d ∷ []))) ≡ c ∷ (s ++ (d ∷ []))
trim_func_between p c s d h k =
    rw
      (
        drop_while_stop p c (s ++ (d ∷ [])) h,
        reverse-append (c ∷ s) (d ∷ []),
        drop_while_stop p d (reverse (c ∷ s)) k,
      )
      (reverse-cons d (reverse (c ∷ s)) ∙ ap (λ l. l ++ (d ∷ [])) (reverse-reverse (c ∷ s)))

-- A word stops at the first character that does not belong to it.
pub take_while-append :
    (p : ℕ → Bool) (s t : Text) → AllHold p s → take_while p (s ++ t) ≡ s ++ take_while p t
take_while-append p [] t h = refl
take_while-append p (c ∷ s) t h = ground (arith, take_while-append p s t h.1)

-- The word in front, empty before a space, and the words behind it.
abbrev pub split_words : Text → Text × List Text
split_words [] = ([], [])
split_words (c ∷ s) =
    let (w, ws) = split_words s in
    if is_space c then ([], if is_nil w then ws else w ∷ ws) else (c ∷ w, ws)

-- strings.Fields
abbrev pub fields : Text → List Text
fields s = let (w, ws) = split_words s in if is_nil w then ws else w ∷ ws

-- strings.Join with a space, which is also how `%v` prints a list between its brackets.
abbrev pub joined : List Text → Text
joined [] = []
joined (s ∷ []) = s
joined (s ∷ t ∷ rest) = s ++ (b' ' ∷ joined (t ∷ rest))

-- The first line, without its newline, and the lines behind it.
abbrev pub split_lines : Text → Text × List Text
split_lines [] = ([], [])
split_lines (c ∷ s) = let (l, ls) = split_lines s in if c == 10 then ([], l ∷ ls) else (c ∷ l, ls)

abbrev pub lines : Text → List Text
lines s = let (l, ls) = split_lines s in l ∷ ls

abbrev pub lower_code : ℕ → ℕ
lower_code c = if leb 65 c && leb c 90 then c + 32 else c

-- strings.ToLower
abbrev pub to_lower : Text → Text
to_lower [] = []
to_lower (c ∷ s) = lower_code c ∷ to_lower s

-- strings.HasPrefix
abbrev pub has_prefix : Text → Text → Bool
has_prefix s p = elim (strip_prefix p s) [ none ↦ false | some r ↦ true ]

-- The decimal digits of a number below 10 ^ fuel.
abbrev pub decimal : ℕ → ℕ → Text
decimal zero n = []
decimal (suc fuel) n =
    let front = decimal fuel (n / 10) in
    if ltb n 10 then (48 + n) ∷ [] else front ++ ((48 + n % 10) ∷ [])
