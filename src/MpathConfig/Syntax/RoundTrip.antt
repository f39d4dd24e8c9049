-- ===== src/MpathConfig/Syntax/RoundTrip.antt =====
-- mpathconfig/configresource.go: what parseOption reads from a line of a word and a value.
use mathlib.Core.List.{append-nil}
use common_host_libs.Prelude.{ℕ, zero, suc, ◌≡◌, refl, ◌∙◌, ◌≢◌, false, [], ◌∷◌, ◌++◌, some, arith}
use common_host_libs.Prelude.Text.{
  Text, is_space, is_re_space, drop_while, take_while, trim_space, is_nil, AllHold, NoneHold,
  drop_while-append, drop_while_stop, trim_func_none, trim_func_between, take_while-append,
}
use common_host_libs.MpathConfig.Syntax.{
  before_last_quote, is_dot, not_re_space, match_value, match_property, parse_option,
}
use common_host_libs.MpathConfig.Printer.{indenter}

-- A text that is not empty and has no space.
abbrev pub IsWord : Text → Type 0
IsWord [] = ⊥
IsWord (c ∷ s) = NoneHold is_space (c ∷ s)

-- A value as the file can hold it: a word with no quote in front, or a text with no newline in quotes.
pub data IsValue : Text → Type 0 where
  plain : (c : ℕ) (s : Text) → c ≢ b'"' → IsWord (c ∷ s) → IsValue (c ∷ s)
  in_quotes :
      (c : ℕ) (s : Text) → AllHold is_dot (c ∷ s) → IsValue (b'"' ∷ ((c ∷ s) ++ (b'"' ∷ [])))

pub before_last_quote-append : (s : Text) → before_last_quote (s ++ (b'"' ∷ [])) ≡ some s
before_last_quote-append [] = refl
before_last_quote-append (c ∷ s) = rw (before_last_quote-append s) refl

indenter-AllHold : (n : ℕ) → AllHold is_re_space (indenter n)
indenter-AllHold zero = tt
indenter-AllHold (suc n) = (refl, indenter-AllHold n)

word-AllHold : (s : Text) → NoneHold is_space s → AllHold not_re_space s
word-AllHold [] h = tt
word-AllHold (c ∷ s) h = (ground arith, word-AllHold s h.1)

take_while_word : (s : Text) → NoneHold is_space s → take_while not_re_space s ≡ s
take_while_word [] h = refl
take_while_word (c ∷ s) h = ground (arith, take_while_word s h.1)

take_while_dots :
    (s : Text) → AllHold is_dot s → take_while is_dot (s ++ (b'"' ∷ [])) ≡ s ++ (b'"' ∷ [])
take_while_dots s h = take_while-append is_dot s (b'"' ∷ []) h

match_value-IsValue : (v : Text) → IsValue v → match_value v ≡ v
match_value-IsValue _ (plain c s q h) = ground (arith, take_while_word (c ∷ s) h)
match_value-IsValue _ (in_quotes c s h) =
    rw (take_while_dots (c ∷ s) h, before_last_quote-append (c ∷ s)) refl

trim_space-IsValue : (v : Text) → IsValue v → trim_space v ≡ v
trim_space-IsValue _ (plain c s q h) = trim_func_none is_space (c ∷ s) h
trim_space-IsValue _ (in_quotes c s h) = trim_func_between is_space b'"' (c ∷ s) b'"' refl refl

drop_while-IsValue : (v : Text) → IsValue v → drop_while is_re_space v ≡ v
drop_while-IsValue _ (plain c s q h) = drop_while_stop is_re_space c s (ground (arith, h.0))
drop_while-IsValue _ (in_quotes c s h) = refl

is_nil-IsValue : (v : Text) → IsValue v → is_nil v ≡ false
is_nil-IsValue _ (plain c s q h) = refl
is_nil-IsValue _ (in_quotes c s h) = refl

module _ (c : ℕ) (s : Text) (n : ℕ) (v : Text) (h : IsWord (c ∷ s)) (k : IsValue v) where
  abbrev line : Text
  line = (c ∷ s) ++ (indenter (suc n) ++ v)

  body_of : drop_while is_re_space line ≡ line
  body_of = drop_while_stop is_re_space c (s ++ (indenter (suc n) ++ v)) (ground (arith, h.0))

  word_of : take_while not_re_space line ≡ c ∷ s
  word_of =
      take_while-append not_re_space (c ∷ s) (indenter (suc n) ++ v) (word-AllHold (c ∷ s) h)
      ∙ append-nil (c ∷ s)

  tail_of : drop_while is_re_space (drop_while not_re_space line) ≡ v
  tail_of =
      rw (drop_while-append not_re_space (c ∷ s) (indenter (suc n) ++ v) (word-AllHold (c ∷ s) h)) (
        drop_while-append is_re_space (indenter (suc n)) v (indenter-AllHold (suc n))
        ∙ drop_while-IsValue v k)

  -- A word, the blanks behind it and a value are matched as what they are.
  match_property-pad : match_property line ≡ (c ∷ s, v)
  unfolding match_property
  match_property-pad =
      rw (body_of, word_of, tail_of, is_nil-IsValue v k, match_value-IsValue v k) refl

match_property-indenter : (m : ℕ) (s : Text) → match_property (indenter m ++ s) ≡ match_property s
unfolding match_property
match_property-indenter m s =
    rw (drop_while-append is_re_space (indenter m) s (indenter-AllHold m)) refl

trim_space-IsWord : (s : Text) → IsWord s → trim_space s ≡ s
trim_space-IsWord [] h = elim h [ ]
trim_space-IsWord (c ∷ s) h = trim_func_none is_space (c ∷ s) h

-- Blanks, a word, at least one more blank and a value are parsed as the word and the value.
pub parse_option-pad :
    (m n : ℕ) (key v : Text)
    → IsWord key
    → IsValue v
    → parse_option (indenter m ++ (key ++ (indenter (suc n) ++ v))) ≡ (key, v)
unfolding parse_option
parse_option-pad m n [] v h k = elim h [ ]
parse_option-pad m n (c ∷ s) v h k =
    rw
      (
        match_property-indenter m ((c ∷ s) ++ (indenter (suc n) ++ v)),
        match_property-pad c s n v h k,
        trim_space-IsWord (c ∷ s) h,
        trim_space-IsValue v k,
      )
      refl
