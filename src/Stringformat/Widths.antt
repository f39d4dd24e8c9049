-- ===== src/Stringformat/Widths.antt =====
-- stringformat/stringformat.go: the width of what FixedLengthString returns.
use mathlib.Core.List.{append-nil}
use common_host_libs.Prelude.{
  ℕ, zero, suc, ◌+◌, ◌-◌, ◌/◌, ◌≡◌, ◌≤◌, refl, ap, ◌∙◌, [], ◌∷◌, length, length-append, take, arith,
  ◌⊎◌,
}
use common_host_libs.Prelude.Text.{Text}
use common_host_libs.Stringformat.{
  AlignmentType, left_align, right_align, center_align, of_string, blanks, pad_left, pad_right,
  aligned, sprintf, starred, fixed_length_string,
}

length-blanks : (n : ℕ) → length (blanks n) ≡ n
length-blanks zero = refl
length-blanks (suc n) = omega (arith, length-blanks n)

length-take_le : (n : ℕ) (s : Text) → length (take n s) ≤ n
length-take_le zero s = omega arith
length-take_le (suc n) [] = omega arith
length-take_le (suc n) (c ∷ s) = omega (arith, length-take_le n s)

length-pad_right : (n : ℕ) (s : Text) → length s ≤ n → length (pad_right n s) ≡ n
length-pad_right n s h =
    omega (arith, length-append s (blanks (n - length s)), length-blanks (n - length s), h)

length-pad_left : (n : ℕ) (s : Text) → length s ≤ n → length (pad_left n s) ≡ n
length-pad_left n s h =
    omega (arith, length-append (blanks (n - length s)) s, length-blanks (n - length s), h)

starred_narrow : (n : ℕ) (s t : Text) → n ≤ 1000000 → starred n s t ≡ t
starred_narrow n s t b = ground (arith, b)

formatted_narrow : (n : ℕ) (s t : Text) → n ≤ 1000000 → sprintf n s t ≡ t
formatted_narrow n s t b = ground (arith, b)

-- A text that is aligned to the left or to the right has exactly the length that was asked for, if that
-- is at most 10 ^ 6.
pub length-fixed_length_string :
    (n : ℕ) (s : Text) (alignment : AlignmentType)
    → n ≤ 1000000
    → (alignment ≡ left_align) ⊎ (alignment ≡ right_align)
    → length (fixed_length_string n (of_string s) alignment) ≡ n
unfolding fixed_length_string aligned
length-fixed_length_string n s left_align b h =
    ap length (formatted_narrow n s (pad_right n (take n s)) b)
    ∙ length-pad_right n (take n s) (length-take_le n s)
length-fixed_length_string n s right_align b h =
    ap length (formatted_narrow n s (pad_left n (take n s)) b)
    ∙ length-pad_left n (take n s) (length-take_le n s)
length-fixed_length_string n s _ b h = ground (arith, h)

blanks_none : (n : ℕ) (s : Text) → n ≤ length s → blanks (n - length s) ≡ []
blanks_none n s h = ap blanks (nothing_left n (length s) h)
  where
    nothing_left : (a b : ℕ) → a ≤ b → a - b ≡ 0
    nothing_left a b l = omega (arith, l)

centred :
    (n : ℕ) (s : Text)
    → n ≤ 1000000
    → (n + length s) / 2 ≤ 1000000
    → fixed_length_string n (of_string s) center_align
      ≡ pad_right n (pad_left ((n + length s) / 2) s)
unfolding fixed_length_string aligned
centred n s b c =
    starred_narrow n _ _ b
    ∙ ap (pad_right n) (starred_narrow ((n + length s) / 2) s (pad_left ((n + length s) / 2) s) c)

-- A text of at most 10 ^ 6 characters that is centred and is longer than the length that was asked for
-- is returned whole.
pub fixed_length_string-center_long :
    (n : ℕ) (s : Text)
    → n ≤ length s
    → length s ≤ 1000000
    → fixed_length_string n (of_string s) center_align ≡ s
fixed_length_string-center_long n s h b =
    centred n s (omega (arith, h, b)) (omega (arith, h, b))
    ∙ rw (blanks_none ((n + length s) / 2) s (omega (arith, h)), blanks_none n s h) (append-nil s)
