-- ===== src/Stringformat/Tests.antt =====
-- stringformat/stringformat.go and conversion/conversion.go on small inputs.
use common_host_libs.Prelude.{◌≡◌, refl, length, inl, arith, [], ◌∷◌, true, false}
use common_host_libs.Prelude.Text.{codes, text_eq}
use common_host_libs.Stringformat.{
  aligned, strings_lookup, left_align, of_string, fixed_length_string,
}
use common_host_libs.Stringformat.Widths.{length-fixed_length_string}

length-fixed_length_string_example :
    length (fixed_length_string 4 (of_string (codes "multipath")) left_align) ≡ 4
length-fixed_length_string_example =
    length-fixed_length_string 4 (codes "multipath") left_align (omega arith) (inl refl)

-- A width with one digit too many.
no_width_test :
    fixed_length_string 10000010 (of_string (codes "a")) left_align
    ≡ codes "%!(NOVERB)%!(EXTRA string=a)"
unfolding fixed_length_string aligned
no_width_test = refl

lookups :
    strings_lookup (codes "nimble" ∷ codes "3par" ∷ []) (codes "3par" ∷ codes "nimble" ∷ []) ≡ true
unfolding text_eq
lookups = refl

no_lookup : strings_lookup (codes "nimble" ∷ []) (codes "nimble" ∷ codes "3par" ∷ []) ≡ false
unfolding text_eq
no_lookup = refl
