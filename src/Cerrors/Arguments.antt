-- ===== src/Cerrors/Arguments.antt =====
-- chapi2/cerrors/cerrors.go: the order of the arguments of NewChapiError.
use common_host_libs.Prelude.{◌≡◌, ◌≢◌, refl, List, [], ◌∷◌, ◌++◌}
use common_host_libs.Cerrors.{
  Heap, Arg, of_code, of_string, of_value, of_pointer, of_error, of_other, Options, parse_arg,
  parse_args, no_options, new_chapi_error,
}

-- Which of the local variables an argument sets.
pub data ArgKind : Type 0 where
  code_kind : ArgKind
  string_kind : ArgKind
  chapi_kind : ArgKind
  error_kind : ArgKind
  other_kind : ArgKind

abbrev pub kind : Arg → ArgKind
kind (of_code c) = code_kind
kind (of_string s) = string_kind
kind (of_value e) = chapi_kind
kind (of_pointer p) = chapi_kind
kind (of_error s) = error_kind
kind of_other = other_kind

parse_arg_swap :
    (o : Options) (a b : Arg)
    → kind a ≢ kind b
    → parse_arg (parse_arg o a) b ≡ parse_arg (parse_arg o b) a
unfolding parse_arg
parse_arg_swap o (of_code c) (of_code d) h = absurd (h refl)
parse_arg_swap o (of_string s) (of_string t) h = absurd (h refl)
parse_arg_swap o (of_value e) (of_value f) h = absurd (h refl)
parse_arg_swap o (of_value e) (of_pointer q) h = absurd (h refl)
parse_arg_swap o (of_pointer p) (of_value f) h = absurd (h refl)
parse_arg_swap o (of_pointer p) (of_pointer q) h = absurd (h refl)
parse_arg_swap o (of_error s) (of_error t) h = absurd (h refl)
parse_arg_swap o of_other b h = refl
parse_arg_swap o a of_other h = refl
parse_arg_swap o _ _ h = refl

parse_args-append :
    (o : Options) (xs ys : List Arg) → parse_args o (xs ++ ys) ≡ parse_args (parse_args o xs) ys
unfolding parse_args
parse_args-append o [] ys = refl
parse_args-append o (x ∷ xs) ys = parse_args-append (parse_arg o x) xs ys

parse_args_swap :
    (o : Options) (xs ys : List Arg) (a b : Arg)
    → kind a ≢ kind b
    → parse_args o (xs ++ (a ∷ (b ∷ ys))) ≡ parse_args o (xs ++ (b ∷ (a ∷ ys)))
unfolding parse_args
parse_args_swap o xs ys a b h =
    rw
      (
        parse_args-append o xs (a ∷ (b ∷ ys)),
        parse_args-append o xs (b ∷ (a ∷ ys)),
        parse_arg_swap (parse_args o xs) a b h,
      )
      refl

-- Two neighbouring arguments of NewChapiError can be exchanged if they are not both a code, both a
-- text, both an error of another type or both a ChapiError or a pointer to one.
pub new_chapi_error_swap :
    (h : Heap) (xs ys : List Arg) (a b : Arg)
    → kind a ≢ kind b
    → new_chapi_error h (xs ++ (a ∷ (b ∷ ys))) ≡ new_chapi_error h (xs ++ (b ∷ (a ∷ ys)))
unfolding new_chapi_error
new_chapi_error_swap h xs ys a b k = rw (parse_args_swap (no_options h) xs ys a b k) refl
