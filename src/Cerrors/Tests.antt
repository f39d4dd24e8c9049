-- ===== src/Cerrors/Tests.antt =====
-- chapi2/cerrors/cerrors.go on small heaps.
use common_host_libs.Prelude.{ℕ, ◌≡◌, ◌≢◌, refl, [], ◌∷◌, Option, none, some, arith}
use common_host_libs.Prelude.Text.{Text, codes}
use common_host_libs.Cerrors.{
  Heap, of_code, of_value, new_chapi_error, code_string, error_code, error_text, error, parse_args,
  parse_arg,
}
use common_host_libs.Cerrors.Made.{new_chapi_error_fresh}

-- One error, that something was not found.
abbrev not_found_heap : Heap
not_found_heap = record {
  cells = λ _. record { code = 4; text = codes "no such volume" };
  next = 1;
}

new_chapi_error_fresh_example :
    ((new_chapi_error not_found_heap (of_value (record { code = 4; text = [] }) ∷ [])).0.cells 0
      ≡ not_found_heap.cells 0)
    × ((new_chapi_error not_found_heap (of_value (record { code = 4; text = [] }) ∷ [])).1 ≢ 0)
new_chapi_error_fresh_example =
    new_chapi_error_fresh not_found_heap (of_value (record { code = 4; text = [] }) ∷ []) 0 refl
      (omega arith)

abbrev message : Heap × ℕ → Option Text
message (h, p) = error h (some p)

no_arguments :
    message (new_chapi_error not_found_heap [])
    ≡ some (codes "status: 10 msg: invalid input parameters")
unfolding new_chapi_error parse_args parse_arg error
no_arguments = refl

code_only :
    message (new_chapi_error not_found_heap (of_code 13 ∷ []))
    ≡ some (codes "status: 13 msg: Timeout")
unfolding new_chapi_error parse_args parse_arg error code_string
code_only = refl

other_code : code_string 4294967295 ≡ codes "Code(4294967295)"
unfolding code_string
other_code = refl

nil_error : (error_code not_found_heap none ≡ 0) × (error_text not_found_heap none ≡ [])
unfolding error_code error_text
nil_error = (refl, refl)
