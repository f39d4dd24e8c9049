-- ===== src/Jconfig/Tests.antt =====
-- jconfig/jconfig.go: lookups in a small configuration, and the properties at them.
use common_host_libs.Prelude.{
  ℕ, ◌≡◌, refl, true, ◌&&◌, ◌||◌, [], ◌∷◌, ◌++◌, none, str_eq, lookup, ◌^◌, ◌-◌, arith, Bool-cases,
  inl, inr, ltb, if◌then◌else◌,
}
use common_host_libs.Prelude.Int.{pos, negsuc}
use common_host_libs.Prelude.Text.{codes, text_eq}
use common_host_libs.Prelude.Effects.{ok, panics}
use common_host_libs.Jconfig.{
  null, bool, number, text, array, object, nil, cons, end, field, Go, int64,
  get_value_from_map_by_type, get_int64_type, get_int64, get_bool, get_string, get_string_slice,
  get_map_slice, Config, get_string_with_error, get_string_slice_with_error,
  get_int64_slice_with_error, get_string_type,
}
use common_host_libs.Jconfig.Numbers.{parse_int, parse_bool}
use common_host_libs.Jconfig.Types.{
  IsInt64, HasType, is_null, is_panic, get_value_from_map_by_type-HasType,
  get_value_from_map_by_type_panics,
}

-- Floats that are natural numbers below 2 ^ 63.
abbrev go : Go ℕ
go = record {
  int64_of = λ n. if ltb n (2 ^ 63) then pos n else pos (2 ^ 63 - 1);
  show = λ j. codes "shown";
  kind = λ j. codes "kind";
  type_of = λ j. codes "type";
  num_error = λ func t m. codes "strconv." ++ (func ++ (codes ": " ++ m));
}

go-IsInt64 : (n : ℕ) → IsInt64 (go.int64_of n)
go-IsInt64 n = elim (Bool-cases (ltb n (2 ^ 63))) [
  | inl p ↦ rw p (omega arith, ground (arith, p))
  | inr p ↦ rw p (omega arith, omega arith)
]

abbrev config : Config ℕ
config =
    ("retries", text (codes "-12"))
    ∷ ("timeout", number 30)
    ∷ ("large", text (codes "9223372036854775808"))
    ∷ ("nothing", null)
    ∷ ("on", text (codes "TRUE"))
    ∷ ("names", array (cons (text (codes "a")) (cons (number 1) nil)))
    ∷ ("hosts", array (cons (object (field "a" null (field "b" (bool true) end))) (cons null nil)))
    ∷ []

lookups_test :
    (get_int64 go config "retries" ≡ ok (negsuc 11))
    × (get_int64 go config "timeout" ≡ ok (pos 30))
    × (get_int64 go config "large" ≡ ok (pos 9223372036854775807))
    × (get_int64 go config "nothing" ≡ panics)
    × (get_int64 go config "missing" ≡ ok (pos 0))
    × (get_bool go config "on" ≡ ok (true, none))
    × (get_string go config "on" ≡ codes "TRUE")
    × (get_string_slice go config "names" ≡ ok (codes "shown" ∷ codes "shown" ∷ []))
unfolding get_int64 get_int64_slice_with_error parse_int get_bool parse_bool get_string
    get_string_with_error get_string_type get_string_slice get_string_slice_with_error text_eq
lookups_test = (refl, refl, refl, refl, refl, refl, refl, refl)

map_slice_test :
    get_map_slice config "hosts" ≡ ok ((("a", null) ∷ []) ∷ (("b", bool true) ∷ []) ∷ [])
unfolding get_map_slice
map_slice_test = refl

get_value_from_map_by_type-HasType_example : HasType "int64" (int64 (negsuc 11))
unfolding get_value_from_map_by_type get_int64_type parse_int
get_value_from_map_by_type-HasType_example =
    get_value_from_map_by_type-HasType go config "retries" "int64" (int64 (negsuc 11)) go-IsInt64
      refl

get_value_from_map_by_type_panics_example :
    is_panic (get_value_from_map_by_type go config "nothing" "bool")
    ≡ (is_null (lookup "nothing" config) && (str_eq "bool" "int64" || str_eq "bool" "bool"))
get_value_from_map_by_type_panics_example =
    get_value_from_map_by_type_panics go config "nothing" "bool"
