-- ===== src/Jconfig/Types.antt =====
-- jconfig/jconfig.go, GetValueFromMapByType: the types of its values, and its panics.
use common_host_libs.Prelude.{
  ℕ, zero, suc, ◌-◌, ◌^◌, ◌≡◌, refl, subst, ◌∙◌, String, str_eq, eq_iff, Bool, Bool-cases, true,
  false, ◌&&◌, ◌||◌, List, [], ◌∷◌, Option, none, some, inl, inr, lookup, ltb, leb, ◌==◌, arith,
  if◌then◌else◌,
}
use common_host_libs.Prelude.Int.{ℤ, pos, negsuc, ◌≤ℤ◌}
use common_host_libs.Prelude.Decimal.{negated}
use common_host_libs.Prelude.Text.{Text, codes}
use common_host_libs.Prelude.Effects.{Outcome, ok, failed, panics}
use common_host_libs.Jconfig.{
  Json, null, bool, number, text, array, object, Go, Typed, int64, string, boolean, populated,
  parsed, typed_value, typed_lookup, get_int64_type, get_bool_type, get_value_from_map_by_type,
}
use common_host_libs.Jconfig.Numbers.{
  Digits, value, bad, large, parse_int, parse_bool, parse_uint, plus, minus,
}

-- The numbers of 64 bits with a sign.
abbrev pub IsInt64 : ℤ → Type 0
IsInt64 z = (negsuc (2 ^ 63 - 1) ≤ℤ z) × (z ≤ℤ pos (2 ^ 63 - 1))

abbrev pub HasType : String → Typed → Type 0
HasType type (int64 z) = (type ≡ "int64") × IsInt64 z
HasType type (string s) = type ≡ "string"
HasType type (boolean b) = type ≡ "bool"

-- What an outcome holds has the property.
abbrev Holds : (Typed → Type 0) → Outcome Typed → Type 0
Holds P (ok v) = P v
Holds P (failed m) = Unit {0}
Holds P panics = Unit {0}

negated-IsInt64 : (n : ℕ) → leb n (2 ^ 63) ≡ true → IsInt64 (negated n)
negated-IsInt64 zero h = (omega arith, omega arith)
negated-IsInt64 (suc n) h = (ground arith, ground arith)

plus-IsInt64 : (d : Digits) → IsInt64 (plus d).0
plus-IsInt64 (value n) = elim (Bool-cases (ltb n (2 ^ 63))) [
  | inl p ↦ rw p (omega arith, ground (arith, p))
  | inr p ↦ rw p (omega arith, omega arith)
]
plus-IsInt64 bad = (omega arith, omega arith)
plus-IsInt64 large = (omega arith, omega arith)

minus-IsInt64 : (d : Digits) → IsInt64 (minus d).0
minus-IsInt64 (value n) = elim (Bool-cases (leb n (2 ^ 63))) [
  | inl p ↦ rw p (negated-IsInt64 n p)
  | inr p ↦ rw p (omega arith, omega arith)
]
minus-IsInt64 bad = (omega arith, omega arith)
minus-IsInt64 large = (omega arith, omega arith)

parse_int-IsInt64 : (s : Text) → IsInt64 (parse_int s).0
unfolding parse_int
parse_int-IsInt64 [] = (omega arith, omega arith)
parse_int-IsInt64 (c ∷ s) = elim (Bool-cases (c == b'-')) [
  | inl p ↦ rw p (minus-IsInt64 (parse_uint s))
  | inr p ↦ rw p (plus-IsInt64 (parse_uint (if c == b'+' then s else c ∷ s)))
]

abbrev pub is_null : {F : Type 0} → Option (Json F) → Bool
is_null (some null) = true
is_null o = false

abbrev pub is_panic : {A : Type 0} → Outcome A → Bool
is_panic panics = true
is_panic o = false

string-differs : (t : String) → str_eq t "string" ≡ true → str_eq t "bool" ≡ false
string-differs t h = rw ((eq_iff t "string").0 h) refl

module _ {F : Type 0} (go : Go F) where
  parsed_int64-Holds :
      (t : Text) (r : ℤ × Option Text)
      → IsInt64 r.0
      → Holds (HasType "int64") (populated int64 (parsed go (codes "ParseInt") t r))
  parsed_int64-Holds t (z, none) h = (refl, h)
  parsed_int64-Holds t (z, some m) h = tt

  int64-Holds :
      (j : Json F)
      → ((f : F) → IsInt64 (go.int64_of f))
      → Holds (HasType "int64") (populated int64 (get_int64_type go j))
  unfolding get_int64_type
  int64-Holds null h = tt
  int64-Holds (bool b) h = tt
  int64-Holds (number f) h = (refl, h f)
  int64-Holds (text t) h = parsed_int64-Holds t (parse_int t) (parse_int-IsInt64 t)
  int64-Holds (array vs) h = tt
  int64-Holds (object fs) h = tt

  parsed_bool-Holds :
      (t : Text) (r : Bool × Option Text)
      → Holds (HasType "bool") (populated boolean (parsed go (codes "ParseBool") t r))
  parsed_bool-Holds t (b, none) = refl
  parsed_bool-Holds t (b, some m) = tt

  bool-Holds : (j : Json F) → Holds (HasType "bool") (populated boolean (get_bool_type go j))
  unfolding get_bool_type
  bool-Holds null = tt
  bool-Holds (bool b) = refl
  bool-Holds (number f) = tt
  bool-Holds (text t) = parsed_bool-Holds t (parse_bool t)
  bool-Holds (array vs) = tt
  bool-Holds (object fs) = tt

  typed_value-Holds :
      (type : String) (j : Json F)
      → ((f : F) → IsInt64 (go.int64_of f))
      → Holds (HasType type) (typed_value go type j)
  typed_value-Holds type j h = elim (Bool-cases (str_eq type "int64")) [
    | inl p ↦ rw (p, (eq_iff type "int64").0 p) (int64-Holds j h)
    | inr p ↦ elim (Bool-cases (str_eq type "string")) [
      | inl q ↦ rw (p, q) ((eq_iff type "string").0 q)
      | inr q ↦ elim (Bool-cases (str_eq type "bool")) [
        | inl r ↦ rw (p, q, r, (eq_iff type "bool").0 r) (bool-Holds j)
        | inr r ↦ rw (p, q, r) tt
      ]
    ]
  ]

  found-Holds :
      (key type : String) (o : Option (Json F))
      → ((f : F) → IsInt64 (go.int64_of f))
      → Holds (HasType type) (typed_lookup go key type o)
  found-Holds key type none h = tt
  found-Holds key type (some j) h = typed_value-Holds type j h

  -- If the conversion of a float64 gives numbers of 64 bits, a value that GetValueFromMapByType returns
  -- without an error has the type that it was asked for, and one of type int64 is in the range of int64.
  pub get_value_from_map_by_type-HasType :
      (m : List (String × Json F)) (key type : String) (v : Typed)
      → ((f : F) → IsInt64 (go.int64_of f))
      → get_value_from_map_by_type go m key type ≡ ok v
      → HasType type v
  unfolding get_value_from_map_by_type
  get_value_from_map_by_type-HasType m key type v h e =
      subst (Holds (HasType type)) e (found-Holds key type (lookup key m) h)

  parsed-safe :
      {A : Type 0} (f : A → Typed) (func t : Text) (r : A × Option Text)
      → is_panic (populated f (parsed go func t r)) ≡ false
  parsed-safe f func t (a, none) = refl
  parsed-safe f func t (a, some m) = refl

  int64_panics : (j : Json F) → is_panic (populated int64 (get_int64_type go j)) ≡ is_null (some j)
  unfolding get_int64_type
  int64_panics null = refl
  int64_panics (bool b) = refl
  int64_panics (number f) = refl
  int64_panics (text t) = parsed-safe int64 (codes "ParseInt") t (parse_int t)
  int64_panics (array vs) = refl
  int64_panics (object fs) = refl

  bool_panics : (j : Json F) → is_panic (populated boolean (get_bool_type go j)) ≡ is_null (some j)
  unfolding get_bool_type
  bool_panics null = refl
  bool_panics (bool b) = refl
  bool_panics (number f) = refl
  bool_panics (text t) = parsed-safe boolean (codes "ParseBool") t (parse_bool t)
  bool_panics (array vs) = refl
  bool_panics (object fs) = refl

  typed_value_panics :
      (type : String) (j : Json F)
      → is_panic (typed_value go type j)
        ≡ (is_null (some j) && (str_eq type "int64" || str_eq type "bool"))
  typed_value_panics type j = elim (Bool-cases (str_eq type "int64")) [
    | inl p ↦ rw p (int64_panics j ∙ ground arith)
    | inr p ↦ elim (Bool-cases (str_eq type "string")) [
      | inl q ↦ rw (p, q, string-differs type q) (ground arith)
      | inr q ↦ elim (Bool-cases (str_eq type "bool")) [
        | inl r ↦ rw (p, q, r) (bool_panics j ∙ ground arith)
        | inr r ↦ rw (p, q, r) (ground arith)
      ]
    ]
  ]

  found_panics :
      (key type : String) (o : Option (Json F))
      → is_panic (typed_lookup go key type o)
        ≡ (is_null o && (str_eq type "int64" || str_eq type "bool"))
  found_panics key type none = refl
  found_panics key type (some j) = typed_value_panics type j

  -- GetValueFromMapByType panics exactly when the map holds a null under the key and the type is int64
  -- or bool.
  pub get_value_from_map_by_type_panics :
      (m : List (String × Json F)) (key type : String)
      → is_panic (get_value_from_map_by_type go m key type)
        ≡ (is_null (lookup key m) && (str_eq type "int64" || str_eq type "bool"))
  unfolding get_value_from_map_by_type
  get_value_from_map_by_type_panics m key type = found_panics key type (lookup key m)
