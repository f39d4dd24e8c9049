-- ===== src/Jconfig.antt =====
-- jconfig/jconfig.go: typed lookups in a configuration that was read from a file of JSON.
pub mod Numbers
mod Types
mod Tests
use common_host_libs.Prelude.{
  ℕ, ◌+◌, ◌-◌, ◌*◌, ◌^◌, String, str_eq, Bool, true, false, ◌||◌, List, [], ◌∷◌, ◌++◌, Option, none,
  some, ltb, leb, ◌==◌, if◌then◌else◌, lookup,
}
use common_host_libs.Prelude.Int.{ℤ, pos, negsuc}
use common_host_libs.Prelude.Decimal.{is_digit, negated}
use common_host_libs.Jconfig.Numbers.{parse_int, parse_bool}
use common_host_libs.Prelude.Text.{Text, codes, text_eq}
use common_host_libs.Prelude.Effects.{Outcome, ok, failed, panics}

-- What encoding/json makes of a file, where F is float64. An object has each of its keys once, in the
-- order in which Go reads the map.
mutual
  pub data Json (F : Type 0) : Type 0 where
    null : Json F
    bool : Bool → Json F
    number : F → Json F
    text : Text → Json F
    array : Items F → Json F
    object : Fields F → Json F

  pub data Items (F : Type 0) : Type 0 where
    nil : Items F
    cons : Json F → Items F → Items F

  pub data Fields (F : Type 0) : Type 0 where
    end : Fields F
    field : String → Json F → Fields F → Fields F

-- What the code uses of Go: int64 of a float64, the format %v, the kind and
-- the type of a value as text, and the text of a NumError of a function, a text and a reason.
pub record Go (F : Type 0) : Type 0 where
  pub int64_of : F → ℤ
  pub show : Json F → Text
  pub kind : Json F → Text
  pub type_of : Json F → Text
  pub num_error : Text → Text → Text → Text

-- A Config's map.
abbrev pub Config : Type 0 → Type 0
Config F = List (String × Json F)

abbrev pub not_found : String → Text
not_found key = codes "key:" ++ (codes key ++ codes " not found")

-- An interface{} that holds one of the three types of GetValueFromMapByType.
pub data Typed : Type 0 where
  int64 : ℤ → Typed
  string : Text → Typed
  boolean : Bool → Typed

abbrev pub fields_of : {F : Type 0} → Fields F → List (String × Json F)
fields_of end = []
fields_of (field k v fs) = (k, v) ∷ fields_of fs

-- The pairs of the one object, each in a map of its own.
abbrev singles : {F : Type 0} → Fields F → List (List (String × Json F))
singles end = []
singles (field k v fs) = ((k, v) ∷ []) ∷ singles fs

abbrev maps_of : {F : Type 0} → Items F → List (List (String × Json F))
maps_of nil = []
maps_of (cons (object fs) vs) = singles fs ++ maps_of vs
maps_of (cons v vs) = maps_of vs

abbrev map_slice : {F : Type 0} → String → Json F → Outcome (List (List (String × Json F)))
map_slice key (array vs) = ok (maps_of vs)
map_slice key v = failed (not_found key)

unfoldable get_map_slice :
    {F : Type 0} → Config F → String → Outcome (List (List (String × Json F)))
get_map_slice c key = elim (lookup key c) [
  | none ↦ failed (not_found key)
  | some v ↦ map_slice key v
]

abbrev pub map_in : {F : Type 0} → String → Json F → Outcome (List (String × Json F))
map_in key (object fs) = ok (fields_of fs)
map_in key v = failed (not_found key)

unfoldable pub get_map : {F : Type 0} → Config F → String → Outcome (List (String × Json F))
get_map c key = elim (lookup key c) [ none ↦ failed (not_found key) | some v ↦ map_in key v ]

-- A value and an error, where the value alone is returned.
abbrev value_of : {A : Type 0} → Outcome (A × Option Text) → Outcome A
value_of (ok (a, e)) = ok a
value_of (failed m) = failed m
value_of panics = panics

-- A value of the type that is asked for, unless there is an error.
abbrev pub populated : {A : Type 0} → (A → Typed) → Outcome (A × Option Text) → Outcome Typed
populated f (ok (a, none)) = ok (f a)
populated f (ok (a, some m)) = failed m
populated f (failed m) = failed m
populated f panics = panics

module _ {F : Type 0} (go : Go F) where
  -- An error about the type of a value; that of a null is a nil Type, whose Kind panics.
  abbrev pub mistyped : {A : Type 0} → Text → Text → A → Json F → Outcome (A × Option Text)
  mistyped before after zero_value null = panics
  mistyped before after zero_value v = ok (
    zero_value,
    some (before ++ (go.show v ++ (after ++ (go.kind v ++ (codes " type:" ++ go.type_of v))))),
  )

  abbrev pub parsed : {A : Type 0} → Text → Text → A × Option Text → Outcome (A × Option Text)
  parsed func t (a, none) = ok (a, none)
  parsed func t (a, some m) = ok (a, some (go.num_error func t m))

  abbrev pub int64_in : Text → Text → Json F → Outcome (ℤ × Option Text)
  int64_in before after (number f) = ok (go.int64_of f, none)
  int64_in before after (text t) = parsed (codes "ParseInt") t (parse_int t)
  int64_in before after v = mistyped before after (pos 0) v

  abbrev pub bool_in : Text → Text → Json F → Outcome (Bool × Option Text)
  bool_in before after (bool b) = ok (b, none)
  bool_in before after (text t) = parsed (codes "ParseBool") t (parse_bool t)
  bool_in before after v = mistyped before after false v

  unfoldable pub get_int64_type : Json F → Outcome (ℤ × Option Text)
  get_int64_type = int64_in (codes "value:") (codes " is not a number kind:")

  unfoldable pub get_bool_type : Json F → Outcome (Bool × Option Text)
  get_bool_type = bool_in (codes "value:") (codes " is not a number kind:")

  unfoldable pub get_string_type : Json F → Text
  get_string_type (text t) = t
  get_string_type v = go.show v

  abbrev pub typed_value : String → Json F → Outcome Typed
  typed_value type v =
      if str_eq type "int64"
      then populated int64 (get_int64_type v)
      else if str_eq type "string"
      then ok (string (get_string_type v))
      else if str_eq type "bool"
      then populated boolean (get_bool_type v)
      else failed (codes "unknown option type " ++ (codes type ++ codes " provided to populate"))

  abbrev pub typed_lookup : String → String → Option (Json F) → Outcome Typed
  typed_lookup key type none =
      failed (codes "cannot find key " ++ (codes key ++ codes " in the option map"))
  typed_lookup key type (some v) = typed_value type v

  unfoldable pub get_value_from_map_by_type :
      List (String × Json F) → String → String → Outcome Typed
  get_value_from_map_by_type m key type = typed_lookup key type (lookup key m)

  abbrev about : String → String → Text
  about key what = codes "key:" ++ (codes key ++ codes what)

  unfoldable get_string_with_error : Config F → String → Text × Option Text
  get_string_with_error c key = elim (lookup key c) [
    | none ↦ ([], some (not_found key))
    | some v ↦ (get_string_type v, none)
  ]

  unfoldable get_string : Config F → String → Text
  get_string c key = (get_string_with_error c key).0

  abbrev shown : Items F → List Text
  shown nil = []
  shown (cons v vs) = go.show v ∷ shown vs

  abbrev slice_in : String → Json F → Outcome (List Text × Option Text)
  slice_in key (array vs) = ok (shown vs, none)
  slice_in key v = mistyped (about key " is not a slice.  value:") (codes " kind:") [] v

  unfoldable get_string_slice_with_error : Config F → String → Outcome (List Text × Option Text)
  get_string_slice_with_error c key = elim (lookup key c) [
    | none ↦ ok ([], some (not_found key))
    | some v ↦ slice_in key v
  ]

  unfoldable get_string_slice : Config F → String → Outcome (List Text)
  get_string_slice c key = value_of (get_string_slice_with_error c key)

  unfoldable get_int64_slice_with_error : Config F → String → Outcome (ℤ × Option Text)
  get_int64_slice_with_error c key = elim (lookup key c) [
    | none ↦ ok (pos 0, some (not_found key))
    | some v ↦ int64_in (about key " is not a number.  value:") (codes " kind:") v
  ]

  unfoldable get_int64 : Config F → String → Outcome ℤ
  get_int64 c key = value_of (get_int64_slice_with_error c key)

  unfoldable get_bool : Config F → String → Outcome (Bool × Option Text)
  get_bool c key = elim (lookup key c) [
    | none ↦ ok (false, some (not_found key))
    | some v ↦ bool_in (about key " is not a bool.  value:") (codes " kind:") v
  ]
