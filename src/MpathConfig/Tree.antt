-- ===== src/MpathConfig/Tree.antt =====
-- mpathconfig/configresource.go: Configuration and Section, and what adds to them and searches them.
pub mod Shape
pub mod Search
use common_host_libs.Prelude.{
  ℕ, zero, suc, ◌+◌, Bool, true, false, not, ◌&&◌, ◌||◌, List, [], ◌∷◌, ◌++◌, Option, none, some,
  length, get_elem?, set, ltb, ◌==◌, if◌then◌else◌,
}
use common_host_libs.Prelude.Text.{
  Text, codes, text_eq, is_space, is_re_space, drop_while, take_while, trim_func, trim_space,
  strip_prefix, contains, is_nil,
}
use common_host_libs.MpathConfig.Syntax.{parse_option}

abbrev pub Properties : Type 0
Properties = List (Text × Text)

-- `properties` is `none` for the nil map of the root; `parent` is `none` for the nil pointer.
pub record Section : Type 0 where
  pub name : Text
  pub parent : Option ℕ
  pub properties : Option Properties
  pub children : List ℕ
  pub duplicates : Properties

pub record Configuration : Type 0 where
  pub file : Text
  pub heap : List Section

pub data ConfigError : Type 0 where
  no_parent : Text → ConfigError
  section_not_found : Text → ConfigError
  device_not_found : ConfigError
  read_error : ConfigError

pub data Result {ℓ} (A : Type ℓ) : Type ℓ where
  ok : A → Result A
  err : ConfigError → Result A
  panics : Result A

abbrev root_name : Text
root_name = codes "root"

unfoldable pub new_configuration : Text → Configuration
new_configuration path = record {
  file = path;
  heap =
      record { name = root_name; parent = none; properties = none; children = []; duplicates = [] }
      ∷ [];
}

abbrev pub find_property : Text → Properties → Option Text
find_property k [] = none
find_property k ((j, v) ∷ ps) = if text_eq j k then some v else find_property k ps

abbrev pub name_at : List Section → ℕ → Option Text
name_at heap a = elim (get_elem? heap a) [ none ↦ none | some s ↦ some s.name ]

-- `PushBack` on the children of the section at an address.
abbrev pub push_child : ℕ → ℕ → List Section → List Section
push_child a child heap = elim (get_elem? heap a) [
  | none ↦ heap
  | some s ↦ set heap a (record s { children = s.children ++ (child ∷ []) })
]

-- The loop over the root's children: the new section goes under each that has the parent's name.
abbrev pub push_named : Text → ℕ → List ℕ → List Section → List Section × Bool
push_named wanted child [] heap = (heap, false)
push_named wanted child (a ∷ rest) heap =
    let here : Bool = elim (name_at heap a) [ none ↦ false | some n ↦ text_eq n wanted ] in
    let (heap', found) =
      push_named wanted child rest (if here then push_child a child heap else heap) in
    (heap', here || found)

abbrev pub children_at : List Section → ℕ → List ℕ
children_at heap a = elim (get_elem? heap a) [ none ↦ [] | some s ↦ s.children ]

-- AddSection, with the address of the new section. A nil parent is a nil dereference.
unfoldable pub add_section : Configuration → Text → Option ℕ → Result (Configuration × ℕ)
add_section c name none = panics
add_section c name (some p) = elim (name_at c.heap p) [
  | none ↦ panics
  | some parent_name ↦
      (let fresh = length c.heap in
        let new : Section = record {
          name = name;
          parent = some p;
          properties = some [];
          children = [];
          duplicates = [];
        } in
        let heap = c.heap ++ (new ∷ []) in
        let (pushed, found) = push_named parent_name fresh (children_at c.heap 0) heap in
        if text_eq parent_name root_name
        then ok (record c { heap = push_child 0 fresh heap }, fresh)
        else if found
        then ok (record c { heap = pushed }, fresh)
        else err (no_parent name))
]

-- addOption on a section's fields: a key that is there already goes to the duplicates.
unfoldable pub add_property : Section → Text → Text → Result Section
add_property s key value = elim s.properties [
  | none ↦ panics
  | some ps ↦ elim (find_property key ps) [
    | some v ↦ ok (record s { duplicates = s.duplicates ++ ((key, value) ∷ []) })
    | none ↦ ok (record s { properties = some (ps ++ ((key, value) ∷ [])) })
  ]
]

unfoldable pub add_option : Configuration → Option ℕ → Text → Result Configuration
unfolding add_property
add_option c none option = panics
add_option c (some a) option = elim (get_elem? c.heap a) [
  | none ↦ panics
  | some s ↦
      (let (key, value) = parse_option option in
        if is_nil value then ok c else elim (add_property s key value) [
          | ok s' ↦ ok (record c { heap = set c.heap a s' })
          | err e ↦ err e
          | panics ↦ panics
        ])
]

-- `section.properties["vendor"]` of the section, empty where it is not set.
abbrev vendor_of : Section → Text
vendor_of s = elim s.properties [
  | none ↦ []
  | some ps ↦ elim (find_property (codes "vendor") ps) [ none ↦ [] | some v ↦ v ]
]

-- The inner loop of GetSection: a section named device counts only with the vendor asked for.
unfoldable pub find_child : List Section → Text → Text → List ℕ → Option ℕ
find_child heap name vendor [] = none
find_child heap name vendor (a ∷ rest) =
    let later = find_child heap name vendor rest in
    elim (get_elem? heap a) [
      | none ↦ later
      | some s ↦
          (if text_eq s.name name
            then if text_eq s.name (codes "device") && not (contains (vendor_of s) vendor)
              then later
              else some a
            else later)
    ]

unfoldable pub find_section : List Section → Text → Text → List ℕ → Option ℕ
unfolding find_child
find_section heap name vendor [] = none
find_section heap name vendor (a ∷ rest) =
    let later = find_section heap name vendor rest in
    elim (get_elem? heap a) [
      | none ↦ later
      | some s ↦
          (if text_eq s.name name
            then some a
            else elim (find_child heap name vendor s.children) [ some b ↦ some b | none ↦ later ])
    ]

-- GetSection, with the address of the section.
unfoldable pub get_section : Configuration → Text → Text → Result ℕ
unfolding find_section
get_section c name vendor = elim (find_section c.heap name vendor (children_at c.heap 0)) [
  | some a ↦ ok a
  | none ↦ err (section_not_found name)
]

-- The inner loop of GetDeviceSection.
unfoldable pub find_device : List Section → Text → List ℕ → Option ℕ
find_device heap device_type [] = none
find_device heap device_type (a ∷ rest) =
    let later = find_device heap device_type rest in
    elim (get_elem? heap a) [
      | none ↦ later
      | some s ↦
          (if text_eq s.name (codes "device") && contains (vendor_of s) device_type
            then some a
            else later)
    ]

unfoldable pub find_devices : List Section → Text → List ℕ → Option ℕ
unfolding find_device
find_devices heap device_type [] = none
find_devices heap device_type (a ∷ rest) =
    let later = find_devices heap device_type rest in
    elim (get_elem? heap a) [
      | none ↦ later
      | some s ↦
          (if text_eq s.name (codes "devices")
            then elim (find_device heap device_type s.children) [ some b ↦ some b | none ↦ later ]
            else later)
    ]

unfoldable pub get_device_section : Configuration → Text → Result ℕ
unfolding find_devices
get_device_section c device_type = elim (find_devices c.heap device_type (children_at c.heap 0)) [
  | some a ↦ ok a
  | none ↦ err device_not_found
]
