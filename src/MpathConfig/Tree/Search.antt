-- ===== src/MpathConfig/Tree/Search.antt =====
-- mpathconfig/configresource.go: which section GetSection finds.
use common_host_libs.Prelude.{
  ℕ, ◌≡◌, refl, Bool, true, false, not, ◌&&◌, List, [], ◌∷◌, ◌++◌, map, Option, none, some,
  get_elem?, if◌then◌else◌, arith, Option-cases, inl, inr,
}
use common_host_libs.Prelude.Text.{Text, codes, text_eq, contains}
use common_host_libs.MpathConfig.Tree.{
  Section, Configuration, Result, ok, err, section_not_found, vendor_of, find_child, find_section,
  get_section, children_at,
}

-- Sections in the order in which GetSection looks at them, each with whether it is a nested one.
abbrev pub candidates : List Section → List ℕ → List (ℕ × Bool)
candidates heap [] = []
candidates heap (a ∷ rest) =
    (a, false) ∷ (map (λ b. (b, true)) (children_at heap a) ++ candidates heap rest)

-- A section that has the name, and as a nested device the vendor too.
abbrev pub eligible : List Section → Text → Text → ℕ × Bool → Bool
eligible heap name vendor (a, nested) = elim (get_elem? heap a) [
  | none ↦ false
  | some s ↦
      text_eq s.name name
      && not (nested && (text_eq s.name (codes "device") && not (contains (vendor_of s) vendor)))
]

abbrev pub first_match : (ℕ × Bool → Bool) → List (ℕ × Bool) → Option ℕ
first_match p [] = none
first_match p ((a, nested) ∷ rest) = if p (a, nested) then some a else first_match p rest

abbrev or_else : Option ℕ → Option ℕ → Option ℕ
or_else none o = o
or_else (some a) o = some a

first_match-append :
    (p : ℕ × Bool → Bool) (xs ys : List (ℕ × Bool))
    → first_match p (xs ++ ys) ≡ or_else (first_match p xs) (first_match p ys)
first_match-append p [] ys = refl
first_match-append p ((a, nested) ∷ xs) ys = ground (arith, first_match-append p xs ys)

module _ (heap : List Section) (name vendor : Text) where
  find_child-first_match :
      (addresses : List ℕ)
      → find_child heap name vendor addresses
        ≡ first_match (eligible heap name vendor) (map (λ b. (b, true)) addresses)
  unfolding find_child
  find_child-first_match [] = refl
  find_child-first_match (a ∷ rest) = elim (Option-cases (get_elem? heap a)) [
    | inl e ↦ ground (arith, e, find_child-first_match rest)
    | inr (s, e) ↦ ground (arith, e, find_child-first_match rest)
  ]

  find_section-first_match :
      (addresses : List ℕ)
      → find_section heap name vendor addresses
        ≡ first_match (eligible heap name vendor) (candidates heap addresses)
  unfolding find_section
  find_section-first_match [] = refl
  find_section-first_match (a ∷ rest) =
      let split =
        first_match-append (eligible heap name vendor) (map (λ b. (b, true)) (children_at heap a))
          (candidates heap rest) in
      elim (Option-cases (get_elem? heap a)) [
        | inl e ↦ ground (arith, e, split, find_section-first_match rest)
        | inr (s, e) ↦
            ground
              (arith, e, split, find_section-first_match rest, find_child-first_match s.children)
      ]

abbrev pub found_or_error : Text → Option ℕ → Result ℕ
found_or_error name (some a) = ok a
found_or_error name none = err (section_not_found name)

-- GetSection gives the first section that has the name, where each section of the file is followed
-- by those nested in it, and a nested device counts only if its vendor contains the one asked for;
-- it is an error if there is none.
pub get_section-first_match :
    (c : Configuration) (name vendor : Text)
    → get_section c name vendor
      ≡ found_or_error name
          (first_match (eligible c.heap name vendor) (candidates c.heap (children_at c.heap 0)))
unfolding get_section
get_section-first_match c name vendor =
    ground (arith, find_section-first_match c.heap name vendor (children_at c.heap 0))
