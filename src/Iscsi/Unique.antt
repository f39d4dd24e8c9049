-- ===== src/Iscsi/Unique.antt =====
-- linux/iscsi.go: lists without duplicates.
use common_host_libs.Prelude.{
  ◌≡◌, refl, Bool-cases, true, false, ◌||◌, List, [], ◌∷◌, inl, inr, arith, ap,
}
use common_host_libs.Prelude.Text.{Text, text_eq, text_eq_iff}
use common_host_libs.Iscsi.Targets.{is_in, unique_from, remove_duplicates}

-- No text stands in the list twice.
abbrev pub AllDiffer : List Text → Type 0
AllDiffer [] = Unit {0}
AllDiffer (t ∷ ts) = (is_in t ts ≡ false) × AllDiffer ts

text_eq-subst : (s t : Text) (l : List Text) → text_eq t s ≡ true → is_in t l ≡ is_in s l
text_eq-subst s t l e = ap (λ u. is_in u l) ((text_eq_iff t s).0 e)

-- A text is in the result if and only if it is in the list, unless it has been met.
is_in-unique_from :
    (s : Text) (encountered ts : List Text)
    → (is_in s encountered || is_in s (unique_from encountered ts))
      ≡ (is_in s encountered || is_in s ts)
is_in-unique_from s encountered [] = refl
is_in-unique_from s encountered (t ∷ ts) = elim (Bool-cases (is_in t encountered)) [
  | inl p ↦ elim (Bool-cases (text_eq t s)) [
    | inl q ↦ ground (arith, p, q, text_eq-subst s t encountered q)
    | inr q ↦ rw (p, q) (is_in-unique_from s encountered ts)
  ]
  | inr p ↦ elim (Bool-cases (text_eq t s)) [
    | inl q ↦ rw (p, q) refl
    | inr q ↦ ground (arith, p, q, is_in-unique_from s (t ∷ encountered) ts)
  ]
]

-- A text that has been met is not in the result.
unique_from-met :
    (s : Text) (encountered ts : List Text)
    → is_in s encountered ≡ true
    → is_in s (unique_from encountered ts) ≡ false
unique_from-met s encountered [] h = refl
unique_from-met s encountered (t ∷ ts) h = elim (Bool-cases (is_in t encountered)) [
  | inl p ↦ rw p (unique_from-met s encountered ts h)
  | inr p ↦ elim (Bool-cases (text_eq t s)) [
    | inl q ↦ ground (arith, p, h, text_eq-subst s t encountered q)
    | inr q ↦ rw (p, q) (unique_from-met s (t ∷ encountered) ts (rw (q, h) refl))
  ]
]

unique_from-AllDiffer : (encountered ts : List Text) → AllDiffer (unique_from encountered ts)
unique_from-AllDiffer encountered [] = tt
unique_from-AllDiffer encountered (t ∷ ts) = elim (Bool-cases (is_in t encountered)) [
  | inl p ↦ rw p (unique_from-AllDiffer encountered ts)
  | inr p ↦ rw p (
    unique_from-met t (t ∷ encountered) ts (rw ((text_eq_iff t t).1 refl) refl),
    unique_from-AllDiffer (t ∷ encountered) ts,
  )
]

-- In what removeDuplicates returns no text stands twice, and each text is in it if and only if it is in
-- the list that it was given.
pub remove_duplicates-AllDiffer :
    (ts : List Text)
    → AllDiffer (remove_duplicates ts) × ((s : Text) → is_in s (remove_duplicates ts) ≡ is_in s ts)
unfolding remove_duplicates
remove_duplicates-AllDiffer ts = (unique_from-AllDiffer [] ts, λ s. is_in-unique_from s [] ts)
