-- ===== src/Plugin/Merging.antt =====
-- dockerplugin/plugin/plugin.go: what one section and what the platform add to a map of options.
use common_host_libs.Prelude.{
  ◌≡◌, refl, ap, sym, ◌∙◌, String, str_eq, eq_iff, Bool-cases, Option-cases, false, List, [], ◌∷◌,
  Option, none, some, inl, inr, if◌then◌else◌, lookup, insert, lookup-insert,
}
use common_host_libs.Prelude.Text.{codes}
use common_host_libs.Prelude.Effects.{ok, then_run}
use common_host_libs.Jconfig.{Json, text}
use common_host_libs.Plugin.{
  Platform, linux, darwin, windows, Section, overrides, has, option_key, is_overrides,
  written_if_absent, set_default_filesystem, set_default_volume_dir, populate_one, populate_all,
}

infixr 4 ◌or_else◌
abbrev pub ◌or_else◌ : {A : Type 0} → Option A → Option A → Option A
none or_else b = b
some a or_else b = some a

pub or_else_assoc :
    {A : Type 0} (a b c : Option A) → ((a or_else b) or_else c) ≡ (a or_else (b or_else c))
or_else_assoc none b c = refl
or_else_assoc (some x) b c = refl

or_else-none : {A : Type 0} (a : Option A) → (a or_else none) ≡ a
or_else-none none = refl
or_else-none (some x) = refl

module _ {F : Type 0} where
  abbrev at : String → String → Json F → Option (Json F)
  at k j v = if str_eq j k then some v else none

  -- What the section has for the key of a request: the first setting, and the last.
  abbrev pub first_in : String → List (String × Json F) → Option (Json F)
  first_in k [] = none
  first_in k ((j, v) ∷ o) = at k (option_key j) v or_else first_in k o

  abbrev pub last_in : String → List (String × Json F) → Option (Json F)
  last_in k [] = none
  last_in k ((j, v) ∷ o) = last_in k o or_else at k (option_key j) v

  -- What the platform sets by itself.
  abbrev pub filesystem_in : Platform → String → Option (Json F)
  filesystem_in windows k = at k "filesystem" (text (codes "ntfs"))
  filesystem_in linux k = none
  filesystem_in darwin k = none

  abbrev pub volume_dir_in : Platform → String → Option (Json F)
  volume_dir_in windows k = at k "volumeDir" (text (codes "C:\\ProgramData\\hpe-storage-mounts\\"))
  volume_dir_in linux k = none
  volume_dir_in darwin k = none

  abbrev kept : String → Json F → List (String × Json F) → List (String × Json F)
  kept j v m = if has (lookup j m) then m else insert j v m

  lookup-insert-or_else :
      (k j : String) (v : Json F) (m : List (String × Json F))
      → lookup k (insert j v m) ≡ (at k j v or_else lookup k m)
  lookup-insert-or_else k j v m = elim (Bool-cases (str_eq j k)) [
    | inl p ↦ rw (lookup-insert j k v m, p) refl
    | inr p ↦ rw (lookup-insert j k v m, p) refl
  ]

  absent-or_else :
      (k j : String) (v : Json F) (m : List (String × Json F))
      → lookup j m ≡ none
      → (at k j v or_else lookup k m) ≡ (lookup k m or_else at k j v)
  absent-or_else k j v m q = elim (Bool-cases (str_eq j k)) [
    | inl p ↦ rw (p, sym (ap (λ i. lookup i m) ((eq_iff j k).0 p)), q) refl
    | inr p ↦ rw p (sym (or_else-none (lookup k m)))
  ]

  present-or_else :
      (k j : String) (v w : Json F) (m : List (String × Json F))
      → lookup j m ≡ some w
      → lookup k m ≡ (lookup k m or_else at k j v)
  present-or_else k j v w m q = elim (Bool-cases (str_eq j k)) [
    | inl p ↦ rw (p, sym (ap (λ i. lookup i m) ((eq_iff j k).0 p)), q) refl
    | inr p ↦ rw p (sym (or_else-none (lookup k m)))
  ]

  lookup-kept :
      (k j : String) (v : Json F) (m : List (String × Json F))
      → lookup k (kept j v m) ≡ (lookup k m or_else at k j v)
  lookup-kept k j v m = elim (Option-cases (lookup j m)) [
    | inl q ↦ rw q (lookup-insert-or_else k j v m ∙ absent-or_else k j v m q)
    | inr (w, q) ↦ rw q (present-or_else k j v w m q)
  ]

  -- What populateConfigOptsBySection makes of a map.
  abbrev pub filled : List (String × Json F) → List (String × Json F) → List (String × Json F)
  filled [] m = m
  filled ((j, v) ∷ o) m = filled o (kept (option_key j) v m)

  abbrev pub overridden : List (String × Json F) → List (String × Json F) → List (String × Json F)
  overridden [] m = m
  overridden ((j, v) ∷ o) m = overridden o (insert (option_key j) v m)

  pub lookup-filled :
      (k : String) (o m : List (String × Json F))
      → lookup k (filled o m) ≡ (lookup k m or_else first_in k o)
  lookup-filled k [] m = sym (or_else-none (lookup k m))
  lookup-filled k ((j, v) ∷ o) m =
      lookup-filled k o (kept (option_key j) v m)
      ∙ (ap (λ x. x or_else first_in k o) (lookup-kept k (option_key j) v m)
          ∙ or_else_assoc (lookup k m) (at k (option_key j) v) (first_in k o))

  pub lookup-overridden :
      (k : String) (o m : List (String × Json F))
      → lookup k (overridden o m) ≡ (last_in k o or_else lookup k m)
  lookup-overridden k [] m = refl
  lookup-overridden k ((j, v) ∷ o) m =
      lookup-overridden k o (insert (option_key j) v m)
      ∙ (ap (λ x. last_in k o or_else x) (lookup-insert-or_else k (option_key j) v m)
          ∙ sym (or_else_assoc (last_in k o) (at k (option_key j) v) (lookup k m)))

  abbrev pub with_filesystem : Platform → List (String × Json F) → List (String × Json F)
  with_filesystem windows m = kept "filesystem" (text (codes "ntfs")) m
  with_filesystem linux m = m
  with_filesystem darwin m = m

  abbrev pub with_volume_dir : Platform → List (String × Json F) → List (String × Json F)
  with_volume_dir windows m =
      kept "volumeDir" (text (codes "C:\\ProgramData\\hpe-storage-mounts\\")) m
  with_volume_dir linux m = m
  with_volume_dir darwin m = m

  pub lookup-with_filesystem :
      (p : Platform) (k : String) (m : List (String × Json F))
      → lookup k (with_filesystem p m) ≡ (lookup k m or_else filesystem_in p k)
  lookup-with_filesystem windows k m = lookup-kept k "filesystem" (text (codes "ntfs")) m
  lookup-with_filesystem linux k m = sym (or_else-none (lookup k m))
  lookup-with_filesystem darwin k m = sym (or_else-none (lookup k m))

  pub lookup-with_volume_dir :
      (p : Platform) (k : String) (m : List (String × Json F))
      → lookup k (with_volume_dir p m) ≡ (lookup k m or_else volume_dir_in p k)
  lookup-with_volume_dir windows k m =
      lookup-kept k "volumeDir" (text (codes "C:\\ProgramData\\hpe-storage-mounts\\")) m
  lookup-with_volume_dir linux k m = sym (or_else-none (lookup k m))
  lookup-with_volume_dir darwin k m = sym (or_else-none (lookup k m))

  written_if_absent-kept :
      (j : String) (v : Json F) (m : List (String × Json F))
      → written_if_absent j v (some m) ≡ (ok tt, some (kept j v m))
  written_if_absent-kept j v m = elim (Bool-cases (has (lookup j m))) [
    | inl p ↦ rw p refl
    | inr p ↦ rw p refl
  ]

  pub set_default_filesystem-with :
      (p : Platform) (m : List (String × Json F))
      → set_default_filesystem p (some m) ≡ (ok tt, some (with_filesystem p m))
  set_default_filesystem-with windows m =
      written_if_absent-kept "filesystem" (text (codes "ntfs")) m
  set_default_filesystem-with linux m = refl
  set_default_filesystem-with darwin m = refl

  pub set_default_volume_dir-with :
      (p : Platform) (m : List (String × Json F))
      → set_default_volume_dir p (some m) ≡ (ok tt, some (with_volume_dir p m))
  set_default_volume_dir-with windows m =
      written_if_absent-kept "volumeDir" (text (codes "C:\\ProgramData\\hpe-storage-mounts\\")) m
  set_default_volume_dir-with linux m = refl
  set_default_volume_dir-with darwin m = refl

  populate_one-kept :
      (s : Section) (j : String) (v : Json F) (m : List (String × Json F))
      → is_overrides s ≡ false
      → populate_one s j v (some m) ≡ (ok tt, some (kept j v m))
  populate_one-kept s j v m h = elim (Bool-cases (has (lookup j m))) [
    | inl p ↦ rw (p, h) refl
    | inr p ↦ rw p refl
  ]

  populate_one-insert :
      (j : String) (v : Json F) (m : List (String × Json F))
      → populate_one overrides j v (some m) ≡ (ok tt, some (insert j v m))
  populate_one-insert j v m = elim (Bool-cases (has (lookup j m))) [
    | inl p ↦ rw p refl
    | inr p ↦ rw p refl
  ]

  pub populate_all-filled :
      (s : Section) (o m : List (String × Json F))
      → is_overrides s ≡ false
      → populate_all s o (some m) ≡ (ok tt, some (filled o m))
  unfolding populate_all
  populate_all-filled s [] m h = refl
  populate_all-filled s ((j, v) ∷ o) m h =
      ap (λ r. then_run r (λ x. populate_all s o)) (populate_one-kept s (option_key j) v m h)
      ∙ populate_all-filled s o (kept (option_key j) v m) h

  pub populate_all-overridden :
      (o m : List (String × Json F))
      → populate_all overrides o (some m) ≡ (ok tt, some (overridden o m))
  unfolding populate_all
  populate_all-overridden [] m = refl
  populate_all-overridden ((j, v) ∷ o) m =
      ap (λ r. then_run r (λ x. populate_all overrides o)) (populate_one-insert (option_key j) v m)
      ∙ populate_all-overridden o (insert (option_key j) v m)
