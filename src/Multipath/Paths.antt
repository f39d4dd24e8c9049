-- ===== src/Multipath/Paths.antt =====
-- linux/multipath.go: the paths that multipathGetPathsOfDevice reads from the lines of multipathd.
use common_host_libs.Prelude.{
  ◌≡◌, refl, Bool, true, false, not, ◌&&◌, ◌||◌, List, [], ◌∷◌, ◌++◌, none, some, is_some,
  get_elem?, length, ltb, ◌==◌, if◌then◌else◌, arith, Option-cases, inl, inr,
}
use common_host_libs.Prelude.Text.{Text, text_eq, contains, fields}
use common_host_libs.Multipath.{
  PathInfo, active, ready, path_of, wanted, paths_of_line, paths_of_lines,
}

abbrev pub is_active : PathInfo → Bool
is_active p = text_eq p.dm_state active && text_eq p.chk_state ready

abbrev pub keep_active : List PathInfo → List PathInfo
keep_active [] = []
keep_active (p ∷ ps) = if is_active p then p ∷ keep_active ps else keep_active ps

keep_active-append :
    (ps qs : List PathInfo) → keep_active (ps ++ qs) ≡ keep_active ps ++ keep_active qs
keep_active-append [] qs = refl
keep_active-append (p ∷ ps) qs = ground (arith, keep_active-append ps qs)

wanted-path_of :
    (entry : List Text) (p : PathInfo)
    → path_of entry ≡ some p
    → wanted true entry ≡ some (is_active p)
wanted-path_of (a ∷ b ∷ c ∷ d ∷ e ∷ f ∷ rest) p h = ground (arith, h)
wanted-path_of _ p h = ground (arith, h)

paths_of_line_active :
    (serial line : Text) (ps : List PathInfo)
    → paths_of_line serial false line ≡ some ps
    → paths_of_line serial true line ≡ some (keep_active ps)
unfolding paths_of_line
paths_of_line_active serial line ps h = elim (Option-cases (path_of (fields line))) [
  | inl e ↦ ground (arith, e, h)
  | inr (p, e) ↦ ground (arith, e, h, wanted-path_of (fields line) p e)
]

-- Whenever the paths of a device can be read from the lines, so can its active paths, and they are
-- exactly those of its paths whose dm_st is active and whose chk_st is ready, in order.
pub paths_of_lines_active :
    (serial : Text) (found : List Text) (ps : List PathInfo)
    → paths_of_lines serial false found ≡ some ps
    → paths_of_lines serial true found ≡ some (keep_active ps)
unfolding paths_of_lines
paths_of_lines_active serial [] ps h = ground (arith, h)
paths_of_lines_active serial (line ∷ rest) ps h =
    elim (Option-cases (paths_of_line serial false line)) [
      | inl e ↦ ground (arith, e, h)
      | inr (qs, e) ↦ elim (Option-cases (paths_of_lines serial false rest)) [
        | inl f ↦ ground (arith, e, f, h)
        | inr (rs, f) ↦ ground (
          arith,
          e,
          f,
          h,
          paths_of_line_active serial line qs e,
          paths_of_lines_active serial rest rs f,
          keep_active-append qs rs,
        )
      ]
    ]

-- A line of fewer than six fields, and one of five fields that says that its path is active.
abbrev pub is_short : List Text → Bool
is_short entry = ltb (length entry) 6

abbrev pub is_active_five : List Text → Bool
is_active_five entry =
    length entry == 5
    && elim (get_elem? entry 2) [ none ↦ false | some dm_state ↦ text_eq dm_state active ]

abbrev pub any_matching : (List Text → Bool) → Text → List Text → Bool
any_matching bad serial [] = false
any_matching bad serial (line ∷ rest) =
    (contains line serial && bad (fields line)) || any_matching bad serial rest

is_some-path_of : (entry : List Text) → is_some (path_of entry) ≡ not (is_short entry)
is_some-path_of [] = refl
is_some-path_of (a ∷ []) = refl
is_some-path_of (a ∷ b ∷ []) = refl
is_some-path_of (a ∷ b ∷ c ∷ []) = refl
is_some-path_of (a ∷ b ∷ c ∷ d ∷ []) = refl
is_some-path_of (a ∷ b ∷ c ∷ d ∷ e ∷ []) = refl
is_some-path_of (a ∷ b ∷ c ∷ d ∷ e ∷ f ∷ rest) = ground arith

some_line :
    (serial line : Text)
    → is_some (paths_of_line serial false line)
      ≡ not (contains line serial && is_short (fields line))
unfolding paths_of_line
some_line serial line = elim (Option-cases (path_of (fields line))) [
  | inl e ↦ ground (arith, e, is_some-path_of (fields line))
  | inr (p, e) ↦ ground (arith, e, is_some-path_of (fields line))
]

-- Reading all paths of a device panics exactly when a line with its serial number has fewer than six
-- fields.
pub is_some-paths_of_lines :
    (serial : Text) (found : List Text)
    → is_some (paths_of_lines serial false found) ≡ not (any_matching is_short serial found)
unfolding paths_of_lines
is_some-paths_of_lines serial [] = refl
is_some-paths_of_lines serial (line ∷ rest) =
    elim (Option-cases (paths_of_line serial false line)) [
      | inl e ↦ ground (arith, e, some_line serial line)
      | inr (qs, e) ↦ elim (Option-cases (paths_of_lines serial false rest)) [
        | inl f ↦ ground (arith, e, f, some_line serial line, is_some-paths_of_lines serial rest)
        | inr (rs, f) ↦
            ground (arith, e, f, some_line serial line, is_some-paths_of_lines serial rest)
      ]
    ]

abbrev entry_active : List Text → Bool
entry_active entry = elim (wanted true entry) [
  | none ↦ false
  | some false ↦ true
  | some true ↦ is_some (path_of entry)
]

entry_active-is_active_five : (entry : List Text) → entry_active entry ≡ not (is_active_five entry)
entry_active-is_active_five [] = refl
entry_active-is_active_five (a ∷ []) = refl
entry_active-is_active_five (a ∷ b ∷ []) = refl
entry_active-is_active_five (a ∷ b ∷ c ∷ []) = refl
entry_active-is_active_five (a ∷ b ∷ c ∷ d ∷ []) = refl
entry_active-is_active_five (a ∷ b ∷ c ∷ d ∷ e ∷ []) = ground arith
entry_active-is_active_five (a ∷ b ∷ c ∷ d ∷ e ∷ f ∷ rest) = ground arith

some_active_line :
    (serial line : Text)
    → is_some (paths_of_line serial true line)
      ≡ not (contains line serial && is_active_five (fields line))
unfolding paths_of_line
some_active_line serial line = elim (Option-cases (path_of (fields line))) [
  | inl e ↦ ground (arith, e, entry_active-is_active_five (fields line))
  | inr (p, e) ↦ ground (arith, e, entry_active-is_active_five (fields line))
]

-- Reading the active paths of a device panics exactly when a line with its serial number has five
-- fields and the third of them is active.
pub is_some-paths_of_lines_active :
    (serial : Text) (found : List Text)
    → is_some (paths_of_lines serial true found) ≡ not (any_matching is_active_five serial found)
unfolding paths_of_lines
is_some-paths_of_lines_active serial [] = refl
is_some-paths_of_lines_active serial (line ∷ rest) =
    elim (Option-cases (paths_of_line serial true line)) [
      | inl e ↦ ground (arith, e, some_active_line serial line)
      | inr (qs, e) ↦ elim (Option-cases (paths_of_lines serial true rest)) [
        | inl f ↦
            ground
              (arith, e, f, some_active_line serial line, is_some-paths_of_lines_active serial rest)
        | inr (rs, f) ↦
            ground
              (arith, e, f, some_active_line serial line, is_some-paths_of_lines_active serial rest)
      ]
    ]
