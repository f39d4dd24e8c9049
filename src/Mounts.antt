-- ===== src/Mounts.antt =====
-- linux/mount.go: PRUNEPATHS in updatedb.conf, and the comparison of file system options.
-- A line holds no newline, and strings.EqualFold is modelled on ASCII letters. `get_user_id` and
-- `get_group_id` are the look-ups of os/user: the number, or the error's text.
pub mod Pruning
mod Tests
use common_host_libs.Prelude.{
  ℕ, Bool, true, false, ◌&&◌, ◌||◌, List, [], ◌∷◌, ◌++◌, Option, none, some, ◌⊎◌, inl, inr, ◌==◌,
  if◌then◌else◌,
}
use common_host_libs.Prelude.Text.{
  Text, codes, text_eq, fields, joined, strip_prefix, drop_while, is_re_space, to_lower, trim_space,
}
use common_host_libs.Prelude.Decimal.{atoi, split}

-- What stands in front of the last quote.
abbrev pub before_last_quote : Text → Option Text
before_last_quote [] = none
before_last_quote (c ∷ s) = elim (before_last_quote s) [
  | some t ↦ some (c ∷ t)
  | none ↦ if c == b'"' then some [] else none
]

abbrev pub quoted : Text → Option Text
quoted [] = none
quoted (c ∷ s) = if c == b'"' then before_last_quote s else none

abbrev pub assigned : Text → Option Text
assigned [] = none
assigned (c ∷ s) = if c == b'=' then quoted (drop_while is_re_space s) else none

-- The group "paths" of prunePathsPattern, `none` where the line does not match.
unfoldable pub prune_paths : Text → Option Text
prune_paths line = elim (strip_prefix (codes "PRUNEPATHS") line) [
  | none ↦ none
  | some s ↦ assigned (drop_while is_re_space s)
]

-- The loop over the paths: is the directory one of them?
abbrev pub includes : Text → List Text → Bool
includes mount_dir [] = false
includes mount_dir (path ∷ paths) =
    text_eq (to_lower (trim_space path)) (to_lower mount_dir) || includes mount_dir paths

abbrev pub prune_line : List Text → Text
prune_line paths = codes "PRUNEPATHS=\"" ++ (joined paths ++ (b'"' ∷ []))

-- The updated lines, and whether one of them is changed.
unfoldable pub update_db_configuration : List Text → Text → List Text × Bool
update_db_configuration [] mount_dir = ([], false)
update_db_configuration (line ∷ lines) mount_dir =
    let (updated, is_changed) = update_db_configuration lines mount_dir in
    elim (prune_paths line) [
      | none ↦ (line ∷ updated, is_changed)
      | some val ↦
          (if includes mount_dir (fields val)
            then (line ∷ lines, false)
            else (prune_line (fields val ++ (mount_dir ∷ [])) ∷ lines, true))
    ]

-- ExcludeMountDirFromUpdateDb. The file is `none` where it does not exist; `read` gives its lines, none
-- where it cannot be read, and `write` the error's text if it fails.
unfoldable pub exclude_mount_dir_from_update_db {ℓ} :
    {W : Type ℓ}
    → (exists : W → Bool) → (read : W → List Text) → (write : List Text → W → Option Text × W)
    → Text
    → W
    → Option Text × W
exclude_mount_dir_from_update_db exists read write mount_dir w =
    if exists w
    then (let (lines, is_changed) = update_db_configuration (read w) mount_dir in
        if is_changed then write lines w else (none, w))
    else (none, w)

-- The fields of model.FilesystemOpts.
pub record FilesystemOpts : Type 0 where
  pub fs_type : Text
  pub mode : Text
  pub owner : Text

pub data Mismatch : Type 0 where
  nil_input : Mismatch
  type_mismatch mode_mismatch owner_mismatch : (got expected : Text) → Mismatch
  owner_error : (existing wanted : Text) → Text → Mismatch

-- An index out of range panics.
pub data Checked {ℓ} (E : Type ℓ) : Type ℓ where
  answer : Bool → Checked E
  failed : E → Checked E
  panics : Checked E

-- A text that is a number is kept, any other is looked up.
abbrev pub id_of : (Text → Text ⊎ Text) → Text → Text ⊎ Text
id_of get_id s = elim (atoi s) [ some n ↦ inl s | none ↦ get_id s ]

-- The comparison with the fields of existingFsOwner.
abbrev pub same_ids : Text → Text → List Text → Checked Text
same_ids user group (u ∷ g ∷ rest) = answer (text_eq user u && text_eq group g)
same_ids user group _ = panics

module _ (get_user_id get_group_id : Text → Text ⊎ Text) where
  abbrev pub is_ids_match : List Text → Text → Checked Text
  is_ids_match (user ∷ group ∷ rest) existing_fs_owner = elim (id_of get_user_id user) [
    | inr m ↦ failed m
    | inl u ↦ (elim (id_of get_group_id group) [
      | inr m ↦ failed m
      | inl g ↦ same_ids u g (split b':' existing_fs_owner)
    ])
  ]
  is_ids_match _ existing_fs_owner = panics

  unfoldable pub is_fs_owner_match : Text → Text → Checked Text
  is_fs_owner_match fs_owner existing_fs_owner =
      is_ids_match (split b':' fs_owner) existing_fs_owner

  -- The branch of AreFsOptionsCompatible for owners that differ.
  abbrev pub owners_checked : Text → Text → Checked Mismatch
  owners_checked owner existing = elim (is_fs_owner_match owner existing) [
    | answer b ↦ if b then answer true else failed (owner_mismatch existing owner)
    | failed m ↦ failed (owner_error existing owner m)
    | panics ↦ panics
  ]

  unfoldable pub are_fs_options_compatible :
      Option FilesystemOpts → Option FilesystemOpts → Checked Mismatch
  are_fs_options_compatible (some o) (some e) =
      if text_eq o.fs_type e.fs_type
      then (if text_eq o.mode e.mode
          then (if text_eq o.owner e.owner then answer true else owners_checked o.owner e.owner)
          else failed (mode_mismatch e.mode o.mode))
      else failed (type_mismatch e.fs_type o.fs_type)
  are_fs_options_compatible _ _ = failed nil_input
