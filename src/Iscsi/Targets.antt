-- ===== src/Iscsi/Targets.antt =====
-- linux/iscsi.go: lists of targets, and the targets that the host is logged in to.
use common_host_libs.Prelude.{
  Bool, true, false, ◌&&◌, ◌||◌, List, [], ◌∷◌, ◌++◌, inl, inr, ◌==◌, if◌then◌else◌,
}
use common_host_libs.Prelude.Text.{Text, codes, text_eq, contains}
use common_host_libs.Prelude.Effects.{M, ◌>>=◌, pure, fail, call}
use common_host_libs.Iscsi.{Host, IscsiTarget, DirError, not_exist, other, exists_of}

abbrev pub is_in : Text → List Text → Bool
is_in s [] = false
is_in s (t ∷ ts) = text_eq t s || is_in s ts

-- The loop of removeDuplicates, with the keys of the map.
abbrev pub unique_from : List Text → List Text → List Text
unique_from encountered [] = []
unique_from encountered (t ∷ ts) =
    if is_in t encountered then unique_from encountered ts else t ∷ unique_from (t ∷ encountered) ts

unfoldable pub remove_duplicates : List Text → List Text
remove_duplicates targets = unique_from [] targets

-- The key by which removeDuplicateTargets tells targets apart.
abbrev pub target_key : IscsiTarget → Text
target_key t = t.name ++ (t.address ++ t.port)

abbrev pub unique_targets_from : List Text → List IscsiTarget → List IscsiTarget
unique_targets_from encountered [] = []
unique_targets_from encountered (t ∷ ts) =
    if is_in (target_key t) encountered
    then unique_targets_from encountered ts
    else t ∷ unique_targets_from (target_key t ∷ encountered) ts

unfoldable pub remove_duplicate_targets : List IscsiTarget → List IscsiTarget
remove_duplicate_targets targets = unique_targets_from [] targets

abbrev pub contains_any : Text → List Text → Bool
contains_any s [] = false
contains_any s (p ∷ ps) = contains s p || contains_any s ps

unfoldable pub is_supported_target : Text → Bool
is_supported_target name = contains_any name (
    codes "com.nimblestorage"
    ∷ codes "com.3pardata"
    ∷ codes "org.truenas.ctl"
    ∷ codes "org.freenas.ctl"
    ∷ codes "com.hpe"
    ∷ [])

-- strings.TrimSuffix of a newline
abbrev pub without_newline : Text → Text
without_newline [] = []
without_newline (c ∷ []) = if c == 10 then [] else c ∷ []
without_newline (c ∷ d ∷ s) = c ∷ without_newline (d ∷ s)

module _ {W : Type 0} (host : Host W) where
  abbrev pub session_path : Text → Text
  session_path session = codes "/sys/class/iscsi_session/" ++ (session ++ codes "/targetname")

  abbrev pub supported_or_none : Text → List Text
  supported_or_none name = if is_supported_target name then name ∷ [] else []

  -- The target of a session, none where it cannot be read or is not supported.
  abbrev pub target_of : Text → W → List Text
  target_of session w =
      if exists_of (host.file_exists (session_path session) w)
      then elim (host.read_file (session_path session) w) [
        | inl s ↦ supported_or_none (without_newline s)
        | inr m ↦ []
      ]
      else []

  abbrev pub targets_of : List Text → W → List Text
  targets_of [] w = []
  targets_of (s ∷ ss) w = target_of s w ++ targets_of ss w

  abbrev pub dir_text : DirError → Text
  dir_text (not_exist m) = m
  dir_text (other m) = m

  unfoldable pub get_logged_in_iscsi_targets : M W (List Text)
  get_logged_in_iscsi_targets w =
      if exists_of (host.file_exists (codes "/sys/class/iscsi_session") w)
      then elim (host.read_dir (codes "/sys/class/iscsi_session") w) [
        | inl sessions ↦ pure (remove_duplicates (targets_of sessions w)) w
        | inr e ↦ fail (codes "unable to fetch iscsi session entries, err " ++ dir_text e) w
      ]
      else pure [] w

  abbrev pub all_in : List Text → List Text → Bool
  all_in [] logged_in = true
  all_in (t ∷ ts) logged_in = is_in t logged_in && all_in ts logged_in

  unfoldable pub are_targets_logged_in : List Text → M W Bool
  are_targets_logged_in required = do
    logged_in ← get_logged_in_iscsi_targets
    pure (all_in required logged_in)

  -- GetIscsiNodesFromIsciadm, which does not read the error of its command.
  unfoldable pub get_iscsi_nodes_from_iscsiadm : M W (List IscsiTarget)
  get_iscsi_nodes_from_iscsiadm = do
    r ← call (host.exec (codes "iscsiadm") (codes "-m" ∷ codes "node" ∷ []))
    pure (remove_duplicate_targets (host.nodes_in r.0))
