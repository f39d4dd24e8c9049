-- ===== src/Mounts/Pruning.antt =====
-- linux/mount.go, updateDbConfiguration: a directory that is once excluded stays so.
use common_host_libs.Prelude.{
  ◌≡◌, refl, ap, Bool-cases, Option-cases, inl, inr, if◌then◌else◌, true, false, List, [], ◌∷◌,
  ◌++◌, none, some, arith,
}
use common_host_libs.Prelude.Text.{
  Text, text_eq_iff, fields, joined, split_words, is_space, is_nil, to_lower, trim_func_none,
  NoneHold,
}
use common_host_libs.Mounts.{
  before_last_quote, prune_paths, prune_line, includes, update_db_configuration,
}

before_last_quote-append : (s : Text) → before_last_quote (s ++ (b'"' ∷ [])) ≡ some s
before_last_quote-append [] = refl
before_last_quote-append (c ∷ s) = rw (before_last_quote-append s) refl

prune_paths-prune_line : (paths : List Text) → prune_paths (prune_line paths) ≡ some (joined paths)
unfolding prune_paths
prune_paths-prune_line paths = before_last_quote-append (joined paths)

includes_self : (m : Text) (ws : List Text) → NoneHold is_space m → includes m (m ∷ ws) ≡ true
includes_self m ws h =
    rw (trim_func_none is_space m h, (text_eq_iff (to_lower m) (to_lower m)).1 refl) refl

split_words_word : (m : Text) → NoneHold is_space m → split_words m ≡ (m, [])
split_words_word [] h = refl
split_words_word (c ∷ m) h = rw (split_words_word m h.1, h.0) refl

append-append : (s t u : Text) → s ++ (t ++ u) ≡ (s ++ t) ++ u
append-append [] t u = refl
append-append (c ∷ s) t u = ap (λ v. c ∷ v) (append-append s t u)

joined-append :
    (p : Text) (ps : List Text) (m : Text)
    → joined ((p ∷ ps) ++ (m ∷ [])) ≡ joined (p ∷ ps) ++ (b' ' ∷ m)
joined-append p [] m = refl
joined-append p (q ∷ ps) m =
    rw (joined-append q ps m) (append-append p (b' ' ∷ joined (q ∷ ps)) (b' ' ∷ m))

module _ (m : Text) (h : NoneHold is_space m) (k : is_nil m ≡ false) where
  fields_word : fields m ≡ m ∷ []
  fields_word = rw (split_words_word m h, k) refl

  includes_behind :
      (w : Text) (ws : List Text)
      → includes m ws ≡ true
      → includes m (if is_nil w then ws else w ∷ ws) ≡ true
  includes_behind w ws i = ground (arith, i)

  includes-split_words : (s : Text) → includes m (split_words (s ++ (b' ' ∷ m))).1 ≡ true
  includes-split_words [] = rw fields_word (includes_self m [] h)
  includes-split_words (c ∷ s) = elim (Bool-cases (is_space c)) [
    | inl p ↦ rw p (
        includes_behind (split_words (s ++ (b' ' ∷ m))).0 (split_words (s ++ (b' ' ∷ m))).1
          (includes-split_words s))
    | inr p ↦ rw p (includes-split_words s)
  ]

  includes-fields : (s : Text) → includes m (fields (s ++ (b' ' ∷ m))) ≡ true
  includes-fields s =
      includes_behind (split_words (s ++ (b' ' ∷ m))).0 (split_words (s ++ (b' ' ∷ m))).1
        (includes-split_words s)

  -- The directory that is added to the paths is read back among them.
  includes-joined : (ps : List Text) → includes m (fields (joined (ps ++ (m ∷ [])))) ≡ true
  includes-joined [] = rw fields_word (includes_self m [] h)
  includes-joined (p ∷ ps) = rw (joined-append p ps m) (includes-fields (joined (p ∷ ps)))

  update-nil : update_db_configuration [] m ≡ ([], false)
  unfolding update_db_configuration
  update-nil = refl

  update-other :
      (line : Text) (lines : List Text)
      → prune_paths line ≡ none
      → update_db_configuration (line ∷ lines) m
        ≡ (line ∷ (update_db_configuration lines m).0, (update_db_configuration lines m).1)
  unfolding update_db_configuration prune_paths
  update-other line lines p = rw p refl

  update-included :
      (line : Text) (lines : List Text) (val : Text)
      → prune_paths line ≡ some val
      → includes m (fields val) ≡ true
      → update_db_configuration (line ∷ lines) m ≡ (line ∷ lines, false)
  unfolding update_db_configuration prune_paths
  update-included line lines val p i = rw (p, i) refl

  update-added :
      (line : Text) (lines : List Text) (val : Text)
      → prune_paths line ≡ some val
      → includes m (fields val) ≡ false
      → update_db_configuration (line ∷ lines) m
        ≡ (prune_line (fields val ++ (m ∷ [])) ∷ lines, true)
  unfolding update_db_configuration prune_paths
  update-added line lines val p i = rw (p, i) refl

  -- updateDbConfiguration is idempotent: for a mount directory that is not empty and holds no white
  -- space, the lines that it returns are left as they are, and unchanged, by another call.
  pub update_db_configuration_idempotent :
      (lines : List Text)
      → update_db_configuration (update_db_configuration lines m).0 m
        ≡ ((update_db_configuration lines m).0, false)
  update_db_configuration_idempotent [] = rw update-nil update-nil
  update_db_configuration_idempotent (line ∷ lines) = elim (Option-cases (prune_paths line)) [
    | inl p ↦
        rw
          (
            update-other line lines p,
            update-other line (update_db_configuration lines m).0 p,
            update_db_configuration_idempotent lines,
          )
          refl
    | inr (val, p) ↦ elim (Bool-cases (includes m (fields val))) [
      | inl i ↦ rw (update-included line lines val p i) (update-included line lines val p i)
      | inr i ↦ rw (update-added line lines val p i) (
          update-included (prune_line (fields val ++ (m ∷ []))) lines
            (joined (fields val ++ (m ∷ []))) (prune_paths-prune_line (fields val ++ (m ∷ [])))
            (includes-joined (fields val)))
    ]
  ]
