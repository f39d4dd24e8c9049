-- ===== src/Dockervol/Options.antt =====
-- docker/dockervol/dockervol.go: the options that Create and Update send.
use common_host_libs.Prelude.{
  ℕ, ◌≡◌, refl, ap, Bool, true, List, [], ◌∷◌, ◌++◌, Option, if◌then◌else◌,
}
use common_host_libs.Prelude.Text.{Text, is_nil}
use common_host_libs.Dockervol.{
  Payload, Response, is_dropped, kept_options, create_or_update, sent, err, name_required,
}

kept_options_dropped {ℓ} :
    {A : Type ℓ} (strip : Bool) (xs ys : List (Text × A)) (key : Text) (value : A)
    → is_dropped strip key ≡ true
    → kept_options strip (xs ++ ((key, value) ∷ ys)) ≡ kept_options strip (xs ++ ys)
kept_options_dropped strip [] ys key value h = rw h refl
kept_options_dropped strip ((k, v) ∷ xs) ys key value h =
    ap (λ l. if is_dropped strip k then l else (k, v) ∷ l)
      (kept_options_dropped strip xs ys key value h)

-- An option with the key name, and one whose key begins with kubernetes.io if such are stripped, has no
-- effect on what Create and Update do and return.
pub create_or_update_dropped :
    {A W : Type 0} (call : Text → Text → Payload A → W → (Response × Option Text) × W)
    (errorf : Text → Text) (sleep : ℕ → W → W) (strip : Bool) (name : Text)
    (xs ys : List (Text × A)) (key : Text) (value : A) (is_update : Bool) (w : W)
    → is_dropped strip key ≡ true
    → create_or_update call errorf sleep strip name (xs ++ ((key, value) ∷ ys)) is_update w
      ≡ create_or_update call errorf sleep strip name (xs ++ ys) is_update w
unfolding create_or_update
create_or_update_dropped call errorf sleep strip name xs ys key value is_update w h =
    ap
      (λ options.
        if is_nil name
        then (err name_required, w)
        else sent call errorf sleep name is_update w options)
      (kept_options_dropped strip xs ys key value h)
