-- ===== src/Prelude/Effects.antt =====
-- Calls on the state W of a host that return a value, fail with an error's text, or panic.
use mathlib.Core.Logic.{◌⊎◌, inl, inr}
use common_host_libs.Prelude.Text.{Text}

pub data Outcome {ℓ} (A : Type ℓ) : Type ℓ where
  ok : A → Outcome A
  failed : Text → Outcome A
  panics : Outcome A

abbrev pub M : Type 0 → Type 0 → Type 0
M W A = W → Outcome A × W

abbrev pub then_run : {W A B : Type 0} → Outcome A × W → (A → M W B) → Outcome B × W
then_run (ok a, w) f = f a w
then_run (failed m, w) f = (failed m, w)
then_run (panics, w) f = (panics, w)

infixl 5 ◌>>=◌
abbrev pub ◌>>=◌ : {W A B : Type 0} → M W A → (A → M W B) → M W B
◌>>=◌ m f w = then_run (m w) f

abbrev pub pure : {W A : Type 0} → A → M W A
pure a w = (ok a, w)

abbrev pub fail : {W A : Type 0} → Text → M W A
fail m w = (failed m, w)

abbrev pub panic : {W A : Type 0} → M W A
panic w = (panics, w)

-- A call that neither fails nor panics.
abbrev pub call : {W A : Type 0} → (W → A × W) → M W A
call f w = let (a, w') = f w in (ok a, w')

-- A look at the state.
abbrev pub look : {W A : Type 0} → (W → A) → M W A
look f w = (ok (f w), w)

abbrev pub change : {W : Type 0} → (W → W) → M W (Unit {0})
change f w = (ok tt, f w)

abbrev pub attempted : {W A : Type 0} → Outcome A × W → Outcome (A ⊎ Text) × W
attempted (ok a, w) = (ok (inl a), w)
attempted (failed m, w) = (ok (inr m), w)
attempted (panics, w) = (panics, w)

-- The error of a call as a value.
abbrev pub attempt : {W A : Type 0} → M W A → M W (A ⊎ Text)
attempt m w = attempted (m w)

-- The text behind which an error is put.
abbrev pub wrapped : {W A : Type 0} → Outcome A × W → (Text → Text) → Outcome A × W
wrapped (failed m, w) f = (failed (f m), w)
wrapped r f = r

abbrev pub wrap : {W A : Type 0} → (Text → Text) → M W A → M W A
wrap f m w = wrapped (m w) f
