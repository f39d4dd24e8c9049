-- ===== src/Prelude/Ensures.antt =====
-- What holds of the value and the state whenever a call succeeds.
use mathlib.Core.Path.{◌≡◌, refl, subst}
use mathlib.Core.Logic.{◌≢◌, inl}
use native.Mathlib.Omega.{arith}
use common_host_libs.Prelude.Text.{Text}
use common_host_libs.Prelude.Effects.{
  Outcome, ok, failed, panics, M, then_run, ◌>>=◌, attempt, attempted, wrap, wrapped,
}

abbrev pub Holds : {W A : Type 0} → (A → W → Type 0) → Outcome A × W → Type 0
Holds Q (ok a, w) = Q a w
Holds Q (failed m, w) = Unit {0}
Holds Q (panics, w) = Unit {0}

abbrev pub Ensures : {W A : Type 0} → M W A → (A → W → Type 0) → Type 0
Ensures {W} m Q = (w : W) → Holds Q (m w)

module _ {W A : Type 0} where
  -- A call followed by another, which may use how the first one went.
  pub Ensures-seen :
      {B : Type 0} (m : M W A) (f : A → M W B) (Q : B → W → Type 0)
      → ((w : W) (a : A) (w' : W) → m w ≡ (ok a, w') → Holds Q (f a w'))
      → Ensures (m >>= f) Q
  Ensures-seen {B} m f Q h w = from (m w) refl
    where
      from : (r : Outcome A × W) → m w ≡ r → Holds Q (then_run r f)
      from (ok a, w') e = h w a w' e
      from (failed t, w') e = tt
      from (panics, w') e = tt

  pub Ensures-bind :
      {B : Type 0} (m : M W A) (f : A → M W B) (Q : B → W → Type 0)
      → ((a : A) → Ensures (f a) Q)
      → Ensures (m >>= f) Q
  Ensures-bind {B} m f Q h = Ensures-seen m f Q (λ w a w' e. h a w')

  pub Ensures-then :
      {B : Type 0} (m : M W A) (f : A → M W B) (P : A → W → Type 0) (Q : B → W → Type 0)
      → Ensures m P
      → ((a : A) (w : W) → P a w → Holds Q (f a w))
      → Ensures (m >>= f) Q
  Ensures-then {B} m f P Q p h =
      Ensures-seen m f Q (λ w a w' e. h a w' (subst (λ r. Holds P r) e (p w)))

  pub Ensures-wrap :
      (t : Text → Text) (m : M W A) (Q : A → W → Type 0) → Ensures m Q → Ensures (wrap t m) Q
  Ensures-wrap t m Q h w = from (m w) (h w)
    where
      from : (r : Outcome A × W) → Holds Q r → Holds Q (wrapped r t)
      from (ok a, w') q = q
      from (failed e, w') q = tt
      from (panics, w') q = tt

  pub Ensures-runs :
      (m : M W A) (Q : A → W → Type 0)
      → ((w : W) (a : A) (w' : W) → m w ≡ (ok a, w') → Q a w')
      → Ensures m Q
  Ensures-runs m Q h w = from (m w) refl
    where
      from : (r : Outcome A × W) → m w ≡ r → Holds Q r
      from (ok a, w') e = h w a w' e
      from (failed t, w') e = tt
      from (panics, w') e = tt

  -- The same of a run that is given.
  pub Ensures-run :
      (m : M W A) (Q : A → W → Type 0)
      → Ensures m Q
      → (w : W) (a : A) (w' : W) → m w ≡ (ok a, w')
      → Q a w'
  Ensures-run m Q h w a w' e = subst (λ r. Holds Q r) e (h w)

  pub attempt-ok :
      (m : M W A) (w : W) (a : A) (w' : W) → attempt m w ≡ (ok (inl a), w') → m w ≡ (ok a, w')
  attempt-ok m w a w' = from (m w)
    where
      from : (r : Outcome A × W) → attempted r ≡ (ok (inl a), w') → r ≡ (ok a, w')
      from (ok b, u) e = ground (arith, e)
      from (failed t, u) e = ground (arith, e)
      from (panics, u) e = ground (arith, e)

  -- A call that never succeeds hides what follows it.
  pub bind-never :
      {B : Type 0} (m : M W A) (f g : A → M W B) (w : W)
      → ((a : A) (w' : W) → m w ≢ (ok a, w'))
      → (m >>= f) w ≡ (m >>= g) w
  bind-never {B} m f g w h = from (m w) refl
    where
      from : (r : Outcome A × W) → m w ≡ r → then_run r f ≡ then_run r g
      from (ok a, w') e = absurd (h a w' e)
      from (failed t, w') e = refl
      from (panics, w') e = refl

  -- If what follows gives the same in each state that the call leads to, so does the whole.
  pub bind-same :
      {B : Type 0} (m : M W A) (f g : A → M W B) (w : W)
      → ((a : A) (w' : W) → f a w' ≡ g a w')
      → (m >>= f) w ≡ (m >>= g) w
  bind-same {B} m f g w h = from (m w)
    where
      from : (r : Outcome A × W) → then_run r f ≡ then_run r g
      from (ok a, w') = h a w'
      from (failed t, w') = refl
      from (panics, w') = refl

  pub bind-bind :
      {B C : Type 0} (m : M W A) (f : A → M W B) (g : B → M W C) (w : W)
      → ((m >>= f) >>= g) w ≡ (m >>= (λ a. f a >>= g)) w
  bind-bind {B} {C} m f g w = from (m w)
    where
      from : (r : Outcome A × W) → then_run (then_run r f) g ≡ then_run r (λ a. f a >>= g)
      from (ok a, u) = refl
      from (failed t, u) = refl
      from (panics, u) = refl
