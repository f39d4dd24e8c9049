-- ===== src/Prelude/NoPanic.antt =====
-- Calls that do not panic, and calls whose errors are dropped.
use common_host_libs.Prelude.Text.{Text}
use mathlib.Core.Path.{◌≡◌, refl}
use mathlib.Core.Logic.{◌≢◌}
use native.Mathlib.Omega.{arith}
use common_host_libs.Prelude.Effects.{
  Outcome, ok, failed, panics, M, then_run, ◌>>=◌, pure, fail, call, attempt, attempted, wrapped,
}

abbrev pub NoPanic : {W A : Type 0} → M W A → Type 0
NoPanic {W} m = (w : W) → (m w).0 ≢ panics

module _ {W A : Type 0} where
  pub then_run-NoPanic :
      {B : Type 0} (r : Outcome A × W) (f : A → M W B)
      → r.0 ≢ panics
      → ((a : A) → NoPanic (f a))
      → (then_run r f).0 ≢ panics
  then_run-NoPanic (ok a, w) f p h = h a w
  then_run-NoPanic (failed m, w) f p h = λ e. ground (arith, e)
  then_run-NoPanic (panics, w) f p h = absurd (p refl)

  pub bind-NoPanic :
      {B : Type 0} (m : M W A) (f : A → M W B)
      → NoPanic m
      → ((a : A) → NoPanic (f a))
      → NoPanic (m >>= f)
  bind-NoPanic m f p h w = then_run-NoPanic (m w) f (p w) h

  pub attempted-NoPanic : (r : Outcome A × W) → r.0 ≢ panics → (attempted r).0 ≢ panics
  attempted-NoPanic (ok a, w) p = λ e. ground (arith, e)
  attempted-NoPanic (failed m, w) p = λ e. ground (arith, e)
  attempted-NoPanic (panics, w) p = absurd (p refl)

  pub attempt-NoPanic : (m : M W A) → NoPanic m → NoPanic (attempt m)
  attempt-NoPanic m p w = attempted-NoPanic (m w) (p w)

  pub pure-NoPanic : (a : A) → NoPanic (pure {W = W} a)
  pure-NoPanic a w e = ground (arith, e)

  pub fail-NoPanic : (m : Text) → NoPanic (fail {W = W} {A = A} m)
  fail-NoPanic m w e = ground (arith, e)

  pub call-NoPanic : (f : W → A × W) → NoPanic (call f)
  call-NoPanic f w e = ground (arith, e)

  pub called-NoPanic :
      {B : Type 0} (f : W → A × W) (k : A → M W B)
      → ((a : A) → NoPanic (k a))
      → NoPanic (call f >>= k)
  called-NoPanic f k h = bind-NoPanic (call f) k (call-NoPanic f) h

  -- An attempt of a call that does not panic leaves what is behind it to say whether there is an error.
  pub attempted-ok :
      {B : Type 0} (m : M W A) (k : M W B) (b : B) (w : W)
      → NoPanic m
      → ((u : W) → (k u).0 ≡ ok b)
      → ((attempt m >>= (λ r. k)) w).0 ≡ ok b
  attempted-ok {B} m k b w p h = from (m w) (p w)
    where
      from : (r : Outcome A × W) → r.0 ≢ panics → (then_run (attempted r) (λ x. k)).0 ≡ ok b
      from (ok a, u) q = h u
      from (failed t, u) q = h u
      from (panics, u) q = absurd (q refl)

module _ {W : Type 0} where
  pub wrapped-ok :
      (r : Outcome (Unit {0}) × W) (f : Text → Text) → r.0 ≡ ok tt → (wrapped r f).0 ≡ ok tt
  wrapped-ok (ok tt, w) f e = refl
  wrapped-ok (failed m, w) f e = ground (arith, e)
  wrapped-ok (panics, w) f e = ground (arith, e)

  pub bind-ok :
      (m : M W (Unit {0})) (k : Unit {0} → M W (Unit {0})) (w : W)
      → (m w).0 ≡ ok tt
      → ((u : W) → (k tt u).0 ≡ ok tt)
      → ((m >>= k) w).0 ≡ ok tt
  bind-ok m k w e h = from (m w) e
    where
      from : (r : Outcome (Unit {0}) × W) → r.0 ≡ ok tt → (then_run r k).0 ≡ ok tt
      from (ok tt, u) q = h u
      from (failed t, u) q = ground (arith, q)
      from (panics, u) q = ground (arith, q)
