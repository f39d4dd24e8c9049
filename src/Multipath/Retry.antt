-- ===== src/Multipath/Retry.antt =====
-- linux/multipath.go: the attempts of retryGetPathOfDevice.
use common_host_libs.Prelude.{
  ℕ, zero, suc, ◌≡◌, ◌≤◌, refl, sym, ap, subst, ◌∙◌, Bool, true, false, List, Option, arith, ◌⊎◌,
  inl, inr, Option-cases,
}
use common_host_libs.Prelude.Text.{Text}
use common_host_libs.Multipath.{
  PathInfo, Device, Result, ok, err, panics, paths_of_lines, gathered, is_timeout,
  multipath_get_paths_of_device, retry_rounds, retry_get_path_of_device,
}

gathered_timeout :
    (dev : Device) (need_active : Bool) (found : Result (List Text))
    → is_timeout (gathered dev need_active found).0 ≡ true
    → (gathered dev need_active found).1 ≡ dev
gathered_timeout dev need_active (ok found) h =
    elim (Option-cases (paths_of_lines dev.serial_number need_active found)) [
      | inl e ↦ ground (arith, e, h)
      | inr (ps, e) ↦ ground (arith, e, h)
    ]
gathered_timeout dev need_active (err m) h = refl
gathered_timeout dev need_active panics h = refl

module _ {W : Type 0} (exec : Text → List Text → W → (Text × Option Text) × W) (sleep : ℕ → W → W)
    (dev : Device) (need_active : Bool) where
  abbrev attempt : W → (Result (List PathInfo) × Device) × W
  attempt w = multipath_get_paths_of_device exec sleep dev need_active w

  -- From the state w, that many attempts in a row time out, with a sleep of 5 seconds after each, and
  -- lead to the other state.
  abbrev pub TimesOut : ℕ → W → W → Type 0
  TimesOut zero w w' = w ≡ w'
  TimesOut (suc n) w w' =
      (is_timeout (attempt w).0.0 ≡ true) × TimesOut n (sleep 5 (attempt w).1) w'

  attempt_timeout : (w : W) → is_timeout (attempt w).0.0 ≡ true → (attempt w).0.1 ≡ dev
  unfolding multipath_get_paths_of_device
  attempt_timeout w h = gathered_timeout dev need_active _ h

  retry_rounds_stop :
      (left : ℕ) (w : W)
      → is_timeout (attempt w).0.0 ≡ false
      → retry_rounds exec sleep left dev need_active w ≡ attempt w
  unfolding retry_rounds
  retry_rounds_stop zero w h = refl
  retry_rounds_stop (suc left) w h = ground (arith, h)

  retry_rounds_again :
      (left : ℕ) (w : W)
      → is_timeout (attempt w).0.0 ≡ true
      → retry_rounds exec sleep (suc left) dev need_active w
        ≡ retry_rounds exec sleep left dev need_active (sleep 5 (attempt w).1)
  unfolding retry_rounds
  retry_rounds_again left w h = rw (h, attempt_timeout w h) refl

  retry_rounds_first :
      (left n : ℕ) (w w' : W)
      → n ≤ left
      → TimesOut n w w'
      → (is_timeout (attempt w').0.0 ≡ false) ⊎ (n ≡ left)
      → retry_rounds exec sleep left dev need_active w ≡ attempt w'
  unfolding retry_rounds
  retry_rounds_first zero zero w w' l t h = ap attempt t
  retry_rounds_first zero (suc n) w w' l t h = ground arith
  retry_rounds_first (suc left) zero w w' l t (inl f) =
      retry_rounds_stop (suc left) w (subst (λ v. is_timeout (attempt v).0.0 ≡ false) (sym t) f)
      ∙ ap attempt t
  retry_rounds_first (suc left) zero w w' l t (inr e) = ground (arith, e)
  retry_rounds_first (suc left) (suc n) w w' l t (inl f) =
      retry_rounds_again left w t.0
      ∙ retry_rounds_first left n (sleep 5 (attempt w).1) w' (omega (arith, l)) t.1 (inl f)
  retry_rounds_first (suc left) (suc n) w w' l t (inr e) =
      retry_rounds_again left w t.0
      ∙ retry_rounds_first left n (sleep 5 (attempt w).1) w' (omega (arith, l)) t.1
          (inr (omega (arith, e)))

  -- After at most five attempts that time out, each with a sleep behind it, the next attempt is the
  -- result of retryGetPathOfDevice if it does not time out or is the sixth, whatever it gives.
  pub retry_get_path_of_device_first :
      (n : ℕ) (w w' : W)
      → n ≤ 5
      → TimesOut n w w'
      → (is_timeout (attempt w').0.0 ≡ false) ⊎ (n ≡ 5)
      → retry_get_path_of_device exec sleep dev need_active w ≡ attempt w'
  unfolding retry_get_path_of_device
  retry_get_path_of_device_first n w w' l t h = retry_rounds_first 5 n w w' l t h
