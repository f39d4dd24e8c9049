-- ===== src/Dockervol/Unmounting.antt =====
-- docker/dockervol/dockervol.go: the attempts of Unmount.
use common_host_libs.Prelude.{
  ℕ, zero, suc, ◌≡◌, ◌≤◌, refl, sym, ap, subst, ◌∙◌, Bool, true, false, Option, some, arith, ◌⊎◌,
  inl, inr,
}
use common_host_libs.Prelude.Text.{Text, codes, contains, to_lower}
use common_host_libs.Dockervol.{
  Payload, Response, Result, ok, err, is_worth_retry, last_error, concluded, mounter,
  unmount_rounds, unmount,
}

abbrev pub fails : Result Text → Bool
fails (ok m) = false
fails (err m) = is_worth_retry m

concluded_stop {ℓ} :
    {W : Type ℓ} (r : Result Text) (w : W) (later : Option Text × W)
    → fails r ≡ false
    → concluded r w later ≡ (last_error r, w)
concluded_stop (ok m) w later h = refl
concluded_stop (err m) w later h = rw h refl

concluded_again {ℓ} :
    {W : Type ℓ} (r : Result Text) (w : W) (later : Option Text × W)
    → fails r ≡ true
    → concluded r w later ≡ later
concluded_again (ok m) w later h = ground (arith, h)
concluded_again (err m) w later h = rw h refl

module _ {A W : Type 0} (call : Text → Text → Payload A → W → (Response × Option Text) × W)
    (errorf : Text → Text) (sleep : ℕ → W → W) (name mount_id : Text) where
  abbrev pub attempt : W → Result Text × W
  attempt w = mounter call errorf sleep name mount_id (codes "/VolumeDriver.Unmount") w

  -- From the state w, behind as many tries as are done, n attempts in a row fail and lead to the other
  -- state, with a sleep after each: as many seconds as there are failed tries by then.
  abbrev pub FailsFor : ℕ → ℕ → W → W → Type 0
  FailsFor zero tries w w' = w ≡ w'
  FailsFor (suc n) tries w w' =
      (fails (attempt w).0 ≡ true) × FailsFor n (suc tries) (sleep (suc tries) (attempt w).1) w'

  abbrev rounds : ℕ → ℕ → W → Option Text × W
  rounds left tries w = unmount_rounds call errorf sleep left tries name mount_id w

  rounds_first :
      (left n tries : ℕ) (w w' : W)
      → n ≤ left
      → FailsFor n tries w w'
      → (fails (attempt w').0 ≡ false) ⊎ (n ≡ left)
      → rounds left tries w ≡ (last_error (attempt w').0, (attempt w').1)
  unfolding unmount_rounds
  rounds_first zero zero tries w w' l t h = ap (λ v. (last_error (attempt v).0, (attempt v).1)) t
  rounds_first zero (suc n) tries w w' l t h = ground arith
  rounds_first (suc left) zero tries w w' l t (inl f) =
      concluded_stop (attempt w).0 (attempt w).1
        (rounds left (suc tries) (sleep (suc tries) (attempt w).1))
        (subst (λ v. fails (attempt v).0 ≡ false) (sym t) f)
      ∙ ap (λ v. (last_error (attempt v).0, (attempt v).1)) t
  rounds_first (suc left) zero tries w w' l t (inr e) = ground (arith, e)
  rounds_first (suc left) (suc n) tries w w' l t h =
      let later = sleep (suc tries) (attempt w).1 in
      concluded_again (attempt w).0 (attempt w).1 (rounds left (suc tries) later) t.0
      ∙ rounds_first left n (suc tries) later w' (omega (arith, l)) t.1 (one_less h)
    where
      one_less :
          (fails (attempt w').0 ≡ false) ⊎ (suc n ≡ suc left)
          → (fails (attempt w').0 ≡ false) ⊎ (n ≡ left)
      one_less (inl f) = inl f
      one_less (inr e) = inr (omega (arith, e))

  -- After at most three attempts that fail, with sleeps of 1, 2 and 3 seconds behind them, the next
  -- attempt decides what Unmount returns if it does not fail or is the fourth; an error counts as a
  -- failure unless it says both that the volume is not mounted and that there is no such file.
  pub unmount_first :
      (n : ℕ) (w w' : W)
      → n ≤ 3
      → FailsFor n 0 w w'
      → (fails (attempt w').0 ≡ false) ⊎ (n ≡ 3)
      → unmount call errorf sleep name mount_id w ≡ (last_error (attempt w').0, (attempt w').1)
  unfolding unmount
  unmount_first n w w' l t h = rounds_first 3 n 0 w w' l t h

  -- If every attempt fails with one error, which does not say that there is no such file or directory,
  -- Unmount returns this error, whether or not it says that the volume is not mounted.
  pub unmount_not_mounted :
      (m : Text) (w : W)
      → ((v : W) → (attempt v).0 ≡ err m)
      → contains (to_lower m) (codes "no such file or directory") ≡ false
      → (unmount call errorf sleep name mount_id w).0 ≡ some m
  unmount_not_mounted m w all_fail absent =
      let next : ℕ → W → W = λ seconds v. sleep seconds (attempt v).1 in
      let failed : (v : W) → fails (attempt v).0 ≡ true = λ v. ground (arith, all_fail v, absent) in
      let end = next 3 (next 2 (next 1 w)) in
      ap (λ r. r.0)
        (unmount_first 3 w end (omega arith)
          (failed w, (failed (next 1 w), (failed (next 2 (next 1 w)), refl))) (inr refl))
      ∙ ground (arith, all_fail end, absent)
