-- ===== src/Filesystem/Formatted.antt =====
-- linux/mount.go: a device that has a file system is not formatted again.
use common_host_libs.Prelude.{
  ℕ, zero, suc, ◌≡◌, refl, Bool-cases, false, List, ◌⊎◌, inl, inr, ap, ◌∙◌,
}
use common_host_libs.Prelude.Text.{Text, is_nil}
use common_host_libs.Prelude.Effects.{ok, M, then_run, attempt}
use common_host_libs.Prelude.Ensures.{
  Holds, Ensures, Ensures-seen, Ensures-run, Ensures-runs, attempt-ok,
}
use common_host_libs.Filesystem.{Host}
use common_host_libs.Filesystem.Formatting.{
  get_filesystem_type, create_file_system_with_options, is_busy, after_attempt, create_rounds,
  retry_create_file_system_with_options, setup_beside, setup_on,
}

module _ {W : Type 0} (host : Host W) (path fs_type : Text) (options : List Text) where
  -- The look for a file system leads from the state to the other and shows one.
  abbrev pub ShowsType : W → W → Type 0
  ShowsType w w' =
      (t : Text) × ((get_filesystem_type host path w ≡ (ok t, w')) × (is_nil t ≡ false))

  abbrev pub IsFormatted : W → Type 0
  IsFormatted w = (w' : W) × ShowsType w w'

  -- After a run of mkfs that succeeds, blkid shows a file system.
  abbrev pub Formats : Type 0
  Formats =
      (w w' : W)
      → create_file_system_with_options host path fs_type options w ≡ (ok tt, w')
      → IsFormatted w'

  -- A file system that blkid shows is shown again.
  abbrev pub StaysFormatted : Type 0
  StaysFormatted = (w w' : W) → ShowsType w w' → IsFormatted w'

  module _ (f : Formats) (s : StaysFormatted) where
    after_attempt-IsFormatted :
        (try : ℕ) (later : M W (Unit {0}))
        → Ensures later (λ x w. IsFormatted w)
        → (r : Unit {0} ⊎ Text) (w w' : W)
        → attempt (create_file_system_with_options host path fs_type options) w ≡ (ok r, w')
        → Holds (λ x u. IsFormatted u) (after_attempt host try later r w')
    after_attempt-IsFormatted try later l (inl x) w w' e =
        f w w' (attempt-ok (create_file_system_with_options host path fs_type options) w tt w' e)
    after_attempt-IsFormatted try later l (inr m) w w' e = elim (Bool-cases (is_busy m)) [
      | inl p ↦ rw p (l (host.sleep try w'))
      | inr p ↦ rw p tt
    ]

    create_rounds-IsFormatted :
        (left try : ℕ)
        → Ensures (create_rounds host left try path fs_type options) (λ x w. IsFormatted w)
    unfolding create_rounds
    create_rounds-IsFormatted zero try =
        Ensures-runs (create_file_system_with_options host path fs_type options)
          (λ x w. IsFormatted w) (λ w x w' e. f w w' e)
    create_rounds-IsFormatted (suc left) try =
        Ensures-seen (attempt (create_file_system_with_options host path fs_type options))
          (after_attempt host (suc try) (create_rounds host left (suc try) path fs_type options))
          (λ x w. IsFormatted w)
          (λ w r w' e.
            after_attempt-IsFormatted (suc try)
              (create_rounds host left (suc try) path fs_type options)
              (create_rounds-IsFormatted left (suc try)) r w w' e)

    setup_beside-IsFormatted :
        (existing : Text) (w w' : W)
        → get_filesystem_type host path w ≡ (ok existing, w')
        → Holds (λ x u. IsFormatted u) (setup_beside host path fs_type options existing w')
    unfolding retry_create_file_system_with_options
    setup_beside-IsFormatted existing w w' e = elim (Bool-cases (is_nil existing)) [
      | inl p ↦ rw p (create_rounds-IsFormatted 8 0 w')
      | inr p ↦ rw p (s w w' (existing, (e, p)))
    ]

    setup_on-IsFormatted : Ensures (setup_on host path fs_type options) (λ x w. IsFormatted w)
    unfolding setup_on
    setup_on-IsFormatted = elim (Bool-cases (is_nil fs_type)) [
      | inl p ↦ rw p (λ w. tt)
      | inr p ↦ rw p (
          Ensures-seen (get_filesystem_type host path) (setup_beside host path fs_type options)
            (λ x w. IsFormatted w) (λ w existing w' e. setup_beside-IsFormatted existing w w' e))
    ]

    -- On a device that shows a file system, a setup only looks for it.
    setup_on-looks :
        (w w' : W)
        → is_nil fs_type ≡ false
        → ShowsType w w'
        → setup_on host path fs_type options w ≡ (ok tt, w')
    unfolding setup_on
    setup_on-looks w w' n (t, (e, p)) =
        rw n (ap (λ r. then_run r (setup_beside host path fs_type options)) e ∙ rw p refl)

    -- If blkid shows a file system after each run of mkfs that succeeds, and shows again what it has
    -- shown, then after a setup that succeeds another one succeeds as well and does nothing but look for
    -- the file system: it does not format the device again.
    pub setup_on-idempotent :
        (w w' : W)
        → is_nil fs_type ≡ false
        → setup_on host path fs_type options w ≡ (ok tt, w')
        → (u : W) × (ShowsType w' u × (setup_on host path fs_type options w' ≡ (ok tt, u)))
    setup_on-idempotent w w' n e =
        let (u, t) =
          Ensures-run (setup_on host path fs_type options) (λ x v. IsFormatted v)
            setup_on-IsFormatted w tt w' e in
        (u, (t, setup_on-looks w' u n t))
