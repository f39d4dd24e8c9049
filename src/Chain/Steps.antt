-- ===== src/Chain/Steps.antt =====
-- chain/chain.go: the two loops of Execute, one command at a time.
use common_host_libs.Prelude.{ℕ, suc, ap, ◌≡◌, refl, ◌∙◌, List, [], ◌∷◌, ◌++◌, Option, none, some}
use common_host_libs.Prelude.Int.{ℤ}
use common_host_libs.Chain.{
  Runner, Chain, Ran, RolledBack, run_with_retry, run_commands, rollback_with_retry,
  rollback_commands, completed, note_rollback,
}

module _ {W V E : Type 0} (sleep : ℤ → W → W) where
  abbrev pub ran_at : Chain W V E → ℕ → Runner W V E → W → Ran W V E
  ran_at c i r w = run_with_retry sleep (record c { step = i }) r w

  pub run_commands-ok :
      (r : Runner W V E) (cs : List (Option (Runner W V E))) (i : ℕ) (c : Chain W V E) (w : W)
      → (ran_at c i r w).err ≡ none
      → run_commands sleep (some r ∷ cs) i c w
        ≡ run_commands sleep cs
            (suc i)
            (completed c i r (ran_at c i r w).out)
            (ran_at c i r w).world
  unfolding run_commands
  run_commands-ok r cs i c w h = rw (h, run_commands)

  pub run_commands-err :
      (r : Runner W V E) (cs : List (Option (Runner W V E))) (i : ℕ) (c : Chain W V E) (w : W)
      {e : E}
      → (ran_at c i r w).err ≡ some e
      → run_commands sleep (some r ∷ cs) i c w
        ≡ (record c { step = i; err = some e }, (ran_at c i r w).world)
  unfolding run_commands
  run_commands-err r cs i c w h = rw (h, run_commands)

  pub rollback_commands-append :
      (xs ys : List (Option (Runner W V E))) (c : Chain W V E) (w : W)
      → rollback_commands sleep (xs ++ ys) c w
        ≡ (let (c1, w1) = rollback_commands sleep xs c w in rollback_commands sleep ys c1 w1)
  unfolding rollback_commands
  rollback_commands-append [] ys c w = refl
  rollback_commands-append (none ∷ xs) ys c w = rollback_commands-append xs ys c w
  rollback_commands-append (some r ∷ xs) ys c w =
      let back = rollback_with_retry sleep c r w in
      rollback_commands-append xs ys (note_rollback c back.err) back.world

  pub rollback_commands-ok :
      (r : Runner W V E) (cs : List (Option (Runner W V E))) (c : Chain W V E) (w w' : W)
      → rollback_with_retry sleep c r w ≡ record { err = none; world = w' }
      → rollback_commands sleep (some r ∷ cs) c w ≡ rollback_commands sleep cs c w'
  unfolding rollback_commands
  rollback_commands-ok r cs c w w' h =
      ap (λ (z : RolledBack W E). rollback_commands sleep cs (note_rollback c z.err) z.world) h

  note_rollback-err : (c : Chain W V E) (e : Option E) → (note_rollback c e).err ≡ c.err
  note_rollback-err c none = refl
  note_rollback-err c (some e) = refl

  pub rollback_commands-err :
      (cs : List (Option (Runner W V E))) (c : Chain W V E) (w : W)
      → (rollback_commands sleep cs c w).0.err ≡ c.err
  unfolding rollback_commands
  rollback_commands-err [] c w = refl
  rollback_commands-err (none ∷ cs) c w = rollback_commands-err cs c w
  rollback_commands-err (some r ∷ cs) c w =
      let back = rollback_with_retry sleep c r w in
      rollback_commands-err cs (note_rollback c back.err) back.world ∙ note_rollback-err c back.err
