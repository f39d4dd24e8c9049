-- ===== src/Chain/Outputs.antt =====
-- chain/chain.go: what GetRunnerOutput gives after a chain that has succeeded.
use common_host_libs.Prelude.{
  ℕ, zero, suc, ◌-◌, ◌^◌, ◌<◌, ◌≡◌, ◌≢◌, refl, sym, ap, subst, false, ◌∙◌, true, List, [], ◌∷◌,
  Option, none, some, String, lookup, lookup-insert_ne, lookup-insert_self, All, arith,
  Option-cases, inl, inr, reverse, take,
}
use common_host_libs.Prelude.Int.{ℤ, pos}
use common_host_libs.Chain.{
  Outputs, Ran, Runner, Chain, ChainError, rounds, rounds_pos, run_rounds, run_with_retry,
  run_commands, undo, run_and_undo, setup, execute, completed, get_runner_output,
}
use common_host_libs.Chain.Steps.{ran_at, run_commands-ok, run_commands-err, rollback_commands-err}
use common_host_libs.Chain.Setup.{
  Distinct, names, setup_iff, execute_passed, setup-max, setup-commands,
}

module _ {W V E : Type 0} (sleep : ℤ → W → W) where
  -- The chain's output under the Runner's name is what a successful Run of it has returned.
  abbrev pub Produced : Chain W V E → Runner W V E → Type 0
  Produced c r =
      (o : Outputs V) × (w : W) × ((r.run o w).err ≡ none)
      × (get_runner_output c r.name ≡ (r.run o w).out)

  abbrev pub AllProduced : Chain W V E → List (Option (Runner W V E)) → Type 0
  AllProduced c [] = Unit
  AllProduced c (none ∷ cs) = AllProduced c cs
  AllProduced c (some r ∷ cs) = Produced c r × AllProduced c cs

  run_rounds-succeeds :
      (n : ℕ) (d : ℤ) (r : Runner W V E) (o : Outputs V) (out : Option V) (err : Option E) (w : W)
      → (run_rounds sleep (suc n) d r o out err w).err ≡ none
      → (w1 : W) × ((r.run o w1).err ≡ none)
        × ((run_rounds sleep (suc n) d r o out err w).out ≡ (r.run o w1).out)
  unfolding run_rounds
  run_rounds-succeeds zero d r o out err w h =
      let now : Ran W V E = r.run o w in
      elim (Option-cases now.err) [
        | inl e ↦ (w, e, rw (e, run_rounds))
        | inr (x, e) ↦ absurd (ground arith)
      ]
  run_rounds-succeeds (suc n) d r o out err w h =
      let now : Ran W V E = r.run o w in
      elim (Option-cases now.err) [
        | inl e ↦ (w, e, rw (e, run_rounds))
        | inr (x, e) ↦
            rw (e, run_rounds)
              (run_rounds-succeeds n d r o now.out (some x) (sleep d now.world)
                (rw (e, run_rounds) at h))
      ]

  ran_at-succeeds :
      (c : Chain W V E) (i : ℕ) (r : Runner W V E) (w : W) {n : ℕ}
      → rounds c.max_retry_on_error ≡ suc n
      → (ran_at sleep c i r w).err ≡ none
      → (w1 : W) × ((r.run c.output w1).err ≡ none)
        × ((ran_at sleep c i r w).out ≡ (r.run c.output w1).out)
  unfolding run_with_retry
  ran_at-succeeds c i r w {n} m h =
      let rounds_eq = λ (k : ℕ). run_rounds sleep k c.sleep_before_retry r c.output none none w in
      let (w1, ok, same) =
        run_rounds-succeeds n c.sleep_before_retry r c.output none none w
          (ap (λ (k : ℕ). (rounds_eq k).err) (sym m) ∙ h) in
      (w1, ok, ap (λ (k : ℕ). (rounds_eq k).out) m ∙ same)

  run_commands-lookup :
      (k : String) (cs : List (Option (Runner W V E))) (i : ℕ) (c : Chain W V E) (w : W)
      → All (λ y. k ≢ y) (names cs)
      → lookup k (run_commands sleep cs i c w).0.output ≡ lookup k c.output
  unfolding run_commands
  run_commands-lookup k [] i c w d = refl
  run_commands-lookup k (none ∷ cs) i c w d = run_commands-lookup k cs (suc i) c w d
  run_commands-lookup k (some r ∷ cs) i c w d =
      let ran = ran_at sleep c i r w in
      elim (Option-cases ran.err) [
        | inl e ↦ rw (run_commands-ok sleep r cs i c w e) (
            run_commands-lookup k cs (suc i) (completed c i r ran.out) ran.world d.1
            ∙ lookup-insert_ne r.name k ran.out c.output (λ x. d.0 (sym x)))
        | inr (x, e) ↦ rw (run_commands-err sleep r cs i c w e) refl
      ]

  get_runner_output_lem :
      (c : Chain W V E) (k : String) {out : Option V}
      → lookup k c.output ≡ some out
      → get_runner_output c k ≡ out
  unfolding get_runner_output
  get_runner_output_lem c k h = ground arith

  undo_succeeded : (c : Chain W V E) (w : W) → c.err ≡ none → undo sleep c w ≡ (c, w)
  unfolding undo
  undo_succeeded c w h = ground arith

  undo-err : (c : Chain W V E) (w : W) → (undo sleep c w).0.err ≡ c.err
  unfolding undo
  undo-err c w =
      ground (arith, rollback_commands-err sleep (reverse (take (suc c.step) c.commands)) c w)

  -- Only a chain that has passed its setup reports success.
  execute_ok_inv : (c : Chain W V E) (w : W) → (execute sleep c w).1 ≡ none → (setup c).1 ≡ none
  unfolding execute
  execute_ok_inv c w h = ground arith

  run_commands-Produced :
      (cs : List (Option (Runner W V E))) (i : ℕ) (c : Chain W V E) (w : W) {n : ℕ}
      → rounds c.max_retry_on_error ≡ suc n
      → Distinct (names cs)
      → (run_commands sleep cs i c w).0.err ≡ none
      → AllProduced (run_commands sleep cs i c w).0 cs
  unfolding run_commands
  run_commands-Produced [] i c w m d h = tt
  run_commands-Produced (none ∷ cs) i c w m d h = run_commands-Produced cs (suc i) c w m d h
  run_commands-Produced (some r ∷ cs) i c w m d h =
      let ran = ran_at sleep c i r w in
      elim (Option-cases ran.err) [
        | inl e ↦
            let c1 : Chain W V E = completed c i r ran.out in
            let step = run_commands-ok sleep r cs i c w e in
            let (w1, ok, same) = ran_at-succeeds c i r w m e in
            let found =
              run_commands-lookup r.name cs (suc i) c1 ran.world d.0
              ∙ lookup-insert_self r.name ran.out c.output in
            subst (λ (z : Chain W V E × W). AllProduced z.0 (some r ∷ cs)) (sym step)
              (
                (c.output, w1, ok, get_runner_output_lem _ r.name found ∙ same),
                run_commands-Produced cs (suc i) c1 ran.world m d.1
                    (ap (λ (z : Chain W V E × W). z.0.err) (sym step) ∙ h),
              )
        | inr (x, e) ↦
            let stopped =
              ap (λ (z : Chain W V E × W). z.0.err) (run_commands-err sleep r cs i c w e) in
            absurd (ground arith)
      ]

  run_and_undo-Produced :
      (c : Chain W V E) (w : W) {n : ℕ}
      → rounds c.max_retry_on_error ≡ suc n
      → Distinct (names c.commands)
      → (run_and_undo sleep c w).1 ≡ none
      → AllProduced (run_and_undo sleep c w).0 c.commands
  unfolding run_and_undo
  run_and_undo-Produced c w m d h =
      let c1 : Chain W V E = record c { done = true; step = 0 } in
      let (c2, w2) = run_commands sleep c1.commands 0 c1 w in
      elim (Option-cases c2.err) [
        | inl e ↦
            subst (λ (z : Chain W V E × W). AllProduced z.0 c.commands)
              (sym (undo_succeeded c2 w2 e)) (run_commands-Produced c1.commands 0 c1 w m d e)
        | inr (x, e) ↦ let kept = undo-err c2 w2 in absurd (ground arith)
      ]

  -- When Execute reports success on a chain that is fresh and has a number of retries that is neither
  -- negative nor the largest int of 64 bits, the Runners have distinct names, and the chain's output for each of them is the value of a Run
  -- of it that returned no error.
  pub execute-Produced :
      (c : Chain W V E) (w : W) (n : ℕ)
      → c.max_retry_on_error ≡ pos n
      → n < 2 ^ 63 - 1
      → c.done ≡ false
      → c.output ≡ []
      → (execute sleep c w).1 ≡ none
      → Distinct (names c.commands) × AllProduced (execute sleep c w).0 c.commands
  execute-Produced c w n m l d o h =
      let ready = execute_ok_inv c w h in
      let passed = execute_passed sleep c w ready in
      let distinct = (setup_iff c d o).0 ready in
      let same = sym (setup-commands c) in
      let again = subst (λ l. Distinct (names l)) same distinct in
      let ok = ap (λ (z : Chain W V E × Option (ChainError E) × W). z.1) (sym passed) ∙ h in
      (
        distinct,
        rw passed (
            subst (λ l. AllProduced (run_and_undo sleep (setup c).0 w).0 l) (setup-commands c)
              (run_and_undo-Produced (setup c).0 w (ap rounds (setup-max c ∙ m) ∙ rounds_pos n l)
                again ok)),
      )
