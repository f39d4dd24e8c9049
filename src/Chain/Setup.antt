-- ===== src/Chain/Setup.antt =====
-- chain/chain.go: setup and the `done` flag, which together make Execute run once at most.
use common_host_libs.Prelude.{
  ℕ, suc, ◌≡◌, ◌≢◌, ◌↔◌, refl, ◌∙◌, true, false, List, [], ◌∷◌, ◌++◌, Option, none, some, String,
  eq_iff, lookup, insert, lookup-insert, lookup-insert_ne, lookup-insert_self, is_some, All, arith,
  Option-cases, inl, inr, reverse, take,
}
use common_host_libs.Prelude.Int.{ℤ}
use common_host_libs.Chain.{
  Outputs, Runner, already_executed, Chain, completed, reserve, setup, run_with_retry, run_commands,
  rollback_with_retry, rollback_commands, undo, run_and_undo, execute, note_rollback,
}

abbrev pub Distinct : List String → Type 0
Distinct [] = Unit
Distinct (x ∷ xs) = All (λ y. x ≢ y) xs × Distinct xs

module _ {W V E : Type 0} where
  -- The names of the commands that are not nil.
  abbrev pub names : List (Option (Runner W V E)) → List String
  names [] = []
  names (none ∷ cs) = names cs
  names (some r ∷ cs) = r.name ∷ names cs

module _ {V : Type 0} where
  -- No output has one of the names.
  abbrev pub IsFree : Outputs V → List String → Type 0
  IsFree out ns = All (λ n. lookup n out ≡ none) ns

IsFree-nil : (V : Type 0) (ns : List String) → IsFree {V = V} [] ns
IsFree-nil V [] = tt
IsFree-nil V (n ∷ ns) = (refl, IsFree-nil V ns)

module _ {V : Type 0} where
  IsFree-insert :
      (k : String) (out : Outputs V) (ns : List String)
      → All (λ y. k ≢ y) ns
      → All (λ n. lookup n out ≡ none) ns
      → All (λ n. lookup n (insert k none out) ≡ none) ns
  IsFree-insert k out [] d f = tt
  IsFree-insert k out (n ∷ ns) d f =
      (lookup-insert_ne k n none out d.0 ∙ f.0, IsFree-insert k out ns d.1 f.1)

  IsFree-insert_inv :
      (k : String) (out : Outputs V) (ns : List String)
      → All (λ n. lookup n (insert k none out) ≡ none) ns
      → All (λ y. k ≢ y) ns × All (λ n. lookup n out ≡ none) ns
  IsFree-insert_inv k out [] f = (tt, tt)
  IsFree-insert_inv k out (n ∷ ns) f =
      let (d, g) = IsFree-insert_inv k out ns f.1 in
      (
        (ground (arith, eq_iff k n, lookup-insert k n none out), d),
        (ground (arith, eq_iff k n, lookup-insert k n none out), g),
      )

module _ {W V E : Type 0} where
  reserve_ok :
      (cs : List (Option (Runner W V E))) (out : Outputs V)
      → Distinct (names cs)
      → IsFree out (names cs)
      → (reserve cs out).1 ≡ none
  unfolding reserve
  reserve_ok [] out d f = refl
  reserve_ok (none ∷ cs) out d f = reserve_ok cs out d f
  reserve_ok (some r ∷ cs) out d f = ground (
    arith,
    reserve_ok cs (insert r.name none out) d.1 (IsFree-insert r.name out (names cs) d.0 f.1),
  )

  reserve_ok_inv :
      (cs : List (Option (Runner W V E))) (out : Outputs V)
      → (reserve cs out).1 ≡ none
      → Distinct (names cs) × IsFree out (names cs)
  unfolding reserve
  reserve_ok_inv [] out e = (tt, tt)
  reserve_ok_inv (none ∷ cs) out e = reserve_ok_inv cs out e
  reserve_ok_inv (some r ∷ cs) out e = elim (Option-cases (lookup r.name out)) [
    | inl free ↦
        let (d, f) = reserve_ok_inv cs (insert r.name none out) (rw free at e) in
        let (d', f') = IsFree-insert_inv r.name out (names cs) f in ((d', d), (free, f'))
    | inr (v, taken) ↦ absurd (ground arith)
  ]

  -- On a chain that has not run and holds no output, setup passes exactly when no two Runners
  -- have one name.
  pub setup_iff :
      (c : Chain W V E)
      → c.done ≡ false
      → c.output ≡ []
      → ((setup c).1 ≡ none) ↔ Distinct (names c.commands)
  unfolding setup
  setup_iff c d o =
      rw (d, o)
        (
          (λ e. (reserve_ok_inv c.commands [] e).0),
          (λ d. reserve_ok c.commands [] d (IsFree-nil V (names c.commands))),
        )

  -- A placeholder is never taken away.
  reserve_mono :
      (n : String) (cs : List (Option (Runner W V E))) (out : Outputs V)
      → is_some (lookup n out) ≡ true
      → is_some (lookup n (reserve cs out).0) ≡ true
  unfolding reserve
  reserve_mono n [] out h = h
  reserve_mono n (none ∷ cs) out h = reserve_mono n cs out h
  reserve_mono n (some r ∷ cs) out h =
      ground (arith, reserve_mono n cs (insert r.name none out), lookup-insert r.name n none out)

  reserve_again :
      (cs more : List (Option (Runner W V E))) (out : Outputs V)
      → (reserve cs out).1 ≢ none
      → (reserve (cs ++ more) (reserve cs out).0).1 ≢ none
  unfolding reserve
  reserve_again [] more out h = absurd (h refl)
  reserve_again (none ∷ cs) more out h = reserve_again cs more out h
  reserve_again (some r ∷ cs) more out h =
      ground
        (arith, reserve_mono r.name cs (insert r.name none out), lookup-insert_self r.name none out)

  setup-done : (c : Chain W V E) → c.done ≡ false → (setup c).0.done ≡ false
  unfolding setup
  setup-done c d = ground arith

  pub setup-max : (c : Chain W V E) → (setup c).0.max_retry_on_error ≡ c.max_retry_on_error
  unfolding setup
  setup-max c = ground arith

  pub setup-err : (c : Chain W V E) → (setup c).0.err ≡ c.err
  unfolding setup
  setup-err c = ground arith

  pub setup-rollback_err : (c : Chain W V E) → (setup c).0.rollback_err ≡ c.rollback_err
  unfolding setup
  setup-rollback_err c = ground arith

  pub setup-commands : (c : Chain W V E) → (setup c).0.commands ≡ c.commands
  unfolding setup
  setup-commands c = ground arith

  setup_again :
      (c : Chain W V E) (more : List (Option (Runner W V E)))
      → c.done ≡ false
      → (setup c).1 ≢ none
      → let c1 : Chain W V E = (setup c).0 in
        (setup (record c1 { commands = c1.commands ++ more })).1 ≢ none
  unfolding setup
  setup_again c more d h = ground (arith, reserve_again c.commands more c.output)

module _ {W V E : Type 0} (sleep : ℤ → W → W) where
  run_commands-done :
      (cs : List (Option (Runner W V E))) (i : ℕ) (c : Chain W V E) (w : W)
      → (run_commands sleep cs i c w).0.done ≡ c.done
  unfolding run_commands
  run_commands-done [] i c w = refl
  run_commands-done (none ∷ cs) i c w = run_commands-done cs (suc i) c w
  run_commands-done (some r ∷ cs) i c w =
      let ran = run_with_retry sleep (record c { step = i }) r w in
      ground (arith, run_commands-done cs (suc i) (completed c i r ran.out) ran.world)

  note_rollback-done : (c : Chain W V E) (e : Option E) → (note_rollback c e).done ≡ c.done
  note_rollback-done c none = refl
  note_rollback-done c (some e) = refl

  rollback_commands-done :
      (cs : List (Option (Runner W V E))) (c : Chain W V E) (w : W)
      → (rollback_commands sleep cs c w).0.done ≡ c.done
  unfolding rollback_commands
  rollback_commands-done [] c w = refl
  rollback_commands-done (none ∷ cs) c w = rollback_commands-done cs c w
  rollback_commands-done (some r ∷ cs) c w =
      let back = rollback_with_retry sleep c r w in
      rollback_commands-done cs (note_rollback c back.err) back.world
      ∙ note_rollback-done c back.err

  undo-done : (c : Chain W V E) (w : W) → (undo sleep c w).0.done ≡ c.done
  unfolding undo
  undo-done c w =
      ground (arith, rollback_commands-done (reverse (take (suc c.step) c.commands)) c w)

  execute_done :
      (c : Chain W V E) (w : W) → c.done ≡ true → execute sleep c w ≡ (c, some already_executed, w)
  unfolding execute setup
  execute_done c w h = rw h

  run_and_undo-done : (c : Chain W V E) (w : W) → (run_and_undo sleep c w).0.done ≡ true
  unfolding run_and_undo
  run_and_undo-done c w =
      let c1 : Chain W V E = record c { done = true; step = 0 } in
      let (c2, w2) = run_commands sleep c1.commands 0 c1 w in
      undo-done c2 w2 ∙ run_commands-done c1.commands 0 c1 w

  pub execute_passed :
      (c : Chain W V E) (w : W)
      → (setup c).1 ≡ none
      → execute sleep c w ≡ run_and_undo sleep (setup c).0 w
  unfolding execute
  execute_passed c w h = rw (h, execute)

  execute_blocked :
      (c : Chain W V E) (w : W)
      → (setup c).1 ≢ none
      → execute sleep c w ≡ ((setup c).0, (setup c).1, w)
  unfolding execute
  execute_blocked c w h = ground arith

  -- Once Execute has passed its setup, whatever the Runners did, each later call is refused
  -- with the error of an executed chain, and neither the chain nor the world changes.
  pub execute-execute :
      (c : Chain W V E) (w w' : W)
      → (setup c).1 ≡ none
      → let ran = (execute sleep c w).0 in execute sleep ran w' ≡ (ran, some already_executed, w')
  execute-execute c w w' h =
      rw (execute_passed c w h) (execute_done _ w' (run_and_undo-done (setup c).0 w))

  -- When setup meets a name for the second time, no Runner runs. The placeholders stay in the
  -- chain, so each later call fails too, whatever is appended, and runs nothing.
  pub execute_after_clash :
      (c : Chain W V E) (more : List (Option (Runner W V E))) (w w' : W)
      → c.done ≡ false
      → (setup c).1 ≢ none
      → let (c1, e1, w1) = execute sleep c w in
        let (c2, e2, w2) = execute sleep (record c1 { commands = c1.commands ++ more }) w' in
        (w1 ≡ w) × (c1.done ≡ false) × (e2 ≢ none) × (w2 ≡ w')
  execute_after_clash c more w w' d h = rw (execute_blocked c w h) (
      let c1 : Chain W V E = (setup c).0 in
      let c2 : Chain W V E = record c1 { commands = c1.commands ++ more } in
      rw (execute_blocked c2 w' (setup_again c more d h))
        (refl, setup-done c d, setup_again c more d h, refl))
