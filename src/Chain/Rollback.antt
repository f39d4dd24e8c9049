-- ===== src/Chain/Rollback.antt =====
-- chain/chain.go: a chain that fails puts the world back, if each Runner's Rollback undoes what its
-- Run has done ("Rollback is used to undo whatever Run() did").
use mathlib.Core.List.{reverse-append, append_assoc}
use common_host_libs.Prelude.{
  ℕ, zero, suc, ◌-◌, ◌^◌, ltb, ltb→lt, Bool-cases, ◌≡◌, refl, sym, ap, subst, ◌∙◌, true, List, [],
  ◌∷◌, ◌++◌, reverse, Option, none, some, arith, length, length-append, take, take-length-append,
  Option-cases, inl, inr,
}
use common_host_libs.Prelude.Int.{ℤ, pos}
use common_host_libs.Chain.{
  Outputs, Ran, Runner, from_runner, Chain, rounds, run_rounds, run_with_retry, rollback_rounds,
  rollback_with_retry, run_commands, rollback_commands, undo, run_and_undo, setup, execute,
  completed, rounds_pos, rounds_wrapped,
}
use common_host_libs.Chain.Retry.{execute_no_round}
use common_host_libs.Chain.Steps.{ran_at, run_commands-ok, run_commands-err, rollback_commands-ok}
use common_host_libs.Chain.Setup.{
  execute_passed, setup-max, setup-err, setup-rollback_err, setup-commands,
}

length_next {ℓ} :
    {A : Type ℓ} (pre : List A) (x : A) (i : ℕ) → i ≡ length pre → suc i ≡ length (pre ++ (x ∷ []))
length_next pre x i p = omega (arith, length-append pre (x ∷ []))

take_next {ℓ} :
    {A : Type ℓ} (pre : List A) (x : A) (cs : List A) (i : ℕ)
    → i ≡ length pre
    → pre ++ (x ∷ []) ≡ take (suc i) (pre ++ (x ∷ cs))
take_next pre x cs i p = rw p (sym (take-length-append pre x cs))

module _ {W V E : Type 0} (sleep : ℤ → W → W) (Tried : Runner W V E → W → W → Type 0) where
  -- The contract of Runner.Rollback. `Tried r w u` says that `u` may be what failed attempts of
  -- `r`, and the sleeps after them, make of `w`.
  pub record IsUndoable (r : Runner W V E) : Type 0 where
    pub untried : (w : W) → Tried r w w
    pub retried :
        (o : Outputs V) (d : ℤ) (w u : W) (e : E)
        → Tried r w u
        → (r.run o u).err ≡ some e
        → Tried r w (sleep d (r.run o u).world)
    pub undoes_success :
        (o o' : Outputs V) (w u : W)
        → Tried r w u
        → (r.run o u).err ≡ none
        → r.rollback o' (r.run o u).world ≡ record { err = none; world = w }
    pub undoes_failure :
        (o o' : Outputs V) (d : ℤ) (w u : W) (e : E)
        → Tried r w u
        → (r.run o u).err ≡ some e
        → r.rollback o' (sleep d (r.run o u).world) ≡ record { err = none; world = w }

  -- A Rollback of `r` in world `u` succeeds and leads to `w`.
  abbrev Undoes : Runner W V E → W → W → Type 0
  Undoes r w u = (o : Outputs V) → r.rollback o u ≡ record { err = none; world = w }

  abbrev pub AllUndoable : List (Option (Runner W V E)) → Type 0
  AllUndoable [] = Unit
  AllUndoable (none ∷ cs) = AllUndoable cs
  AllUndoable (some r ∷ cs) = IsUndoable r × AllUndoable cs

  run_rounds-Undoes :
      (n : ℕ) (d : ℤ) (r : Runner W V E) (o : Outputs V) (out : Option V) (err : Option E) (w u : W)
      → IsUndoable r
      → Tried r w u
      → Undoes r w (run_rounds sleep (suc n) d r o out err u).world
  unfolding run_rounds
  run_rounds-Undoes zero d r o out err w u i h o' =
      let now : Ran W V E = r.run o u in
      elim (Option-cases now.err) [
        | inl e ↦ rw (e, run_rounds) (i.undoes_success o o' w u h e)
        | inr (x, e) ↦ rw (e, run_rounds) (i.undoes_failure o o' d w u x h e)
      ]
  run_rounds-Undoes (suc n) d r o out err w u i h o' =
      let now : Ran W V E = r.run o u in
      elim (Option-cases now.err) [
        | inl e ↦ rw (e, run_rounds) (i.undoes_success o o' w u h e)
        | inr (x, e) ↦
            rw (e, run_rounds)
              (run_rounds-Undoes n d r o now.out (some x) w (sleep d now.world) i
                (i.retried o d w u x h e) o')
      ]

  ran_at-Undoes :
      (c : Chain W V E) (i : ℕ) (r : Runner W V E) (w : W) {n : ℕ}
      → rounds c.max_retry_on_error ≡ suc n
      → IsUndoable r
      → Undoes r w (ran_at sleep c i r w).world
  unfolding run_with_retry
  ran_at-Undoes c i r w {n} m u =
      subst
        (λ (k : ℕ).
          Undoes r w (run_rounds sleep k c.sleep_before_retry r c.output none none w).world)
        (sym m) (run_rounds-Undoes n c.sleep_before_retry r c.output none none w w u (u.untried w))

  rollback_with_retry_undone :
      (c : Chain W V E) (r : Runner W V E) (w w' : W) {n : ℕ}
      → rounds c.max_retry_on_error ≡ suc n
      → Undoes r w w'
      → rollback_with_retry sleep c r w' ≡ record { err = none; world = w }
  unfolding rollback_with_retry rollback_rounds
  rollback_with_retry_undone c r w w' {n} m h =
      ap (λ (k : ℕ). rollback_rounds sleep k c.sleep_before_retry r c.output none w') m
      ∙ rw (rollback_rounds, h c.output) (h c.output)

  -- Rolling back the commands `pre` from `w` leads to `w0`, with no error.
  abbrev Restores : ℕ → List (Option (Runner W V E)) → W → W → Type 0
  Restores n pre w0 w =
      (c : Chain W V E)
      → rounds c.max_retry_on_error ≡ suc n
      → rollback_commands sleep (reverse pre) c w ≡ (c, w0)

  Restores-nil :
      (n : ℕ) (pre : List (Option (Runner W V E))) (w0 w : W)
      → Restores n pre w0 w
      → Restores n (pre ++ (none ∷ [])) w0 w
  unfolding rollback_commands
  Restores-nil n pre w0 w h c m = rw (reverse-append pre (none ∷ [])) (h c m)

  Restores-some :
      (n : ℕ) (pre : List (Option (Runner W V E))) (r : Runner W V E) (w0 w w' : W)
      → Restores n pre w0 w
      → Undoes r w w'
      → Restores n (pre ++ (some r ∷ [])) w0 w'
  unfolding rollback_commands
  Restores-some n pre r w0 w w' h u c m = rw (reverse-append pre (some r ∷ [])) (
      rollback_commands-ok sleep r (reverse pre) c w' w (rollback_with_retry_undone c r w w' m u)
      ∙ h c m)

  -- What the first loop leaves alone, and what it makes possible.
  record Forward (n : ℕ) (all : List (Option (Runner W V E))) (w0 : W) (c c' : Chain W V E) (w' : W)
      : Type 0 where
    same_commands : c'.commands ≡ c.commands
    same_max : c'.max_retry_on_error ≡ c.max_retry_on_error
    same_rollback_err : c'.rollback_err ≡ c.rollback_err
    restores : (e : E) → c'.err ≡ some e → Restores n (take (suc c'.step) all) w0 w'

  Forward-completed :
      (n : ℕ) (all : List (Option (Runner W V E))) (w0 : W) (c : Chain W V E) (i : ℕ)
      (r : Runner W V E) (out : Option V) (c' : Chain W V E) (w' : W)
      → Forward n all w0 (completed c i r out) c' w'
      → Forward n all w0 c c' w'
  Forward-completed n all w0 c i r out c' w' f = record {
    same_commands = f.same_commands;
    same_max = f.same_max;
    same_rollback_err = f.same_rollback_err;
    restores = f.restores;
  }

  run_commands-Forward :
      (n : ℕ) (w0 : W) (pre cs : List (Option (Runner W V E))) (i : ℕ) (c : Chain W V E) (w : W)
      → i ≡ length pre
      → rounds c.max_retry_on_error ≡ suc n
      → c.err ≡ none
      → AllUndoable cs
      → Restores n pre w0 w
      → Forward n (pre ++ cs) w0 c (run_commands sleep cs i c w).0 (run_commands sleep cs i c w).1
  unfolding run_commands
  run_commands-Forward n w0 pre [] i c w p m q u h = record {
    same_commands = refl;
    same_max = refl;
    same_rollback_err = refl;
    restores = λ e e'. cc;
  }
  run_commands-Forward n w0 pre (none ∷ cs) i c w p m q u h =
      let (c', w') = run_commands sleep cs (suc i) c w in
      subst (λ l. Forward n l w0 c c' w') (append_assoc pre (none ∷ []) cs)
        (run_commands-Forward n w0 (pre ++ (none ∷ [])) cs (suc i) c w (length_next pre none i p) m
          q u (Restores-nil n pre w0 w h))
  run_commands-Forward n w0 pre (some r ∷ cs) i c w p m q u h =
      let ran : Ran W V E = ran_at sleep c i r w in
      let next = Restores-some n pre r w0 w ran.world h (ran_at-Undoes c i r w m u.0) in
      elim (Option-cases ran.err) [
        | inl e ↦
            let c1 : Chain W V E = completed c i r ran.out in
            let (c', w') = run_commands sleep cs (suc i) c1 ran.world in
            rw (run_commands-ok sleep r cs i c w e) (
              Forward-completed n (pre ++ some r ∷ cs) w0 c i r ran.out c' w' (
                subst (λ l. Forward n l w0 c1 c' w') (append_assoc pre (some r ∷ []) cs)
                  (run_commands-Forward n w0 (pre ++ (some r ∷ [])) cs (suc i) c1 ran.world
                    (length_next pre (some r) i p) m q u.1 next)))
        | inr (x, e) ↦ rw (run_commands-err sleep r cs i c w e) (record {
          same_commands = refl;
          same_max = refl;
          same_rollback_err = refl;
          restores =
              λ _ _. subst (λ l. Restores n l w0 ran.world) (take_next pre (some r) cs i p) next;
        })
      ]

  undo_failed :
      (c : Chain W V E) (w : W) (e : E)
      → c.err ≡ some e
      → undo sleep c w ≡ rollback_commands sleep (reverse (take (suc c.step) c.commands)) c w
  unfolding undo
  undo_failed c w e h = ground arith

  undo_restores :
      (n : ℕ) (c c' : Chain W V E) (w w' : W) (e : E)
      → Forward n c.commands w c c' w'
      → rounds c.max_retry_on_error ≡ suc n
      → c'.err ≡ some e
      → undo sleep c' w' ≡ (c', w)
  undo_restores n c c' w w' e f m h =
      undo_failed c' w' e h
      ∙ ap (λ l. rollback_commands sleep (reverse (take (suc c'.step) l)) c' w') f.same_commands
      ∙ f.restores e h c' (ap rounds f.same_max ∙ m)

  run_and_undo_restores :
      (c : Chain W V E) (w : W) (n : ℕ) (e : E)
      → rounds c.max_retry_on_error ≡ suc n
      → c.err ≡ none
      → c.rollback_err ≡ none
      → AllUndoable c.commands
      → (run_and_undo sleep c w).1 ≡ some (from_runner e)
      → ((run_and_undo sleep c w).2 ≡ w) × ((run_and_undo sleep c w).0.rollback_err ≡ none)
  unfolding run_and_undo
  run_and_undo_restores c w n e m q b u h =
      let c1 : Chain W V E = record c { done = true; step = 0 } in
      let (c2, w2) = run_commands sleep c1.commands 0 c1 w in
      let f : Forward n c1.commands w c1 c2 w2 =
        run_commands-Forward n w [] c1.commands 0 c1 w refl m q u
          (λ _ _. unfold rollback_commands in refl) in
      elim (Option-cases c2.err) [
        | inl e0 ↦ absurd (unfold undo in ground arith)
        | inr (x, e0) ↦ rw (undo_restores n c1 c2 w w2 x f m e0) (refl, f.same_rollback_err ∙ b)
      ]

  -- If every Rollback undoes what attempts of its Run have done, a chain with no negative number
  -- of retries that fails in a Runner leaves the world as it was before Execute, and reports no
  -- error of a rollback.
  pub execute_restores :
      (c : Chain W V E) (w : W) (n : ℕ) (e : E)
      → c.max_retry_on_error ≡ pos n
      → c.err ≡ none
      → c.rollback_err ≡ none
      → AllUndoable c.commands
      → (setup c).1 ≡ none
      → (execute sleep c w).1 ≡ some (from_runner e)
      → ((execute sleep c w).2 ≡ w) × ((execute sleep c w).0.rollback_err ≡ none)
  execute_restores c w n e m q b u s h =
      let passed = execute_passed sleep c w s in
      elim (Bool-cases (ltb n (2 ^ 63 - 1))) [
        | inl p ↦
            let k = ap rounds (setup-max c ∙ m) ∙ rounds_pos n (ltb→lt n (2 ^ 63 - 1) p) in
            rw passed (
              run_and_undo_restores (setup c).0 w n e k (setup-err c ∙ q) (setup-rollback_err c ∙ b)
                (subst AllUndoable (sym (setup-commands c)) u) (rw passed at h))
        | inr p ↦
            let unrun = execute_no_round sleep c w (ap rounds m ∙ rounds_wrapped n p) q s in
            absurd (ground arith)
      ]
