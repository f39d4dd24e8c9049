-- ===== src/Chain/Retry.antt =====
-- chain/chain.go: runWithRetry and rollbackWithRetry, as a choice among the attempts.
use common_host_libs.Prelude.{
  ℕ, ap, true, List, [], ◌∷◌, zero, suc, ◌<◌, ◌≡◌, ◌≢◌, refl, ◌∙◌, Option, none, some, arith,
  Option-cases, inl, inr,
}
use common_host_libs.Prelude.Int.{ℤ}
use common_host_libs.Chain.{
  Ran, Runner, Chain, rounds, run_rounds, run_with_retry, run_commands, completed, setup, execute,
  run_and_undo, undo,
}
use common_host_libs.Chain.Steps.{ran_at, run_commands-ok}
use common_host_libs.Chain.Setup.{execute_passed, setup-max, setup-err}

module _ {W V E : Type 0} (sleep : ℤ → W → W) where
  -- The world before attempt `k` (from 0), when each attempt before it has failed: what the
  -- attempts and the sleeps after them leave.
  abbrev pub before : Chain W V E → Runner W V E → W → ℕ → W
  before c r w zero = w
  before c r w (suc k) = before c r (sleep c.sleep_before_retry (r.run c.output w).world) k

  -- What attempt `k` gives.
  abbrev pub attempt : Chain W V E → Runner W V E → W → ℕ → Ran W V E
  attempt c r w k = r.run c.output (before c r w k)

  -- Attempts 0 to `k - 1` fail.
  abbrev pub AllFail : Chain W V E → Runner W V E → W → ℕ → Type 0
  AllFail c r w zero = Unit
  AllFail c r w (suc k) =
      ((r.run c.output w).err ≢ none)
      × AllFail c r (sleep c.sleep_before_retry (r.run c.output w).world) k

  run_rounds_first :
      (c : Chain W V E) (r : Runner W V E) (k n : ℕ) (out : Option V) (err : Option E) (w : W)
      → AllFail c r w k
      → (attempt c r w k).err ≡ none
      → k < n
      → run_rounds sleep n c.sleep_before_retry r c.output out err w ≡ attempt c r w k
  unfolding run_rounds
  run_rounds_first c r k zero out err w f s h = elim h [ ]
  run_rounds_first c r zero (suc n) out err w f s h = rw (s, run_rounds)
  run_rounds_first c r (suc k) (suc n) out err w f s h =
      let now : Ran W V E = r.run c.output w in
      elim (Option-cases now.err) [
        | inl e ↦ absurd (f.0 e)
        | inr (x, e) ↦
            rw (e, run_rounds)
              (run_rounds_first c r k n now.out (some x) (sleep c.sleep_before_retry now.world) f.1
                s (omega arith))
      ]

  run_rounds-AllFail :
      (c : Chain W V E) (r : Runner W V E) (n : ℕ) (out : Option V) (err : Option E) (w : W)
      → AllFail c r w (suc n)
      → run_rounds sleep (suc n) c.sleep_before_retry r c.output out err w ≡ record {
        out = (attempt c r w n).out;
        err = (attempt c r w n).err;
        world = before c r w (suc n);
      }
  unfolding run_rounds
  run_rounds-AllFail c r zero out err w f =
      let now : Ran W V E = r.run c.output w in
      elim (Option-cases now.err) [ inl e ↦ absurd (f.0 e) | inr (x, e) ↦ rw (e, run_rounds) ]
  run_rounds-AllFail c r (suc n) out err w f =
      let now : Ran W V E = r.run c.output w in
      elim (Option-cases now.err) [
        | inl e ↦ absurd (f.0 e)
        | inr (x, e) ↦
            rw (e, run_rounds)
              (run_rounds-AllFail c r n now.out (some x) (sleep c.sleep_before_retry now.world) f.1)
      ]

  -- The first attempt that succeeds is the result, if the retries reach it: attempts 0 to
  -- `max_retry_on_error` are made.
  pub run_with_retry_first :
      (c : Chain W V E) (r : Runner W V E) (w : W) (k : ℕ)
      → AllFail c r w k
      → (attempt c r w k).err ≡ none
      → k < rounds c.max_retry_on_error
      → run_with_retry sleep c r w ≡ attempt c r w k
  unfolding run_with_retry
  run_with_retry_first c r w k f s h =
      run_rounds_first c r k (rounds c.max_retry_on_error) none none w f s h

  -- If the first attempt and all of its `n` retries fail, the result is that of the last attempt,
  -- and a sleep has followed each attempt, the last one included.
  pub run_with_retry_exhausted :
      (c : Chain W V E) (r : Runner W V E) (w : W) {n : ℕ}
      → rounds c.max_retry_on_error ≡ suc n
      → AllFail c r w (suc n)
      → run_with_retry sleep c r w ≡ record {
        out = (attempt c r w n).out;
        err = (attempt c r w n).err;
        world = before c r w (suc n);
      }
  unfolding run_with_retry
  run_with_retry_exhausted c r w {n} m f =
      ap (λ k. run_rounds sleep k c.sleep_before_retry r c.output none none w) m
      ∙ run_rounds-AllFail c r n none none w f

  run_with_retry_no_round :
      (c : Chain W V E) (r : Runner W V E) (w : W)
      → rounds c.max_retry_on_error ≡ 0
      → run_with_retry sleep c r w ≡ record { out = none; err = none; world = w }
  unfolding run_with_retry run_rounds
  run_with_retry_no_round c r w m =
      ap (λ k. run_rounds sleep k c.sleep_before_retry r c.output none none w) m

  run_commands_no_round :
      (cs : List (Option (Runner W V E))) (i : ℕ) (c : Chain W V E) (w : W)
      → rounds c.max_retry_on_error ≡ 0
      → ((run_commands sleep cs i c w).1 ≡ w) × ((run_commands sleep cs i c w).0.err ≡ c.err)
  unfolding run_commands
  run_commands_no_round [] i c w m = (refl, refl)
  run_commands_no_round (none ∷ cs) i c w m = run_commands_no_round cs (suc i) c w m
  run_commands_no_round (some r ∷ cs) i c w m =
      let none_ran = run_with_retry_no_round (record c { step = i }) r w m in
      let ran = ran_at sleep c i r w in
      let later = run_commands_no_round cs (suc i) (completed c i r ran.out) ran.world m in
      rw (run_commands-ok sleep r cs i c w (ap (λ (z : Ran W V E). z.err) none_ran))
        (later.0 ∙ ap (λ (z : Ran W V E). z.world) none_ran, later.1)

  -- A chain whose number of retries is negative, or wraps around, and that passes its setup runs no
  -- Runner at all, and reports success: the world is left as it was and no error is returned.
  pub execute_no_round :
      (c : Chain W V E) (w : W)
      → rounds c.max_retry_on_error ≡ 0
      → c.err ≡ none
      → (setup c).1 ≡ none
      → ((execute sleep c w).1 ≡ none) × ((execute sleep c w).2 ≡ w)
  execute_no_round c w m e h =
      let c1 : Chain W V E = record (setup c).0 { done = true; step = 0 } in
      let ran = run_commands_no_round c1.commands 0 c1 w (ap rounds (setup-max c) ∙ m) in
      rw (execute_passed sleep c w h) (unfold run_and_undo undo in ground (arith, ran, setup-err c))
