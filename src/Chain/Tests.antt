-- ===== src/Chain/Tests.antt =====
-- Runs of small chains, and the theorems at concrete inputs.
use common_host_libs.Prelude.{
  ℕ, suc, ◌+◌, ◌-◌, ◌≡◌, ◌≢◌, ◌↔◌, refl, false, List, [], ◌∷◌, Option, none, some, String, arith,
}
use common_host_libs.Prelude.Int.{ℤ, pos, negsuc}
use common_host_libs.Chain.{
  Runner, from_runner, Chain, new_chain, append_runner, get_runner_output, reserve, setup, rounds,
  run_rounds, run_with_retry, rollback_rounds, rollback_with_retry, run_commands, rollback_commands,
  undo, run_and_undo, execute,
}
use common_host_libs.Chain.Setup.{Distinct, names, setup_iff}
use common_host_libs.Chain.Rollback.{IsUndoable, execute_restores}
use common_host_libs.Chain.Outputs.{AllProduced, execute-Produced}

-- The world counts what exists; a sleep leaves it alone.
abbrev no_sleep : ℤ → ℕ → ℕ
no_sleep d w = w

-- Creates two things, and removes them on rollback.
abbrev creator : String → Runner ℕ ℕ String
creator name = record {
  name = name;
  run = λ o w. record { out = some w; err = none; world = w + 2 };
  rollback = λ o w. record { err = none; world = w - 2 };
}

-- Fails before it has done anything.
abbrev refuser : Runner ℕ ℕ String
refuser = record {
  name = "refuse";
  run = λ o w. record { out = none; err = some "refused"; world = w };
  rollback = λ o w. record { err = none; world = w };
}

abbrev chain_of : ℤ → List (Option (Runner ℕ ℕ String)) → Chain ℕ ℕ String
chain_of retries cs = record {
  max_retry_on_error = retries;
  sleep_before_retry = pos 1;
  commands = cs;
  output = [];
  step = 0;
  err = none;
  rollback_err = none;
  done = false;
}

abbrev good : Chain ℕ ℕ String
good = chain_of (pos 1) (some (creator "a") ∷ none ∷ some (creator "b") ∷ [])

abbrev bad : Chain ℕ ℕ String
bad = chain_of (pos 2) (some (creator "a") ∷ none ∷ some refuser ∷ some (creator "b") ∷ [])

abbrev clashing : Chain ℕ ℕ String
clashing = chain_of (pos 0) (some (creator "a") ∷ some (creator "a") ∷ [])

abbrev never : Chain ℕ ℕ String
never = chain_of (negsuc 0) (some (creator "a") ∷ [])

execute-good :
    let (c, e, w) = execute no_sleep good 5 in
    (e ≡ none) × (w ≡ 9) × (get_runner_output c "b" ≡ some 7) × (get_runner_output c "z" ≡ none)
unfolding execute setup reserve run_and_undo run_commands run_with_retry rounds run_rounds undo
    get_runner_output
execute-good = (refl, refl, refl, refl)

execute-bad :
    let (c, e, w) = execute no_sleep bad 5 in
    (e ≡ some (from_runner "refused")) × (w ≡ 5) × (c.step ≡ 2) × (c.rollback_err ≡ none)
unfolding execute setup reserve run_and_undo run_commands run_with_retry rounds run_rounds undo
    rollback_commands rollback_with_retry rollback_rounds
execute-bad = (refl, refl, refl, refl)

appended :
    (append_runner
      (new_chain {W = ℕ} {V = ℕ} {E = String} (pos 1) (pos 1))
      (some refuser)).0.commands
    ≡ some refuser ∷ []
unfolding append_runner new_chain
appended = refl

setup_iff_example : ((setup good).1 ≡ none) ↔ Distinct (names good.commands)
setup_iff_example = setup_iff good refl refl

good_is_ready : (setup good).1 ≡ none
unfolding setup reserve
good_is_ready = refl

clashing_is_refused : (setup clashing).1 ≢ none
unfolding setup reserve
clashing_is_refused h = absurd (ground arith)

-- Fails below 3, and every attempt adds 1.
abbrev third_time : Runner ℕ ℕ String
third_time = record {
  name = "third";
  run = λ o w. record {
    out = some w;
    err = elim w [ suc (suc n) ↦ none | _ ↦ some "early" ];
    world = w + 1;
  };
  rollback = λ o w. record { err = none; world = w };
}

never_is_ready : (setup never).1 ≡ none
unfolding setup reserve
never_is_ready = refl

-- The Runners above do nothing in an attempt that fails.
abbrev Untouched : Runner ℕ ℕ String → ℕ → ℕ → Type 0
Untouched r w u = u ≡ w

creator-IsUndoable : (name : String) → IsUndoable no_sleep Untouched (creator name)
creator-IsUndoable name = record {
  untried = λ w. refl;
  retried = λ o d w u e h x. cc;
  undoes_success = λ o o' w u h x. ground arith;
  undoes_failure = λ o o' d w u e h x. cc;
}

refuser-IsUndoable : IsUndoable no_sleep Untouched refuser
refuser-IsUndoable = record {
  untried = λ w. refl;
  retried = λ o d w u e h x. h;
  undoes_success = λ o o' w u h x. cc;
  undoes_failure = λ o o' d w u e h x. ground arith;
}

bad_is_ready : (setup bad).1 ≡ none
unfolding setup reserve
bad_is_ready = refl

execute_restores_example :
    ((execute no_sleep bad 5).2 ≡ 5) × ((execute no_sleep bad 5).0.rollback_err ≡ none)
execute_restores_example =
    execute_restores no_sleep Untouched bad 5 2 "refused" refl refl refl
      (creator-IsUndoable "a", (refuser-IsUndoable, (creator-IsUndoable "b", tt))) bad_is_ready
      execute-bad.0

execute-Produced_example :
    Distinct (names good.commands) × AllProduced no_sleep (execute no_sleep good 5).0 good.commands
execute-Produced_example =
    execute-Produced no_sleep good 5 1 refl (omega arith) refl refl execute-good.0
