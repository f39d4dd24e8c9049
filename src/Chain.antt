-- ===== src/Chain.antt =====
-- chain/chain.go: a Chain of Runners that is executed once, with retries and with rollback.
-- What a Runner touches is a world `W`. A Runner may read the outputs of the chain that it stands
-- in (GetRunnerOutput), so `run` and `rollback` are given the output map. `interface{}` is an
-- `Option V` with `none` for nil; an `error` is an `Option`. time.Sleep is the parameter `sleep`.
-- runLock is held by AppendRunner and Execute from start to end: each is one step here.
pub mod Steps
pub mod Setup
pub mod Retry
pub mod Rollback
pub mod Outputs
mod Tests
use common_host_libs.Prelude.{
  ℕ, zero, suc, ◌-◌, ◌^◌, ◌<◌, ◌≡◌, refl, arith, ltb, Bool, true, false, List, [], ◌∷◌, ◌++◌,
  reverse, Option, none, some, String, Dict, lookup, insert, take, is_some, if◌then◌else◌,
}
use common_host_libs.Prelude.Int.{ℤ, pos, negsuc}

-- The output map of a chain.
abbrev pub Outputs : Type 0 → Type 0
Outputs V = Dict (Option V)

-- What one Run() gives: the returned value, the returned error and the world after it.
pub record Ran (W V E : Type 0) : Type 0 where
  pub out : Option V
  pub err : Option E
  pub world : W

-- What one Rollback() gives.
pub record RolledBack (W E : Type 0) : Type 0 where
  pub err : Option E
  pub world : W

pub record Runner (W V E : Type 0) : Type 0 where
  pub name : String
  pub run : Outputs V → W → Ran W V E
  pub rollback : Outputs V → W → RolledBack W E

-- The errors of AppendRunner and Execute: the chain's own two, or a Runner's.
pub data ChainError (E : Type 0) : Type 0 where
  already_executed : ChainError E
  not_unique : String → ChainError E
  from_runner : E → ChainError E

pub record Chain (W V E : Type 0) : Type 0 where
  pub max_retry_on_error : ℤ
  pub sleep_before_retry : ℤ
  pub commands : List (Option (Runner W V E))
  pub output : Outputs V
  pub step : ℕ
  pub err : Option E
  pub rollback_err : Option E
  pub done : Bool

abbrev from_runner_err : {E : Type 0} → Option E → Option (ChainError E)
from_runner_err none = none
from_runner_err (some e) = some (from_runner e)

-- How often `for try := 0; try < maxRetryOnError+1; try++` goes round, for an int of 64 bits: the sum
-- wraps around at the largest one.
pub rounds : ℤ → ℕ
rounds (pos n) = if ltb n (2 ^ 63 - 1) then suc n else 0
rounds (negsuc n) = 0

pub rounds_pos : (n : ℕ) → n < 2 ^ 63 - 1 → rounds (pos n) ≡ suc n
unfolding rounds
rounds_pos n h = ground (arith, h)

pub rounds_wrapped : (n : ℕ) → ltb n (2 ^ 63 - 1) ≡ false → rounds (pos n) ≡ 0
unfolding rounds
rounds_wrapped n h = rw h refl

module _ {W V E : Type 0} where
  pub new_chain : ℤ → ℤ → Chain W V E
  new_chain retries retry_sleep = record {
    max_retry_on_error = retries;
    sleep_before_retry = retry_sleep;
    commands = [];
    output = [];
    step = 0;
    err = none;
    rollback_err = none;
    done = false;
  }

  pub append_runner : Chain W V E → Option (Runner W V E) → Chain W V E × Option (ChainError E)
  append_runner c cmd =
      if c.done
      then (c, some already_executed)
      else (record c { commands = c.commands ++ (cmd ∷ []) }, none)

  -- `interface{}` has one nil, for a missing name and for a nil output.
  pub get_runner_output : Chain W V E → String → Option V
  get_runner_output c name = elim (lookup name c.output) [ none ↦ none | some v ↦ v ]

  -- `if err != nil { c.rollbackErr = err }`
  abbrev pub note_rollback : Chain W V E → Option E → Chain W V E
  note_rollback c none = c
  note_rollback c (some e) = record c { rollback_err = some e }

  -- After command `i` has run: `c.step = step` and `c.output[command.Name()] = out`.
  abbrev pub completed : Chain W V E → ℕ → Runner W V E → Option V → Chain W V E
  completed c i r out = record c { step = i; output = insert r.name out c.output }

  -- The loop of setup over the commands: a placeholder for each name, up to the first clash.
  pub reserve : List (Option (Runner W V E)) → Outputs V → Outputs V × Option (ChainError E)
  reserve [] out = (out, none)
  reserve (none ∷ cs) out = reserve cs out
  reserve (some r ∷ cs) out =
      let rest = reserve cs (insert r.name none out) in
      if is_some (lookup r.name out) then (out, some (not_unique r.name)) else rest

  pub setup : Chain W V E → Chain W V E × Option (ChainError E)
  setup c =
      if c.done
      then (c, some already_executed)
      else (let (out, e) = reserve c.commands c.output in (record c { output = out }, e))

module _ {W V E : Type 0} (sleep : ℤ → W → W) where
  -- The loop of runWithRetry, with the values of its results so far.
  pub run_rounds : ℕ → ℤ → Runner W V E → Outputs V → Option V → Option E → W → Ran W V E
  run_rounds zero d r outs out err w = record { out = out; err = err; world = w }
  run_rounds (suc n) d r outs out err w =
      let now = r.run outs w in
      elim now.err [
        | none ↦ now
        | some e ↦ run_rounds n d r outs now.out (some e) (sleep d now.world)
      ]

  pub run_with_retry : Chain W V E → Runner W V E → W → Ran W V E
  unfolding rounds
  run_with_retry c r w =
      run_rounds (rounds c.max_retry_on_error) c.sleep_before_retry r c.output none none w

  pub rollback_rounds : ℕ → ℤ → Runner W V E → Outputs V → Option E → W → RolledBack W E
  rollback_rounds zero d r outs err w = record { err = err; world = w }
  rollback_rounds (suc n) d r outs err w =
      let now = r.rollback outs w in
      elim now.err [ none ↦ now | some e ↦ rollback_rounds n d r outs (some e) (sleep d now.world) ]

  pub rollback_with_retry : Chain W V E → Runner W V E → W → RolledBack W E
  unfolding rounds
  rollback_with_retry c r w =
      rollback_rounds (rounds c.max_retry_on_error) c.sleep_before_retry r c.output none w

  -- The first loop of Execute, from command `i`. runWithRetry begins with `c.step = step`.
  pub run_commands : List (Option (Runner W V E)) → ℕ → Chain W V E → W → Chain W V E × W
  run_commands [] i c w = (c, w)
  run_commands (none ∷ cs) i c w = run_commands cs (suc i) c w
  run_commands (some r ∷ cs) i c w =
      let ran = run_with_retry (record c { step = i }) r w in
      elim ran.err [
        | some e ↦ (record c { step = i; err = some e }, ran.world)
        | none ↦ run_commands cs (suc i) (completed c i r ran.out) ran.world
      ]

  -- The second loop of Execute, over the commands in the order in which they are rolled back.
  pub rollback_commands : List (Option (Runner W V E)) → Chain W V E → W → Chain W V E × W
  rollback_commands [] c w = (c, w)
  rollback_commands (none ∷ cs) c w = rollback_commands cs c w
  rollback_commands (some r ∷ cs) c w =
      let back = rollback_with_retry c r w in
      rollback_commands cs (note_rollback c back.err) back.world

  -- `if c.err != nil { … }`: commands[:step+1], the last one first.
  pub undo : Chain W V E → W → Chain W V E × W
  undo c w = elim c.err [
    | none ↦ (c, w)
    | some e ↦ rollback_commands (reverse (take (suc c.step) c.commands)) c w
  ]

  -- Execute behind its setup.
  pub run_and_undo : Chain W V E → W → Chain W V E × Option (ChainError E) × W
  run_and_undo c w =
      let (c1, w1) = run_commands c.commands 0 (record c { done = true; step = 0 }) w in
      let (c2, w2) = undo c1 w1 in (c2, from_runner_err c2.err, w2)

  pub execute : Chain W V E → W → Chain W V E × Option (ChainError E) × W
  execute c w =
      let (c1, e) = setup c in elim e [ some e ↦ (c1, some e, w) | none ↦ run_and_undo c1 w ]
