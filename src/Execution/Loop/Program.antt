-- ===== src/Execution/Loop/Program.antt =====
-- The outer loop of ExecutionController::run (src/execution/controller.cpp), over the program's
-- semantics.
pub mod Runs
pub mod Laws
use gologpp.Prelude.{ℕ, zero, suc, Bool, true, false, Option, none, some, List}
use gologpp.Error.{Error, Result, ok, err, terminate}
use gologpp.Plan.{TimedInstruction, Durations}
use gologpp.Plan.Time.{TimeModel}
use gologpp.Execution.Loop.{Services, plan_loop}

-- The program's `final` and `trans`, and the wait without a time limit.
pub record Program (time : TimeModel) (W R I : Type 0) : Type 0 where
  pub final : W → Bool × W
  pub trans : W → Result (Option (List (TimedInstruction time.T R I)) × W)
  pub drain_exog_queue_blocking : W → Result W

-- How `run` ends: by itself, by Terminate, which it catches, or by another exception.
pub data Ending (W : Type 0) : Type 0 where
  finished : W → Ending W
  stopped : Ending W
  threw : Error → Ending W

module _ (time : TimeModel) {W R I : Type 0} (env : Durations time.T R) (s : Services time W R I)
    (tenth : time.T) (p : Program time W R I) where
  -- What follows `trans` of the program.
  unfoldable pub follow : ℕ → Option (List (TimedInstruction time.T R I)) → W → Option (Result W)
  follow fuel none w = some (p.drain_exog_queue_blocking w)
  follow fuel (some plan) w = elim (s.transform plan w) [
    | err x ↦ some (err x)
    | ok (plan', w') ↦ plan_loop time env s tenth fuel plan' w'
  ]

  unfoldable pub program_step : ℕ → W → Option (Result W)
  program_step fuel w = elim (p.trans (s.set_silent w)) [
    | err x ↦ some (err x)
    | ok (plan, w') ↦ follow fuel plan w'
  ]

  unfoldable pub program_loop : ℕ → W → Option (Result W)
  program_loop zero w = none
  program_loop (suc fuel) w =
      let (final, v) = p.final w in
      elim final [
        | true ↦ some (ok v)
        | false ↦ elim (program_step fuel v) [
          | none ↦ none
          | some (err x) ↦ some (err x)
          | some (ok w') ↦ elim (s.terminated w') [
            | true ↦ some (err terminate)
            | false ↦ program_loop fuel w'
          ]
        ]
      ]

  -- The handlers of `run`.
  unfoldable pub catch_terminate : Result W → Ending W
  catch_terminate (ok w) = finished w
  catch_terminate (err terminate) = stopped
  catch_terminate (err x) = threw x

  unfoldable pub run : ℕ → W → Option (Ending W)
  run fuel w = elim (program_loop fuel w) [ none ↦ none | some r ↦ some (catch_terminate r) ]
