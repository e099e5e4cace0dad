-- ===== src/Execution/Loop/Tests.antt =====
-- The theorems on the loop over a plan at a plan of two instructions, on a platform where nothing
-- happens: the state is the number of instructions that were executed, and it is always second 10.
use gologpp.Prelude.{leb, ℕ, zero, suc, ◌-◌, ◌≤◌, ◌≡◌, refl, true, false, some, [], ◌∷◌, eqb, arith}
use gologpp.Error.{ok, err, exog_timeout}
use gologpp.Plan.{other, TimedInstruction, Durations}
use gologpp.Plan.Time.{whole_seconds}
use gologpp.Execution.Loop.{
  Services, refresh, attempt, conclude_attempt, attempt_front, iterate, plan_loop,
}
use gologpp.Execution.Loop.Iteration.{Outcome, early, timed_out}
use gologpp.Execution.Loop.Outcome.{iterate-Outcome}
use gologpp.Execution.Loop.Program.{
  Program, finished, follow, program_step, program_loop, catch_terminate, run,
}
use gologpp.Execution.Loop.Program.Laws.{run-Runs}
use gologpp.Execution.Loop.Program.Runs.{Runs}
use gologpp.Execution.Loop.Ready.{IsReady, executes, waits, no_event, Executed, plan_loop-IsReady}

abbrev at_once : TimedInstruction ℕ ℕ ℕ
at_once = record { instruction = other 0; earliest = 10; latest = 12; timepoints_default = false }

abbrev durations : Durations ℕ ℕ
durations = record { same = eqb; duration = λ r. record { min = 2; max = 5 } }

abbrev quiet : Services whole_seconds ℕ ℕ ℕ
quiet = record {
  set_silent = λ w. w;
  terminated = λ w. false;
  exog_empty = λ w. true;
  drain_exog_queue = λ w. w;
  drain_exog_queue_blocking = λ t w. (err exog_timeout, w);
  exog_timer_wakeup = λ w. w;
  changed_exog = λ w. (false, w);
  transform = λ p w. ok (p, w);
  context_time = λ w. 10;
  clock = λ w. (10, 10);
  schedule_timer_event = λ t w. w;
  trans = λ i w. ok (some true, suc w);
  handle_missed = λ i w. ok w;
  progress = λ w. w;
}

iterates : iterate whole_seconds durations quiet 0 (at_once ∷ at_once ∷ []) 0 ≡ ok (at_once ∷ [], 1)
unfolding iterate refresh attempt_front attempt conclude_attempt
iterates = refl

iterate-Outcome_example :
    Outcome whole_seconds durations quiet 0 (at_once ∷ at_once ∷ []) 0 (at_once ∷ []) 1
iterate-Outcome_example =
    (iterate-Outcome whole_seconds durations quiet 0 (at_once ∷ at_once ∷ []) (at_once ∷ []) 0 1).0
      iterates

-- The clock is the number of instructions that were executed and of waits that timed out, and the
-- instructions may start at second 1.
abbrev waiting : Services whole_seconds ℕ ℕ ℕ
waiting = record {
  set_silent = λ w. w;
  terminated = λ w. false;
  exog_empty = λ w. true;
  drain_exog_queue = λ w. w;
  drain_exog_queue_blocking = λ t w. (err exog_timeout, suc w);
  exog_timer_wakeup = λ w. w;
  changed_exog = λ w. (false, w);
  transform = λ p w. ok (p, w);
  context_time = λ w. w;
  clock = λ w. (w, w);
  schedule_timer_event = λ t w. w;
  trans = λ i w. ok (some true, w);
  handle_missed = λ i w. ok w;
  progress = λ w. w;
}

abbrev after_one : TimedInstruction ℕ ℕ ℕ
after_one = record { instruction = other 0; earliest = 1; latest = 12; timepoints_default = false }

-- The clock shows second 0 or 1.
abbrev IsEarly : ℕ → Type 0
IsEarly w = w ≤ 1

ready :
    (w : ℕ) → IsEarly w → IsReady whole_seconds durations waiting 0 IsEarly (λ v. 1 - v) after_one w
ready zero g =
    waits 0 0 1 1 refl (no_event refl refl) (early refl refl) (timed_out 1 1 refl refl refl) refl
      refl (omega arith) (omega arith)
ready (suc zero) g = executes 1 1 refl (no_event refl refl) refl refl (omega arith)
ready (suc (suc w)) g = absurd (omega arith)

plan_loop-IsReady_example :
    (fuel : ℕ) × (w : ℕ) × (plan_loop whole_seconds durations waiting 0 fuel
        (after_one ∷ after_one ∷ [])
        0
      ≡ some (ok w))
    × Executed whole_seconds durations waiting 0 (after_one ∷ after_one ∷ []) 0 w
    × IsEarly w
plan_loop-IsReady_example =
    plan_loop-IsReady whole_seconds durations waiting 0 IsEarly (λ v. 1 - v)
      (after_one ∷ after_one ∷ []) 0 (ready, (ready, tt)) (omega arith)

-- A program of one instruction at a time, until two were executed.
abbrev two_steps : Program whole_seconds ℕ ℕ ℕ
two_steps = record {
  final = λ w. (leb 2 w, w);
  trans = λ w. ok (some (at_once ∷ []), w);
  drain_exog_queue_blocking = λ w. ok w;
}

runs : run whole_seconds durations quiet 0 two_steps 3 0 ≡ some (finished 2)
unfolding run program_loop program_step follow plan_loop iterate refresh attempt_front attempt
    conclude_attempt catch_terminate
runs = refl

run-Runs_example : Runs whole_seconds durations quiet 0 two_steps 0 (finished 2)
run-Runs_example = (run-Runs whole_seconds durations quiet 0 two_steps 0 (finished 2)).0 (3, runs)
