-- ===== src/Execution/Run/Tests.antt =====
-- Runs of the controller on one action, and the theorems at them. References and exogenous actions
-- are numbers, a reference is its own hash, and every precondition holds.
use gologpp.Prelude.{
  assign, ℕ, ◌≡◌, ◌≢◌, ◌↔◌, refl, true, false, some, none, [], ◌∷◌, ◌++◌, lookup, nat_eq, arith,
  if◌then◌else◌, ◌==◌,
}
use mathlib.Core.List.{reverse}
use gologpp.Error.{ok, err, user_error, bug}
use gologpp.Execution.Activity.{start, end, cancel, running, cancelled, target_state}
use gologpp.Execution.Backend.{execute, current_state, init, start_activity, set_state}
use gologpp.Execution.Backend.Heap.{IsValid}
use gologpp.Execution.Context.{activity, transition, state_change, Context, Actions}
use gologpp.Execution.Transition.{trans, update, dispatch, conclude}
use gologpp.Execution.Transition.Enabled.{at, trans-states, trans_no_error, trans-start_throws}
use gologpp.Execution.Controller.{drain_exog_queue}
use gologpp.Execution.Controller.Drain.{drain_exog_queue_lem}
use gologpp.Execution.Run.{Step, Reach, here, next, report, empty, Reach-IsValid}
use gologpp.Execution.Run.Brackets.{Reach-IsBalanced, IsBalanced}
use gologpp.Execution.Run.Stuck.{Control, Control-cancelled}

abbrev env : Actions ℕ ℕ
env = record {
  hash = λ r. r;
  silent = λ r. false;
  exog_silent = λ x. false;
  senses = λ r. false;
  precondition = λ r h. true;
}

abbrev nothing : Context ℕ ℕ
nothing = empty env

abbrev started : Context ℕ ℕ
started = record {
  backend = record {
    objects = record { reference = 7; state = running } ∷ [];
    activities = (7, 0) ∷ [];
    requests = execute 0 ∷ [];
  };
  queue = [];
  history = transition (at env 7 start) ∷ [];
  silent = false;
}

-- The platform has reported that the activity of `started` was cancelled.
abbrev stopped : Context ℕ ℕ
stopped = record {
  backend = record {
    objects = record { reference = 7; state = cancelled } ∷ [];
    activities = (7, 0) ∷ [];
    requests = execute 0 ∷ [];
  };
  queue = activity 0 ∷ [];
  history = transition (at env 7 start) ∷ [];
  silent = false;
}

start_runs : trans env (at env 7 start) nothing ≡ ok (some started)
unfolding trans dispatch conclude init start_activity current_state lookup assign
start_runs = refl

report_runs : stopped ≡ update 0 cancel started
unfolding update set_state target_state
report_runs = refl

end_blocked : trans env (at env 7 end) stopped ≡ ok none
unfolding trans dispatch conclude current_state lookup
end_blocked = refl

run_started : Reach env nothing started
run_started = next here (Step.execute (at env 7 start) start_runs)

run_stopped : Reach env nothing stopped
run_stopped = next run_started (report 0 cancel (omega arith) report_runs)

Reach-IsBalanced_example : IsBalanced env 7 stopped
Reach-IsBalanced_example = Reach-IsBalanced env 7 run_stopped

started-IsValid : IsValid env.hash started.backend
started-IsValid = Reach-IsValid env run_started

stopped-IsValid : IsValid env.hash stopped.backend
stopped-IsValid = Reach-IsValid env run_stopped

nothing-IsValid : IsValid env.hash nothing.backend
nothing-IsValid = Reach-IsValid env {c = nothing} here

trans-states_example :
    IsValid env.hash started.backend
    × ((r : ℕ)
        → current_state env.hash started.backend r
          ≡ (if 7 == r then running else current_state env.hash nothing.backend r))
    × (started.history ≡ transition (at env 7 start) ∷ [])
    × (started.queue ≡ [])
trans-states_example = trans-states env (at env 7 start) nothing started nothing-IsValid start_runs

trans_no_error_example : trans env (at env 7 end) stopped ≢ err bug
trans_no_error_example = trans_no_error env (at env 7 end) stopped bug (λ e. cc)

trans-start_throws_example : (trans env (at env 7 start) stopped ≡ err user_error) ↔ (
    (env.precondition 7 stopped.history ≡ true)
    × (lookup 7 stopped.backend.activities ≢ none)
    × (current_state env.hash stopped.backend 7 ≢ running))
trans-start_throws_example = trans-start_throws env 7 stopped

stopped_state : current_state env.hash stopped.backend 7 ≡ cancelled
unfolding current_state lookup
stopped_state = refl

abbrev waiting : Context ℕ ℕ
waiting = drain_exog_queue env stopped

waiting-Control : Control env stopped waiting
waiting-Control = Control.drain Control.here

Control-cancelled_example :
    IsValid env.hash waiting.backend × (current_state env.hash waiting.backend 7 ≡ cancelled)
Control-cancelled_example = Control-cancelled env 7 stopped-IsValid stopped_state waiting-Control

drain_exog_queue_example :
    ((drain_exog_queue env stopped).queue ≡ [])
    × ((drain_exog_queue env stopped).history
        ≡ reverse (state_change 7 cancelled ∷ []) ++ stopped.history)
    × ((drain_exog_queue env stopped).backend ≡ stopped.backend)
drain_exog_queue_example = drain_exog_queue_lem env stopped
