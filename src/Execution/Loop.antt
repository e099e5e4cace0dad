-- ===== src/Execution/Loop.antt =====
-- The loop over a plan in ExecutionController::run (src/execution/controller.cpp). The plan is the
-- list of its instructions, first one first.
pub mod Iteration
pub mod Outcome
pub mod Program
pub mod Ready
pub mod Tests
use mathlib.Core.List.{reverse}
use gologpp.Prelude.{
  ℕ, zero, suc, Bool, true, false, not, Option, none, some, List, [], ◌∷◌, if◌then◌else◌,
}
use gologpp.Error.{Error, Result, ok, err, bug, terminate, exog_timeout, null_dereference, ◌>>=◌}
use gologpp.Plan.{TimedInstruction, Durations, make_start_slack}
use gologpp.Plan.Time.{TimeModel}

-- What the loop calls, over a state `W` that holds all that the calls read and change: the history,
-- the queue, the components, the clock, and what other threads do to them.
pub record Services (time : TimeModel) (W R I : Type 0) : Type 0 where
  pub set_silent : W → W
  pub terminated : W → Bool
  pub exog_empty : W → Bool
  pub drain_exog_queue : W → W
  -- Whether it throws, and the state after the wait in either case.
  pub drain_exog_queue_blocking : time.T → W → Result (Unit {0}) × W
  pub exog_timer_wakeup : W → W
  -- any_component_state_changed_exog
  pub changed_exog : W → Bool × W
  pub transform :
      List (TimedInstruction time.T R I) → W → Result (List (TimedInstruction time.T R I) × W)
  pub context_time : W → time.T
  -- The two readings of the clock by `make_start_slack`.
  pub clock : W → time.T × time.T
  pub schedule_timer_event : time.T → W → W
  -- `trans` of the instruction: no plan, or a plan and whether it is empty.
  pub trans : TimedInstruction time.T R I → W → Result (Option Bool × W)
  -- `handle_missed_transition` of the component, if the instruction is a `switch_state`.
  pub handle_missed : TimedInstruction time.T R I → W → Result W
  -- `progress`, if `should_progress`.
  pub progress : W → W

module _ (time : TimeModel) {W R I : Type 0} (env : Durations time.T R) (s : Services time W R I)
    (tenth : time.T) where
  abbrev pub TimedPlan : Type 0
  TimedPlan = List (TimedInstruction time.T R I)

  -- The plan is transformed again if a drain shows that a component has changed.
  unfoldable pub refresh : TimedPlan → W → Result (TimedPlan × W)
  refresh plan w =
      if s.exog_empty w
      then ok (plan, w)
      else (let (changed, w') = s.changed_exog (s.drain_exog_queue w) in
          if changed then s.transform plan w' else ok (plan, w'))

  -- The first instruction is tried when it is due.
  unfoldable pub attempt : TimedInstruction time.T R I → W → Result (Option Bool × W)
  attempt i w =
      if not (time.le i.earliest (s.context_time w))
      then ok (none, s.schedule_timer_event i.earliest w)
      else s.trans i w

  -- What follows the wait, with the handler of ExogTimeout.
  unfoldable pub after_wait : TimedInstruction time.T R I → Result (Unit {0}) × W → Result W
  after_wait i (ok done, w) = ok w
  after_wait i (err exog_timeout, w) =
      s.handle_missed i (s.exog_timer_wakeup w) >>= λ v. ok (s.drain_exog_queue v)
  after_wait i (err x, w) = err x

  -- The wait for an exogenous event.
  unfoldable pub await : TimedInstruction time.T R I → W → Result W
  await i w = after_wait i (s.drain_exog_queue_blocking (time.add i.latest tenth) w)

  -- Whether the window of the first instruction has passed or a component has changed.
  unfoldable pub is_stale : TimedInstruction time.T R I → W → Bool × W
  is_stale i w = if not (time.le (s.context_time w) i.latest) then (true, w) else s.changed_exog w

  unfoldable pub replan : TimedPlan → W → Result (TimedPlan × W)
  replan plan w =
      let (now, now') = s.clock w in
      elim (make_start_slack time env (time.seconds 16384) now now' plan) [
        | none ↦ err null_dereference
        | some p ↦ s.transform (reverse p) w
      ]

  -- What follows an instruction that was not executed.
  unfoldable pub postpone : TimedInstruction time.T R I → TimedPlan → W → Result (TimedPlan × W)
  postpone i plan w = do
    w' ← await i w
    let (stale, w'') = is_stale i w'
    if stale then replan plan w'' else ok (plan, w'')

  unfoldable pub conclude_attempt :
      TimedInstruction time.T R I → TimedPlan → Option Bool → W → Result (TimedPlan × W)
  conclude_attempt i rest (some true) w = ok (rest, w)
  conclude_attempt i rest (some false) w = err bug
  conclude_attempt i rest none w = postpone i (i ∷ rest) w

  -- The rest of the body, on the refreshed plan. `front()` of an empty plan is undefined.
  unfoldable pub attempt_front : TimedPlan → W → Result (TimedPlan × W)
  attempt_front [] w = err null_dereference
  attempt_front (i ∷ rest) w = do
    (empty_plan, w') ← attempt i w
    (plan, w'') ← conclude_attempt i rest empty_plan w'
    ok (plan, s.progress w'')

  -- The body of the loop.
  unfoldable pub iterate : TimedPlan → W → Result (TimedPlan × W)
  iterate plan w =
      let w1 = s.set_silent w in
      if s.terminated w1 then err terminate else refresh plan w1 >>= λ p. attempt_front p.0 p.1

  -- The loop, on fuel: it need not end, since an instruction may be tried for ever.
  unfoldable pub plan_loop : ℕ → TimedPlan → W → Option (Result W)
  plan_loop fuel [] w = some (ok w)
  plan_loop zero (i ∷ rest) w = none
  plan_loop (suc fuel) (i ∷ rest) w = elim (iterate (i ∷ rest) w) [
    | err x ↦ some (err x)
    | ok (plan, w') ↦ plan_loop fuel plan w'
  ]
