-- ===== src/Plan.antt =====
-- Timed plans (src/execution/plan.h, src/execution/plan.cpp): the time window of each instruction,
-- and how `append` and `make_start_slack` set it.
pub mod Time
pub mod Windows
pub mod Tests
use gologpp.Prelude.{
  Bool, true, false, Option, none, some, List, [], ◌∷◌, ◌++◌, ◌&&◌, find_if, if◌then◌else◌,
}
use gologpp.Execution.Activity.{Hook, start, hook_eq, is_ending}
use gologpp.Execution.Backend.{Transition}
use Time.{TimeModel, max_of}

-- An instruction of a plan, as far as `dynamic_cast<Transition *>` tells them apart.
pub data Instruction (R I : Type 0) : Type 0 where
  transition : Transition R → Instruction R I
  other : I → Instruction R I

pub record TimedInstruction (T : Type 0) (R I : Type 0) : Type 0 where
  pub instruction : Instruction R I
  pub earliest : T
  pub latest : T
  pub timepoints_default : Bool

-- Clock::DurationRange
pub record DurationRange (T : Type 0) : Type 0 where
  pub min : T
  pub max : T

-- What the model of the program gives: the equality of references and the durations of actions.
pub record Durations (T R : Type 0) : Type 0 where
  pub same : R → R → Bool
  pub duration : R → DurationRange T

module _ (time : TimeModel) {R I : Type 0} where
  open time use {T}

  -- TimedInstruction::TimedInstruction, at the two readings of the clock that it makes.
  unfoldable pub timed : Instruction R I → T → T → TimedInstruction T R I
  timed i now now' = record {
    instruction = i;
    earliest = now;
    latest = time.add now' (time.seconds 32767);
    timepoints_default = true;
  }

  unfoldable pub set_earliest : T → TimedInstruction T R I → TimedInstruction T R I
  set_earliest t i = record i { earliest = t; timepoints_default = false }

  unfoldable pub set_latest : T → TimedInstruction T R I → TimedInstruction T R I
  set_latest t i = record i { latest = t; timepoints_default = false }

  module _ (env : Durations T R) where
    -- The predicate of the search of `sanitize_time_window`: a START transition for the same
    -- reference.
    unfoldable pub starts : Transition R → TimedInstruction T R I → Bool
    unfolding hook_eq
    starts t i = elim i.instruction [
      | transition t' ↦ hook_eq t'.hook start && env.same t'.reference t.reference
      | other _ ↦ false
    ]

    -- The window of a FINISH, FAIL or END transition. `before` is the part of the plan in front of
    -- it, last instruction first, as the reverse search reads it.
    unfoldable pub end_window :
        List (TimedInstruction T R I)
        → Transition R
        → T
        → T
        → TimedInstruction T R I
        → TimedInstruction T R I
    unfolding set_earliest set_latest
    end_window before t prev_earliest prev_latest i = elim (find_if (starts t) before) [
      | none ↦
          set_latest (time.add prev_latest (env.duration t.reference).max)
            (set_earliest prev_earliest i)
      | some s ↦
          set_latest (max_of time (time.add s.latest (env.duration t.reference).max) prev_latest) (
            set_earliest
              (max_of time (time.add s.earliest (env.duration t.reference).min) prev_earliest) i)
    ]

    -- `prev_earliest` and `prev_latest`: the window of the instruction in front, or two readings of
    -- the clock.
    unfoldable pub previous : List (TimedInstruction T R I) → T → T → T × T
    previous [] now now' = (now, now')
    previous (p ∷ _) now now' = (p.earliest, p.latest)

    unfoldable pub sanitize_time_window :
        List (TimedInstruction T R I) → T → T → TimedInstruction T R I → TimedInstruction T R I
    unfolding end_window previous set_earliest set_latest is_ending
    sanitize_time_window before now now' i =
        let (prev_earliest, prev_latest) = previous before now now' in
        elim i.instruction [
          | other _ ↦ set_latest prev_latest (set_earliest prev_earliest i)
          | transition t ↦
              if is_ending t.hook
              then end_window before t prev_earliest prev_latest i
              else set_latest prev_latest (set_earliest prev_earliest i)
        ]

    -- The method `append` of the class. The list has the last instruction first.
    unfoldable pub append :
        TimedInstruction T R I
        → T
        → T
        → List (TimedInstruction T R I)
        → List (TimedInstruction T R I)
    unfolding sanitize_time_window
    append i now now' plan =
        (if i.timepoints_default then sanitize_time_window plan now now' i else i) ∷ plan

    -- The loop of `make_start_slack`. The readings that `sanitize_time_window` makes are not used,
    -- since there is an instruction in front.
    unfoldable pub sanitize_from :
        List (TimedInstruction T R I)
        → T
        → T
        → List (TimedInstruction T R I)
        → List (TimedInstruction T R I)
    unfolding sanitize_time_window
    sanitize_from before now now' [] = before
    sanitize_from before now now' (i ∷ rest) =
        sanitize_from (sanitize_time_window before now now' i ∷ before) now now' rest

    -- `make_start_slack`, on the instructions in order; the result is last instruction first.
    -- `front()` of an empty plan is undefined, and `none` here.
    unfoldable pub make_start_slack :
        T → T → T → List (TimedInstruction T R I) → Option (List (TimedInstruction T R I))
    unfolding sanitize_from set_earliest set_latest
    make_start_slack slack now now' [] = none
    make_start_slack slack now now' (i ∷ rest) =
        some
          (sanitize_from (set_latest (time.add now' slack) (set_earliest now i) ∷ []) now now' rest)
