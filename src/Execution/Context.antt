-- ===== src/Execution/Context.antt =====
-- The state that a transition and the platform's threads work on: the backend, the queue of
-- exogenous events and the flag of the controller (src/execution/controller.h), and the history
-- (src/semantics/readylog/history.cpp: a list, newest first, that `append` extends).
use gologpp.Prelude.{ℕ, Bool, List}
use gologpp.Execution.Activity.{State}
use gologpp.Execution.Backend.{Backend, Transition}

-- An element of the queue: an activity that the platform has updated, a reference to an exogenous
-- action, or a reference to `switch_state`.
pub data Event (X : Type 0) : Type 0 where
  activity : ℕ → Event X
  exog : X → Event X
  switch_state : Event X

-- An element of the history. An activity is written with the state that it has when it is appended
-- (src/semantics/readylog/activity.cpp).
pub data Entry (R X : Type 0) : Type 0 where
  transition : Transition R → Entry R X
  state_change : R → State → Entry R X
  sensing : R → Entry R X
  occurrence : X → Entry R X

pub record Context (R X : Type 0) : Type 0 where
  pub backend : Backend R
  pub queue : List (Event X)
  pub history : List (Entry R X)
  pub silent : Bool

-- What the model of the program gives for a reference: its hash, whether its action is silent and
-- senses, and the value of its precondition, which the Golog interpreter computes.
pub record Actions (R X : Type 0) : Type 0 where
  pub hash : R → ℕ
  pub silent : R → Bool
  pub exog_silent : X → Bool
  pub senses : R → Bool
  pub precondition : R → List (Entry R X) → Bool
