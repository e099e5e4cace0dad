-- ===== src/Taptenc/Constraint.antt =====
-- Platform constraints (src/model/platform/constraint.h) and their compilation for taptenc
-- (src/semantics/platform/taptenc/constraint.cpp).
pub mod Info
pub mod Activations
pub mod Compile
pub mod Fragment
pub mod Accepts
pub mod OneComponent
pub mod Tests
use gologpp.Prelude.{ℕ, String, Bool, true, false, List}
use gologpp.Execution.Activity.{Hook}

pub data BooleanOperator : Type 0 where
  or and : BooleanOperator

pub data UnaryOperator : Type 0 where
  next previous future past : UnaryOperator

pub data BinaryOperator : Type 0 where
  until since : BinaryOperator

-- An argument of an action reference in a constraint: a value, which is a wildcard when it is the
-- undefined value, or another expression.
pub data Argument : Type 0 where
  value : Bool → Argument
  expression : Argument

pub record ActionPattern : Type 0 where
  pub name : String
  pub args : List Argument

-- ActionSpec and its subclasses. `T` is the type of durations.
pub data ActionSpec (T : Type 0) : Type 0 where
  action_hook : Hook → ActionPattern → ActionSpec T
  during : ActionPattern → ActionSpec T
  boolean : ActionSpec T → BooleanOperator → ActionSpec T → ActionSpec T
  temporal_unary : UnaryOperator → T → T → ActionSpec T → ActionSpec T
  temporal_binary : ActionSpec T → BinaryOperator → T → T → ActionSpec T → ActionSpec T

-- StateSpec and its subclasses, over components `C` and states `S`.
pub data StateSpec (C S T : Type 0) : Type 0 where
  state_assertion : C → S → StateSpec C S T
  boolean : StateSpec C S T → BooleanOperator → StateSpec C S T → StateSpec C S T
  temporal_unary : UnaryOperator → T → T → StateSpec C S T → StateSpec C S T
  temporal_binary : StateSpec C S T → BinaryOperator → T → T → StateSpec C S T → StateSpec C S T

pub record Constraint (C S T : Type 0) : Type 0 where
  pub lhs : ActionSpec T
  pub rhs : StateSpec C S T
