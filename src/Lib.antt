-- ===== src/Lib.antt =====
-- golog++ in antt: the execution of durative actions, timed plans, the platform's components and
-- the compilation of constraints on them, and the scopes, types, values, references and domains of
-- programs.
--
-- A golog++ program is executed by a controller (src/execution/controller.cpp). Its semantics
-- proposes transitions, which start, cancel and end the activities of a platform backend
-- (src/execution/platform_backend.cpp); the platform's threads report on activities through a
-- queue, which the controller drains into its history. A transformation may replace a plan by one
-- that also operates the platform's components, for which the platform's constraints are compiled
-- for the library taptenc (src/semantics/platform/taptenc).
--
-- The files, and the code they are about (paths are from the repository's root):
--   Prelude, Prelude/*    Boolean tests, lists, and maps as association lists.
--   Error                 src/model/error.h: exceptions as values, a result type, and its laws.
--   Execution/Activity    Hook (src/model/procedural.h), Activity::State and target_state
--                         (src/execution/activity.cpp).
--   Execution/Backend     PlatformBackend::start_activity, cancel_activity, erase_activity and
--                         current_state. Activities are shared objects: they live in a store, and
--                         the map and the queue hold their indices. Backend/Heap has the invariant
--                         IsValid, Backend/Laws what the operations do to it and to the states.
--   Execution/Context     the part of AExecutionController that is shared: queue, history, flag.
--   Execution/Transition  GeneralSemantics<Transition>::trans (src/execution/transition.cpp) and
--                         Activity::update; Transition/Enabled has its theorems.
--   Execution/Controller  the queue of exogenous events and drain_exog_queue
--                         (src/execution/controller.cpp); Controller/Drain has its theorem.
--   Execution/Run         the interleavings of the controller with the platform, as a step
--                         relation, and the theorems on runs (Run/Brackets, Run/Stuck).
--   Execution/Loop        the loop over a plan in ExecutionController::run
--                         (src/execution/controller.cpp), over the record Services of what it
--                         calls; Loop/Iteration describes the parts of an iteration as relations,
--                         Loop/Outcome an iteration, and Loop/Ready plans that are executed.
--                         Loop/Program is the outer loop, over the program's `final` and `trans`;
--                         Program/Runs describes a run, and Program/Laws relates the two.
--   Plan, Plan/*          TimedInstruction and Plan (src/execution/plan.cpp), over the record
--                         TimeModel of time points (Plan/Time); Plan/Windows has the theorems.
--   Taptenc/Constraint    the constraints of src/model/platform/constraint.h.
--                         Constraint/Activations and Constraint/Compile are
--                         src/semantics/platform/taptenc/constraint.cpp, Constraint/Info what it
--                         returns; Constraint/Fragment describes what it accepts, and
--                         Constraint/Accepts a constraint as a whole. Constraint/OneComponent is
--                         find_component_ref (src/semantics/platform/taptenc/transformation.cpp).
--   Taptenc/Transformation  the rest of that file: store_arg and retrieve_arg
--                         (Transformation/Arguments has the theorems), parse_domain_action
--                         (Transformation/DomainAction, RoundTrip), parse_platform_action
--                         (Transformation/PlatformAction), and in Transformation/Plans the plans
--                         that go to taptenc and come back (Plans/Trip).
--   Taptenc/Automaton     the compilation of a component and its clock formulas
--                         (src/semantics/platform/taptenc/component.cpp and clock_formula.cpp);
--                         Automaton/Laws says what compiles, and Automaton/Description to what.
--   Platform/Component    the automaton of a component (src/model/platform/component.cpp) and its
--                         backend (src/model/platform/component_backend.cpp); Component/Laws what
--                         its operations keep. Platform/SwitchState is the semantics of the action
--                         `switch_state` (src/model/platform/switch_state_action.cpp),
--                         Platform/Backends the check for exogenous changes
--                         (src/execution/platform_backend.cpp), Platform/Run the runs of a
--                         component.
--   Scope, Scope/*        identifiers, variables and globals (src/model/scope.h,
--                         src/model/scope.cpp); Scope/Variables has the theorems on get_var,
--                         Scope/Globals the globals, and Globals/Laws the theorems on them;
--                         Scope/Registry the types and domains of a program, with the theorems in
--                         Registry/Built, also on what exceptions leave behind, and
--                         Registry/Definitions.
--   Types, Types/*        the types and their order `>=` (src/model/types.cpp): Types/Termination
--                         and Types/Equations say what a comparison does, Types/Order and
--                         Types/Transitivity what order it is.
--   Values, Values/*      values and their test against types (src/model/value.cpp), and the
--                         constructors of list and compound values and expressions
--                         (src/model/list_expression.cpp, src/model/compound_expression.cpp).
--                         Values/Suits says when the test ends, Values/Construction what the
--                         constructors accept. Values/Equality is `==` and the hash
--                         (Equality/Hash, Equality/Order).
--   Readylog, Readylog/*  values as terms of ECLiPSe and back (src/semantics/readylog/value.cpp), over
--                         the record Engine of what its C++ interface does with terms.
--                         Readylog/Numbers has the C++ integers, Readylog/Terms and
--                         Readylog/Values the two functions, Readylog/Laws what is read back.
--   References, References/*  references, their constructors and their consistency, and the
--                         bindings of parameters (src/model/reference.h, src/model/reference.cpp).
--                         References/Bindings has the lemmas, References/Construction and
--                         References/Ground the theorems. `>=` of a type and an argument is a
--                         parameter, which the tests fill with that of Values and Types.
--   Fluents, Fluents/*    fluents and the checks of their initial values (src/model/fluent.cpp).
--   Mapping, Mapping/*    the mapping of arguments to the backend's (src/model/mapping.cpp), and its
--                         check for exogenous actions (src/model/action.cpp).
--   Strings, Strings/*    find, substr and to_string of std::string, on lists of bytes.
--   Domain, Domain/*      the set operations of domains (src/model/domain.cpp), and ensure_type
--                         (src/model/language.cpp).
--
-- Conventions. A thrown exception is `err`, its message is dropped. An operation that a lock
-- protects is one step. Functions are structurally recursive, but for plan_loop and program_loop,
-- which have fuel since the loops need not end: a relation on runs says what they compute with
-- enough of it, and there is enough for plans whose instructions are executed after finitely many
-- waits; and but for `>=` on types, which swaps its arguments in compound
-- types and is given the size of both types, and the test of values, which need not end. The fuel
-- for reading a term bounds its depth and the length of its lists. Time points are doubles in the
-- source; TimeModel asks for the order and for addition to be monotone, which rounding keeps, and
-- NaN is excluded. The hash of a
-- reference, its precondition's value and the flags of its action are a parameter (Actions), as
-- are taptenc's bounds, names, states and separators, and the backends of components that are not
-- dummies. Scopes and domains take `<=` on types as a parameter; Types takes the element sets of
-- domains as one. A map that is iterated is a list in the order of the iteration. A field has a
-- name: the empty one, which the check of missing fields would not see, is left aside. An arity is
-- an unsigned char in the source; where the checks of a fluent compare one, it wraps at 256.
-- In the registry of types and domains and in a fluent's definition, a state comes back also after
-- an exception. `define` of a global's class is a parameter of the definition of globals, and the
-- entry of a global among the identifiers of the global scope is left out.
-- The reading of an activity's state and the operation on it by `trans` are one step, although the
-- source locks each of them for itself. The elements of a domain are compared by an equality that
-- is decided, and the errors of the conversion of a clock's bound are one, a failed cast.
--
-- Not modelled: the parser (grammars of a third-party generator), the translation of statements and
-- formulas to the ReadyLog interpreter, the printing and conversion of values, and input and
-- output. Reading an action of taptenc's trace with an unknown hook uses a variable that is not
-- initialised: the model has an error for it.
pub mod Prelude
pub mod Error
pub mod Execution
pub mod Plan
pub mod Platform
pub mod Scope
pub mod Domain
pub mod Fluents
pub mod Mapping
pub mod Strings
pub mod Taptenc
pub mod Types
pub mod Readylog
pub mod References
pub mod Values
