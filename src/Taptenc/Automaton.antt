-- ===== src/Taptenc/Automaton.antt =====
-- The compilation of a component to an automaton of taptenc
-- (src/semantics/platform/taptenc/clock_formula.cpp, src/semantics/platform/taptenc/component.cpp).
-- `X` are taptenc's clock constraints; the semantics of states and components exist only for
-- lowercase names.
pub mod Description
pub mod Laws
pub mod Tests
use Prim.Native.String.{◌++◌ as push_str}
use gologpp.Prelude.{
  String, Bool, true, false, Option, none, some, List, [], ◌∷◌, ◌++◌, map, Eq, ◌==◌, text_eq,
  if◌then◌else◌,
}
use gologpp.Error.{Result, ok, err, unsupported, bad_cast, ◌>>=◌}
use gologpp.Taptenc.Constraint.{BooleanOperator, or, and}
use gologpp.Platform.Component.{EdgeKind, ordinary, exogenous}

-- ClockBound::Operator
pub data BoundOperator : Type 0 where
  ge le : BoundOperator

-- ClockFormula and its subclasses, over the values `V`.
pub data ClockFormula (V : Type 0) : Type 0 where
  clock_bound : String → BoundOperator → V → ClockFormula V
  operation : ClockFormula V → BooleanOperator → ClockFormula V → ClockFormula V
  negation : ClockFormula V → ClockFormula V

-- What the compilation reads of a state, a transition and a component.
pub record ClockedState (V : Type 0) : Type 0 where
  pub name : String
  pub clock_formula : Option (ClockFormula V)

pub record ClockedEdge (V : Type 0) : Type 0 where
  pub kind : EdgeKind
  pub source : String
  pub target : String
  pub clock_formula : Option (ClockFormula V)
  pub resets : List String

pub record ClockedComponent (V : Type 0) : Type 0 where
  pub name : String
  pub states : List (ClockedState V)
  pub transitions : List (ClockedEdge V)
  pub clocks : List String
  pub current_state : String

-- taptenc's classes of these names.
pub record AutomatonState (X : Type 0) : Type 0 where
  pub id : String
  pub invariant : X
  pub initial : Bool

pub record AutomatonTransition (X : Type 0) : Type 0 where
  pub source_id : String
  pub dest_id : String
  pub action : String
  pub guard : X
  pub update : List String

pub record Automaton (X : Type 0) : Type 0 where
  pub states : List (AutomatonState X)
  pub transitions : List (AutomatonTransition X)
  pub prefix : String
  pub clocks : List String

-- taptenc's TrueCC, ComparisonCC and ConjunctionCC, whether a bound converts to `int`, and the name
-- of the global clock.
pub record Constraints (V X : Type 0) : Type 0 where
  pub true_cc : X
  pub comparison : String → BoundOperator → V → X
  pub conjunction : X → X → X
  -- `numeric_convert<int>` does not throw.
  pub fits : V → Bool
  pub global_clock : String

-- uppaal_qualified_name, of an element of the component.
unfoldable pub qualified_name : String → String → String
qualified_name component name = push_str component (push_str "G" name)

-- The name of the action of a transition; exogenous ones have none of their own.
unfoldable pub action_of : {V : Type 0} → ClockedComponent V → ClockedEdge V → String
action_of c e = elim e.kind [
  | exogenous ↦ "no_op"
  | ordinary ↦ push_str c.name (push_str "G" (push_str e.source (push_str "T" e.target)))
]

-- The loops over states and transitions.
unfoldable pub compile_all {ℓ κ} :
    {A : Type ℓ} {B : Type κ} → (A → Result B) → List A → Result (List B)
compile_all f [] = ok []
compile_all f (a ∷ as_rest) = do b ← f a; bs ← compile_all f as_rest; ok (b ∷ bs)

module _ {V X : Type 0} (t : Constraints V X) where
  unfoldable pub compile_formula : String → ClockFormula V → Result X
  unfolding qualified_name
  compile_formula component (clock_bound clock op bound) =
      if t.fits bound
      then ok (t.comparison (qualified_name component clock) op bound)
      else err bad_cast
  compile_formula component (operation l and r) = do
    lhs ← compile_formula component l
    rhs ← compile_formula component r
    ok (t.conjunction lhs rhs)
  compile_formula component (operation l or r) = err unsupported
  compile_formula component (negation s) = err unsupported

  unfoldable pub compile_optional : String → Option (ClockFormula V) → Result X
  unfolding compile_formula
  compile_optional component none = ok t.true_cc
  compile_optional component (some f) = compile_formula component f

  -- The state, and whether it is the current one.
  unfoldable pub compile_state : ClockedComponent V → ClockedState V → Result (AutomatonState X)
  unfolding compile_optional qualified_name
  compile_state c s = do
    formula ← compile_optional c.name s.clock_formula
    ok (record {
      id = qualified_name c.name s.name;
      invariant = formula;
      initial = c.current_state == s.name;
    })

  unfoldable pub compile_transition :
      ClockedComponent V → ClockedEdge V → Result (AutomatonTransition X)
  unfolding compile_optional action_of qualified_name
  compile_transition c e = do
    formula ← compile_optional c.name e.clock_formula
    ok (record {
      source_id = qualified_name c.name e.source;
      dest_id = qualified_name c.name e.target;
      action = action_of c e;
      guard = formula;
      update = map (qualified_name c.name) e.resets;
    })

  unfoldable pub compile_component : ClockedComponent V → Result (Automaton X)
  unfolding compile_state compile_transition compile_all qualified_name
  compile_component c = do
    states ← compile_all (compile_state c) c.states
    transitions ← compile_all (compile_transition c) c.transitions
    ok (record {
      states = states;
      transitions = transitions;
      prefix = c.name;
      clocks = t.global_clock ∷ map (qualified_name c.name) c.clocks;
    })
