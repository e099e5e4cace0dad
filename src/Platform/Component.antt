-- ===== src/Platform/Component.antt =====
-- A component of the platform, an automaton (src/model/platform/component.cpp), and what its
-- backend does to it (src/model/platform/component_backend.cpp). A state is its name, which is
-- unique in the scope of its component; no scope around it has states. Clocks and clock formulas
-- are left out: no operation here reads them.
pub mod Laws
use gologpp.Prelude.{
  String, Bool, true, false, not, ◌&&◌, Option, none, some, List, [], ◌∷◌, ◌++◌, find_if, is_some,
  length, eqb, Eq, ◌==◌, text_eq, if◌then◌else◌,
}
use gologpp.Error.{Result, ok, err, bug, component_error, redefinition_error, ◌>>=◌, ◌>>◌}

-- The subclasses of AbstractTransition.
pub data EdgeKind : Type 0 where
  ordinary exogenous : EdgeKind

pub record Edge : Type 0 where
  pub kind : EdgeKind
  pub source : String
  pub target : String

unfoldable pub kind_eq : EdgeKind → EdgeKind → Bool
kind_eq ordinary ordinary = true
kind_eq exogenous exogenous = true
kind_eq _ _ = false

-- `requests` are the calls of the backend's `switch_state`, `requested` is the pending request of a
-- DummyComponentBackend, and `is_dummy` tells if the backend is one.
pub record Component : Type 0 where
  pub name : String
  pub states : List String
  pub transitions : List Edge
  pub current_state : String
  pub expected_state : String
  pub is_dummy : Bool
  pub requested : Option String
  pub requests : List String

-- A `switch_state` reference in the queue: component, source and target.
pub record SwitchEvent : Type 0 where
  pub component : String
  pub from_state : String
  pub to_state : String

abbrev pub error_state : String
error_state = "error"

-- Component::Component
unfoldable pub new_component : String → Bool → Component
new_component name is_dummy = record {
  name = name;
  states = error_state ∷ [];
  transitions = [];
  current_state = error_state;
  expected_state = error_state;
  is_dummy = is_dummy;
  requested = none;
  requests = [];
}

-- `state(name)` is not null.
unfoldable pub has_state : String → Component → Bool
has_state s c = is_some (find_if (λ t. t == s) c.states)

unfoldable pub find_transition : EdgeKind → String → String → Component → Option Edge
unfolding kind_eq
find_transition k s t c =
    find_if (λ e. kind_eq e.kind k && e.source == s && e.target == t) c.transitions

unfoldable pub set_current_state : String → Component → Component
set_current_state s c = record c { expected_state = s; current_state = s }

unfoldable pub set_current_state_exog : String → Component → Component
set_current_state_exog s c = record c { current_state = s }

unfoldable pub state_changed_exog : Component → Bool
state_changed_exog c = not (c.expected_state == c.current_state)

-- The first state that is added after `error` becomes the current one.
unfoldable pub add_state : String → Component → Result Component
unfolding has_state set_current_state
add_state s c =
    if has_state s c
    then err redefinition_error
    else (let c' : Component = record c { states = c.states ++ s ∷ [] } in
        ok (if eqb (length c'.states) 2 then set_current_state s c' else c'))

unfoldable pub add_transition : Edge → Component → Component
add_transition e c = record c { transitions = c.transitions ++ e ∷ [] }

-- DummyComponentBackend::request_cancel and request_state_change.
unfoldable pub request_cancel : Component → Component
request_cancel c = record c { requested = none }

unfoldable pub request_state_change : String → Component → Result Component
unfolding has_state
request_state_change s c = if has_state s c then ok (record c { requested = some s }) else err bug

-- ComponentBackend::exog_state_change: the new state of the component, and the event that is pushed.
-- A step that no exogenous transition allows is only logged.
unfoldable pub exog_state_change : String → Component → Result (Component × SwitchEvent)
unfolding has_state set_current_state_exog
exog_state_change s c =
    if has_state s c
    then ok (
      set_current_state_exog s c,
      record { component = c.name; from_state = c.current_state; to_state = s },
    )
    else err component_error

-- handle_missed_transition of both backends.
unfoldable pub handle_missed_transition : Component → Component
unfolding set_current_state request_cancel
handle_missed_transition c =
    let c' = set_current_state error_state c in if c'.is_dummy then request_cancel c' else c'

-- `platform` is the `switch_state` of a backend that is not a dummy: code outside the repository,
-- which may throw.
module _ (platform : String → String → Result (Unit {0})) where
  unfoldable pub backend_switch_state : String → Component → Result Component
  unfolding request_cancel
  backend_switch_state s c =
      if c.is_dummy
      then ok (request_cancel c)
      else (platform c.name s >> ok (record c { requests = c.requests ++ s ∷ [] }))

  unfoldable pub switch_state : String → Component → Result Component
  unfolding has_state find_transition backend_switch_state set_current_state
  switch_state s c =
      if not (has_state s c)
      then err bug
      else if not (is_some (find_transition ordinary c.current_state s c))
      then err component_error
      else (backend_switch_state s c >>= λ c'. ok (set_current_state s c'))
