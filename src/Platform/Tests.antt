-- ===== src/Platform/Tests.antt =====
-- The theorems on components at a camera that is switched on by the program and booted by itself.
use gologpp.Prelude.{String, ◌≡◌, ◌⊎◌, refl, true, false, none, List, [], ◌∷◌}
use gologpp.Error.{Result, ok}
use gologpp.Platform.Component.{ordinary, exogenous, Edge, Component, has_state}
use gologpp.Platform.Component.Laws.{IsEdge}
use gologpp.Platform.SwitchState.{switch_state_trans}
use gologpp.Platform.Run.{switch_state_trans-executed}

abbrev willing : String → String → Result (Unit {0})
willing c s = ok tt

abbrev edges : List Edge
edges =
    record { kind = ordinary; source = "off"; target = "booting" }
    ∷ record { kind = exogenous; source = "booting"; target = "on" }
    ∷ []

abbrev camera_in : String → String → List String → Component
camera_in current expected requests = record {
  name = "camera";
  states = "error" ∷ "off" ∷ "booting" ∷ "on" ∷ [];
  transitions = edges;
  current_state = current;
  expected_state = expected;
  is_dummy = false;
  requested = none;
  requests = requests;
}

abbrev off : Component
off = camera_in "off" "off" []

abbrev sent : Component
sent = camera_in "booting" "booting" ("booting" ∷ [])

abbrev waiting : Component
waiting = camera_in "booting" "booting" []

boots : switch_state_trans willing "off" "booting" off ≡ ok (true, sent)
unfolding switch_state_trans
boots = refl

switch_state_trans-executed_example :
    (IsEdge ordinary "off" "booting" off
      × (sent.current_state ≡ "booting")
      × (sent.expected_state ≡ "booting")
      × (has_state "booting" off ≡ true)
      × (sent.states ≡ off.states))
    ⊎ (IsEdge exogenous "off" "booting" off × (off.current_state ≡ "booting") × (sent ≡ off))
switch_state_trans-executed_example =
    switch_state_trans-executed willing "off" "booting" off sent boots

waits : switch_state_trans willing "booting" "on" waiting ≡ ok (false, waiting)
unfolding switch_state_trans
waits = refl

abbrev lamp : Component
lamp = record {
  name = "lamp";
  states = "error" ∷ "off" ∷ [];
  transitions = [];
  current_state = "off";
  expected_state = "off";
  is_dummy = true;
  requested = none;
  requests = [];
}

abbrev two : List Component
two = camera_in "on" "booting" [] ∷ lamp ∷ []
