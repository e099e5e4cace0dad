-- ===== src/Platform/Run.antt =====
-- Runs of a component: its construction, the actions of the program, exogenous changes, missed
-- transitions and the controller's acknowledgement, in any order.
use gologpp.Prelude.{
  String, ◌≡◌, inl, inr, ◌⊎◌, Bool, true, false, is_some, ◌==◌, text_eq, Bool-cases, arith,
}
use gologpp.Error.{Result, ok, err, ◌>>=◌}
use gologpp.Platform.Component.{
  ordinary, exogenous, Edge, Component, SwitchEvent, has_state, find_transition, set_current_state,
  add_state, add_transition, exog_state_change, handle_missed_transition, switch_state,
  request_state_change,
}
use gologpp.Platform.Component.Laws.{IsEdge, find_transition-IsEdge, switch_state_lem}
use gologpp.Platform.SwitchState.{switch_state_trans}

executed :
    (m : Result Component) (d : Component)
    → ◌≡◌ {A = Result (Bool × Component)} (m >>= λ c. ok (true, c)) (ok (true, d))
    → m ≡ ok d
executed (ok c) d h = cc
executed (err e) d h = cc

module _ (platform : String → String → Result (Unit {0})) where
  -- An action that is executed either has moved its component along an ordinary transition from
  -- its current state to the target state, which is one of its states, and leaves it there and
  -- expected there, with the same states; or found it in the target state, where an exogenous
  -- transition leads, and changes nothing.
  pub switch_state_trans-executed :
      (from_state to_state : String) (c d : Component)
      → switch_state_trans platform from_state to_state c ≡ ok (true, d)
      → (IsEdge ordinary c.current_state to_state c
          × (d.current_state ≡ to_state)
          × (d.expected_state ≡ to_state)
          × (has_state to_state c ≡ true)
          × (d.states ≡ c.states))
        ⊎ (IsEdge exogenous from_state to_state c × (c.current_state ≡ to_state) × (d ≡ c))
  unfolding switch_state_trans
  switch_state_trans-executed from_state to_state c d h =
      elim (Bool-cases (is_some (find_transition ordinary from_state to_state c))) [
        | inl y ↦
            let e = executed (switch_state platform to_state c) d (ground (arith, y)) in
            let (edge, has, cur, exp, sts, _) = switch_state_lem platform to_state c d e in
            inl (edge, cur, exp, has, sts)
        | inr n ↦
            let edge : is_some (find_transition exogenous from_state to_state c) ≡ true =
              ground (arith, n) in
            let there : (c.current_state == to_state) ≡ true = ground (arith, n) in
            inr (
              find_transition-IsEdge exogenous from_state to_state c edge,
              (text_eq.beq_iff c.current_state to_state).0 there,
              ground (arith, n),
            )
      ]

  -- An action that is not executed moves nothing: the current and the expected state, the states
  -- and the transitions are as before.
  pub switch_state_trans-waits :
      (from_state to_state : String) (c d : Component)
      → switch_state_trans platform from_state to_state c ≡ ok (false, d)
      → (d.current_state ≡ c.current_state)
        × (d.expected_state ≡ c.expected_state)
        × (d.states ≡ c.states)
        × (d.transitions ≡ c.transitions)
  unfolding switch_state_trans request_state_change
  switch_state_trans-waits from_state to_state c d h =
      (ground arith, ground arith, ground arith, ground arith)

  pub data ComponentStep (c d : Component) : Type 0 where
    add : (s : String) → add_state s c ≡ ok d → ComponentStep c d
    connect : (e : Edge) → d ≡ add_transition e c → ComponentStep c d
    act :
        (from_state to_state : String) (b : Bool)
        → switch_state_trans platform from_state to_state c ≡ ok (b, d)
        → ComponentStep c d
    change : (s : String) (e : SwitchEvent) → exog_state_change s c ≡ ok (d, e) → ComponentStep c d
    miss : d ≡ handle_missed_transition c → ComponentStep c d
    acknowledge : d ≡ set_current_state c.current_state c → ComponentStep c d

  pub data ComponentReach (c : Component) : Component → Type 0 where
    built : ComponentReach c c
    step : {d e : Component} → ComponentReach c d → ComponentStep d e → ComponentReach c e
