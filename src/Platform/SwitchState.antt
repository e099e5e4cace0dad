-- ===== src/Platform/SwitchState.antt =====
-- GeneralSemantics<Reference<SwitchStateAction>>::trans
-- (src/model/platform/switch_state_action.cpp).
use gologpp.Prelude.{String, Bool, true, false, not, ◌&&◌, is_some, ◌==◌, text_eq, if◌then◌else◌}
use gologpp.Error.{Result, ok, err, null_dereference, ◌>>=◌}
use gologpp.Platform.Component.{
  Component, ordinary, exogenous, has_state, find_transition, switch_state, request_state_change,
}

module _ (platform : String → String → Result (Unit {0})) where
  -- Whether the action is executed, that is, `trans` returns a plan and sets `final_`, and the
  -- component after it. The states are dereferenced with no check.
  unfoldable pub switch_state_trans :
      (from_state to_state : String) → Component → Result (Bool × Component)
  unfolding has_state find_transition switch_state request_state_change
  switch_state_trans from_state to_state c =
      if not (has_state from_state c && has_state to_state c)
      then err null_dereference
      else if is_some (find_transition ordinary from_state to_state c)
      then (switch_state platform to_state c >>= λ c'. ok (true, c'))
      else if is_some (find_transition exogenous from_state to_state c)
      then (if not (c.current_state == to_state)
          then (if c.is_dummy
              then (request_state_change to_state c >>= λ c'. ok (false, c'))
              else ok (false, c))
          else ok (true, c))
      else ok (false, c)
