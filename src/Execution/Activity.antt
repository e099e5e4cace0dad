-- ===== src/Execution/Activity.antt =====
-- The hooks of durative actions (src/model/procedural.h, DurativeCall::Hook) and the states of
-- activities (src/execution/activity.h, src/execution/activity.cpp).
use gologpp.Prelude.{ℕ, Bool, true, false, leb}

-- In the order of the C++ enum.
pub data Hook : Type 0 where
  finish fail end start cancel : Hook

pub data State : Type 0 where
  idle running final cancelled failed : State

-- The value of the C++ enum, which `<=` on hooks compares.
unfoldable pub hook_rank : Hook → ℕ
hook_rank finish = 0
hook_rank fail = 1
hook_rank end = 2
hook_rank start = 3
hook_rank cancel = 4

-- hook <= Hook::END
unfoldable pub is_ending : Hook → Bool
unfolding hook_rank
is_ending h = leb (hook_rank h) (hook_rank end)

unfoldable pub target_state : Hook → State
target_state start = running
target_state cancel = cancelled
target_state finish = final
target_state fail = failed
target_state end = idle

unfoldable pub hook_eq : Hook → Hook → Bool
hook_eq finish finish = true
hook_eq fail fail = true
hook_eq end end = true
hook_eq start start = true
hook_eq cancel cancel = true
hook_eq _ _ = false

unfoldable pub state_eq : State → State → Bool
state_eq idle idle = true
state_eq running running = true
state_eq final final = true
state_eq cancelled cancelled = true
state_eq failed failed = true
state_eq _ _ = false

pub record Activity (R : Type 0) : Type 0 where
  pub reference : R
  pub state : State
