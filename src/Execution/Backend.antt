-- ===== src/Execution/Backend.antt =====
-- The activities of PlatformBackend (src/execution/platform_backend.cpp).
pub mod Heap
pub mod Laws
use gologpp.Prelude.{
  ℕ, ◌+◌, Bool, true, false, ◌&&◌, ◌||◌, not, Option, none, some, List, [], ◌∷◌, ◌++◌, lookup,
  assign, erase, length, get_elem?, set, is_some, nat_eq, if◌then◌else◌,
}
use gologpp.Error.{Result, ok, err, bug, user_error, lost_transition, inconsistent_transition}
use gologpp.Execution.Activity.{
  Hook, start, end, State, idle, running, final, cancelled, failed, target_state, hook_eq, state_eq,
  Activity,
}

-- What the backend asks of the platform: `execute_activity` and `preempt_activity` are pure virtual.
pub data Request : Type 0 where
  execute preempt : ℕ → Request

-- The activities are shared objects: `objects` is the store, an activity is its index there, and
-- `activities` maps the hash of a reference to an object. Old objects stay in the store, since the
-- platform's threads go on holding them.
pub record Backend (R : Type 0) : Type 0 where
  pub objects : List (Activity R)
  pub activities : List (ℕ × ℕ)
  pub requests : List Request

-- A `Transition`: a ground reference to an action, and a hook.
pub record Transition (R : Type 0) : Type 0 where
  pub reference : R
  pub hook : Hook

module _ {R : Type 0} where
  unfoldable pub init : Backend R
  init = record { objects = []; activities = []; requests = [] }

  -- The state of the object behind a pointer; pointers are valid, so the default is not met.
  unfoldable pub state_of : Backend R → ℕ → State
  state_of b i = elim (get_elem? b.objects i) [ none ↦ idle | some a ↦ a.state ]

  unfoldable pub set_state : ℕ → State → Backend R → Backend R
  set_state i s b = elim (get_elem? b.objects i) [
    | none ↦ b
    | some a ↦ record b { objects = set b.objects i (record a { state = s }) }
  ]

  -- Activity::Activity(const Transition &, AExecutionController &)
  unfoldable pub new_activity : Transition R → Result (Activity R)
  unfolding hook_eq
  new_activity t =
      if hook_eq t.hook start
      then ok (record { reference = t.reference; state = idle })
      else err bug

-- The condition under which `erase_activity` finds the state of the activity consistent.
unfoldable pub is_consistent : Hook → State → Bool
unfolding hook_eq state_eq target_state
is_consistent h s =
    (hook_eq h end && (state_eq s final || (state_eq s failed || state_eq s cancelled)))
    || state_eq s (target_state h)

module _ {R : Type 0} (hash : R → ℕ) where
  unfoldable pub current_state : Backend R → R → State
  unfolding state_of
  current_state b r = elim (lookup (hash r) b.activities) [ none ↦ idle | some i ↦ state_of b i ]

  -- `make_shared`, `find`, `set_state`, `execute_activity` and `insert`, in this order.
  unfoldable pub start_activity : Transition R → Backend R → Result (Backend R)
  unfolding new_activity target_state
  start_activity t b = elim (new_activity t) [
    | err e ↦ err e
    | ok a ↦
        if is_some (lookup (hash a.reference) b.activities)
        then err user_error
        else ok (record {
          objects = b.objects ++ (record a { state = target_state t.hook }) ∷ [];
          activities = assign (hash a.reference) (length b.objects) b.activities;
          requests = b.requests ++ execute (length b.objects) ∷ [];
        })
  ]

  unfoldable pub cancel_activity : Transition R → Backend R → Result (Backend R)
  unfolding state_of state_eq
  cancel_activity t b = elim (lookup (hash t.reference) b.activities) [
    | none ↦ err bug
    | some i ↦
        if not (state_eq (state_of b i) running)
        then ok b
        else ok (record b { requests = b.requests ++ preempt i ∷ [] })
  ]

  unfoldable pub erase_activity : Transition R → Backend R → Result (Backend R)
  unfolding state_of is_consistent
  erase_activity t b = elim (lookup (hash t.reference) b.activities) [
    | none ↦ err lost_transition
    | some i ↦
        if is_consistent t.hook (state_of b i)
        then ok (record b { activities = erase (hash t.reference) b.activities })
        else err inconsistent_transition
  ]
