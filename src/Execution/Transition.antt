-- ===== src/Execution/Transition.antt =====
-- GeneralSemantics<Transition>::trans (src/execution/transition.cpp) and Activity::update
-- (src/execution/activity.cpp), over the controller's queue and history.
pub mod Enabled
use gologpp.Prelude.{
  ℕ, ◌+◌, Bool, true, false, ◌&&◌, ◌||◌, not, Option, none, some, List, [], ◌∷◌, ◌++◌,
  if◌then◌else◌,
}
use gologpp.Error.{Result, ok, err, ◌>>=◌}
use gologpp.Execution.Activity.{
  Hook, start, end, fail, finish, cancel, State, running, final, failed, target_state, state_eq,
}
use gologpp.Execution.Context.{Event, activity, Entry, Context, Actions}
use gologpp.Execution.Backend.{
  Backend, Transition, current_state, start_activity, cancel_activity, erase_activity, set_state,
}

module _ {R X : Type 0} (env : Actions R X) where
  -- Some backend, or the exception.
  abbrev done : Result (Backend R) → Result (Option (Backend R))
  done r = r >>= λ b. ok (some b)

  -- The `switch` of `trans` at the activity's state: `none` is `return nullptr`.
  unfoldable pub dispatch : Hook → State → Transition R → Context R X → Result (Option (Backend R))
  unfolding state_eq
  dispatch cancel s t c =
      if state_eq s running then done (cancel_activity env.hash t c.backend) else ok none
  dispatch start s t c =
      if not (state_eq s running) && env.precondition t.reference c.history
      then done (start_activity env.hash t c.backend)
      else ok none
  dispatch finish s t c =
      if state_eq s final then done (erase_activity env.hash t c.backend) else ok none
  dispatch fail s t c =
      if state_eq s failed then done (erase_activity env.hash t c.backend) else ok none
  dispatch end s t c =
      if state_eq s failed || state_eq s final
      then done (erase_activity env.hash t c.backend)
      else ok none

  -- The log line and `set_silent`, then `append`, then an empty plan.
  unfoldable pub record_transition : Transition R → Context R X → Backend R → Context R X
  record_transition t c b = record c {
    backend = b;
    history = Entry.transition t ∷ c.history;
    silent = if env.silent t.reference then c.silent else false;
  }

  unfoldable pub conclude :
      Transition R → Context R X → Option (Backend R) → Result (Option (Context R X))
  unfolding record_transition
  conclude t c none = ok none
  conclude t c (some b) = ok (some (record_transition t c b))

  unfoldable pub trans : Transition R → Context R X → Result (Option (Context R X))
  trans t c = dispatch t.hook (current_state env.hash c.backend t.reference) t c >>= conclude t c

module _ {R X : Type 0} where
  -- Activity::update: `set_state(target_state(hook))`, then `exog_queue_push`.
  unfoldable pub update : ℕ → Hook → Context R X → Context R X
  update i h c = record c {
    backend = set_state i (target_state h) c.backend;
    queue = c.queue ++ activity i ∷ [];
  }
