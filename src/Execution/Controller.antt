-- ===== src/Execution/Controller.antt =====
-- The queue of exogenous events of AExecutionController (src/execution/controller.cpp). Each
-- operation is one step: the locks, and the waiting on conditions, are not modelled.
pub mod Drain
use gologpp.Prelude.{
  ℕ, Bool, true, false, Option, none, some, List, [], ◌∷◌, ◌++◌, get_elem?, if◌then◌else◌,
}
use gologpp.Error.{Result, ok, err, terminate, exog_timeout, ◌>>=◌, ◌>>◌}
use gologpp.Execution.Activity.{Activity}
use gologpp.Execution.Context.{
  Event, activity, exog, switch_state, Entry, state_change, sensing, occurrence, Context, Actions,
}

module _ {R X : Type 0} where
  unfoldable pub exog_queue_push : Event X → Context R X → Context R X
  exog_queue_push e c = record c { queue = c.queue ++ e ∷ [] }

  unfoldable pub exog_queue_push_front : Event X → Context R X → Context R X
  exog_queue_push_front e c = record c { queue = e ∷ c.queue }

  unfoldable pub exog_empty : Context R X → Bool
  exog_empty c = elim c.queue [ [] ↦ true | e ∷ q ↦ false ]

  -- `front` and `pop_front`; on an empty queue, which no caller has, there is no result.
  unfoldable pub exog_queue_pop : Context R X → Option (Event X × Context R X)
  exog_queue_pop c = elim c.queue [ [] ↦ none | e ∷ q ↦ some (e, record c { queue = q }) ]

  -- What `exog_queue_block` does once its wait is over, by notification or by time.
  unfoldable pub exog_queue_block : Bool → Context R X → Result (Unit {0})
  unfolding exog_empty
  exog_queue_block terminated c =
      if terminated then err terminate else if exog_empty c then err exog_timeout else ok tt

module _ {R X : Type 0} (env : Actions R X) where
  -- `silent_ = false`, if the action of the event is not silent.
  unfoldable pub announce : Bool → Context R X → Context R X
  announce silent c = if silent then c else record c { silent = false }

  -- `append_sensing_result`, for an activity whose action senses, then `append`.
  unfoldable pub append_activity : Activity R → Context R X → Context R X
  append_activity a c = record c {
    history =
        state_change a.reference a.state
        ∷ (if env.senses a.reference then sensing a.reference ∷ c.history else c.history);
  }

  -- The body of the loop of `drain_exog_queue`, on the event that it has popped.
  unfoldable pub drain_event : Event X → Context R X → Context R X
  unfolding announce append_activity
  drain_event (activity i) c = elim (get_elem? c.backend.objects i) [
    | none ↦ c
    | some a ↦ append_activity a (announce (env.silent a.reference) c)
  ]
  drain_event (exog x) c =
      let c' : Context R X = announce (env.exog_silent x) c in
      record c' { history = occurrence x ∷ c'.history }
  drain_event switch_state c = c

  unfoldable pub drain_events : List (Event X) → Context R X → Context R X
  drain_events [] c = c
  drain_events (e ∷ q) c = drain_events q (drain_event e (record c { queue = q }))

  unfoldable pub drain_exog_queue : Context R X → Context R X
  drain_exog_queue c = drain_events c.queue c

  unfoldable pub drain_exog_queue_blocking : Bool → Context R X → Result (Context R X)
  unfolding exog_queue_block drain_exog_queue
  drain_exog_queue_blocking terminated c =
      exog_queue_block terminated c >>= λ _. ok (drain_exog_queue c)
