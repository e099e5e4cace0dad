-- ===== src/Execution/Controller/Drain.antt =====
-- What draining the queue writes to the history.
use gologpp.Prelude.{
  ◌≡◌, refl, ap, ◌∙◌, sym, none, some, List, [], ◌∷◌, ◌++◌, get_elem?, if◌then◌else◌, arith, inl,
  inr, Option-cases,
}
use mathlib.Core.List.{reverse, reverse-append, append_assoc}
use gologpp.Execution.Backend.{Backend}
use gologpp.Execution.Context.{
  Event, activity, exog, switch_state, Entry, state_change, sensing, occurrence, Context, Actions,
}
use gologpp.Execution.Controller.{drain_event, drain_events, drain_exog_queue}

module _ {R X : Type 0} (env : Actions R X) where
  -- The entries of an event, in the order in which they happen.
  abbrev pub entries : Backend R → Event X → List (Entry R X)
  entries b (activity i) = elim (get_elem? b.objects i) [
    | none ↦ []
    | some a ↦
        (if env.senses a.reference then sensing a.reference ∷ [] else [])
        ++ state_change a.reference a.state ∷ []
  ]
  entries b (exog x) = occurrence x ∷ []
  entries b switch_state = []

  abbrev pub all_entries : Backend R → List (Event X) → List (Entry R X)
  all_entries b [] = []
  all_entries b (e ∷ q) = entries b e ++ all_entries b q

  drain_event-backend : (e : Event X) (c : Context R X) → (drain_event env e c).backend ≡ c.backend
  unfolding drain_event
  drain_event-backend (activity i) c = ground arith
  drain_event-backend (exog x) c = ground arith
  drain_event-backend switch_state c = refl

  drain_event-queue : (e : Event X) (c : Context R X) → (drain_event env e c).queue ≡ c.queue
  unfolding drain_event
  drain_event-queue (activity i) c = ground arith
  drain_event-queue (exog x) c = ground arith
  drain_event-queue switch_state c = refl

  drain_event-history :
      (e : Event X) (c : Context R X)
      → (drain_event env e c).history ≡ reverse (entries c.backend e) ++ c.history
  unfolding drain_event
  drain_event-history (activity i) c = elim (Option-cases (get_elem? c.backend.objects i)) [
    | inl n ↦ ground arith
    | inr (a, s) ↦ ground arith
  ]
  drain_event-history (exog x) c = ground arith
  drain_event-history switch_state c = refl

  pub drain_events_lem :
      (q : List (Event X)) (c : Context R X)
      → ((drain_events env q c).history ≡ reverse (all_entries c.backend q) ++ c.history)
        × ((drain_events env q c).backend ≡ c.backend)
  unfolding drain_events
  drain_events_lem [] c = (refl, refl)
  drain_events_lem (e ∷ q) c =
      let c' : Context R X = drain_event env e (record c { queue = q }) in
      let b : c'.backend ≡ c.backend = drain_event-backend e (record c { queue = q }) in
      let ih = drain_events_lem q c' in
      (
        ih.0
            ∙ ap (λ b. reverse (all_entries b q) ++ c'.history) b
            ∙ ap (λ h. reverse (all_entries c.backend q) ++ h)
                (drain_event-history e (record c { queue = q }))
            ∙ sym (
                ap (λ l. l ++ c.history)
                  (reverse-append (entries c.backend e) (all_entries c.backend q))
                ∙ append_assoc (reverse (all_entries c.backend q)) (reverse (entries c.backend e))
                    c.history),
        ih.1 ∙ b,
      )

  drain_events-queue :
      (q : List (Event X)) (c : Context R X) → c.queue ≡ q → (drain_events env q c).queue ≡ []
  unfolding drain_events
  drain_events-queue [] c h = h
  drain_events-queue (e ∷ q) c h =
      drain_events-queue q _ (drain_event-queue e (record c { queue = q }))

  -- Draining empties the queue and writes the entries of its events, oldest first, on top of the
  -- history; the activities stay as they are.
  pub drain_exog_queue_lem :
      (c : Context R X)
      → ((drain_exog_queue env c).queue ≡ [])
        × ((drain_exog_queue env c).history ≡ reverse (all_entries c.backend c.queue) ++ c.history)
        × ((drain_exog_queue env c).backend ≡ c.backend)
  unfolding drain_exog_queue
  drain_exog_queue_lem c =
      let (h, b) = drain_events_lem c.queue c in (drain_events-queue c.queue c refl, h, b)
