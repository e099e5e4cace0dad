-- ===== src/Execution/Run/Stuck.antt =====
-- A cancelled activity, and what a report of the platform shows.
use gologpp.Prelude.{
  ℕ, ◌≡◌, ◌≢◌, ◌∙◌, inl, inr, false, some, [], ◌∷◌, get_elem?, lookup, nat_eq, ◌==◌, if◌then◌else◌,
  arith, eqb_iff, eqb, beq_refl, Bool-cases,
}
use gologpp.Error.{ok}
use gologpp.Execution.Activity.{Hook, cancelled, target_state, Activity}
use gologpp.Execution.Backend.{Transition, current_state, set_state}
use gologpp.Execution.Backend.Heap.{IsValid, set_state-objects}
use gologpp.Execution.Backend.Laws.{current_state-set_state_hit, current_state-set_state_miss}
use gologpp.Execution.Context.{exog, state_change, Context, Actions}
use gologpp.Execution.Transition.{trans, update}
use gologpp.Execution.Transition.Enabled.{trans-states, trans-cancelled, current_state-cong}
use gologpp.Execution.Controller.{exog_queue_push, drain_exog_queue}
use gologpp.Execution.Controller.Drain.{drain_exog_queue_lem}

module _ {R X : Type 0} (env : Actions R X) where
  -- What the controller does of its own, without a report of the platform.
  pub data Control (c : Context R X) : Context R X → Type 0 where
    here : Control c c
    execute :
        {d e : Context R X} (t : Transition R)
        → Control c d
        → trans env t d ≡ ok (some e)
        → Control c e
    occur : {d : Context R X} (x : X) → Control c d → Control c (exog_queue_push (exog x) d)
    drain : {d : Context R X} → Control c d → Control c (drain_exog_queue env d)

  -- From a valid backend, without a report of the platform a cancelled activity is never left: not
  -- by transitions of its reference, nor by any others; the backend stays valid.
  pub Control-cancelled :
      (r : R) {c d : Context R X}
      → IsValid env.hash c.backend
      → current_state env.hash c.backend r ≡ cancelled
      → Control c d
      → IsValid env.hash d.backend × (current_state env.hash d.backend r ≡ cancelled)
  unfolding exog_queue_push
  Control-cancelled r v s here = (v, s)
  Control-cancelled r v s (occur x p) = Control-cancelled r v s p
  Control-cancelled r v s (drain {d} p) =
      let ih = Control-cancelled r v s p in let (_, _, b) = drain_exog_queue_lem env d in rw b ih
  Control-cancelled r v s (execute {d} {e} t p h) =
      let (v', s') = Control-cancelled r v s p in
      let (w, states, _, _) = trans-states env t d e v' h in
      elim (Bool-cases (env.hash t.reference == env.hash r)) [
        | inl same ↦ absurd (
            ground (
              arith,
              h,
              trans-cancelled env t.reference t.hook d
                  (current_state-cong env d.backend t.reference r ((eqb_iff _ _).0 same) ∙ s'),
            ))
        | inr other ↦ (w, states r ∙ rw other s')
      ]

  -- In a valid backend, a report changes the state of the references whose entry is the reported
  -- object, and of no other.
  pub update-states :
      (i : ℕ) (h : Hook) (c : Context R X) (r : R)
      → IsValid env.hash c.backend
      → (lookup (env.hash r) c.backend.activities ≡ some i
          → current_state env.hash (update i h c).backend r ≡ target_state h)
        × (lookup (env.hash r) c.backend.activities ≢ some i
            → current_state env.hash (update i h c).backend r ≡ current_state env.hash c.backend r)
  unfolding update
  update-states i h c r v = (
    current_state-set_state_hit env.hash i (target_state h) c.backend r v,
    current_state-set_state_miss env.hash i (target_state h) c.backend r v,
  )

  -- The queue holds the activity itself, not its state at the time of the report: after two
  -- reports on one activity, from an empty queue and with no drain between them, the history has
  -- the second state twice, if its action does not sense.
  pub drain-update-update :
      (i : ℕ) (h h' : Hook) (c : Context R X) (a : Activity R)
      → c.queue ≡ []
      → get_elem? c.backend.objects i ≡ some a
      → env.senses a.reference ≡ false
      → (drain_exog_queue env (update i h' (update i h c))).history
        ≡ state_change a.reference (target_state h')
          ∷ state_change a.reference (target_state h')
          ∷ c.history
  unfolding update
  drain-update-update i h h' c a q g n =
      let d : Context R X = update i h' (update i h c) in
      ground (
        arith,
        drain_exog_queue_lem env d,
        q,
        n,
        beq_refl i,
        set_state-objects i i (target_state h') (set_state i (target_state h) c.backend)
            (record {
              reference = a.reference;
              state = if eqb i i then target_state h else a.state;
            })
            (set_state-objects i i (target_state h) c.backend a g),
      )
