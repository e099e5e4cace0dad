-- ===== src/Execution/Run/Brackets.antt =====
-- In a history every `start` of an activity is closed by one `finish`, `fail` or `end` before the
-- next.
use gologpp.Prelude.{
  ℕ, ◌≡◌, ◌+◌, refl, ap, ◌∙◌, Bool, true, List, [], ◌∷◌, lookup, nat_eq, is_some, ◌==◌, ◌&&◌,
  if◌then◌else◌, arith, eqb_iff, length, lookup-assign, lookup-erase,
}
use gologpp.Error.{ok}
use gologpp.Execution.Activity.{start, hook_eq, is_ending, target_state}
use gologpp.Execution.Backend.{init, Backend, Transition, erase_activity}
use gologpp.Execution.Backend.Laws.{
  start_activity_shape, erase_activity_shape, cancel_activity_shape,
}
use gologpp.Execution.Context.{
  Event, activity, exog, switch_state, Entry, transition, state_change, sensing, occurrence,
  Context, Actions,
}
use gologpp.Execution.Backend.Heap.{set_state-activities}
use gologpp.Execution.Controller.Drain.{drain_events_lem}
use gologpp.Execution.Transition.{update}
use gologpp.Execution.Transition.Enabled.{Operation, starting, cancelling, erasing, trans-some}
use gologpp.Execution.Controller.{exog_queue_push, drain_event, drain_events, drain_exog_queue}
use gologpp.Execution.Run.{Step, execute, report, occur, drain, Reach, here, next, empty}

module _ {R X : Type 0} where
  -- How many transitions of the history pass a test.
  abbrev pub tally : (Transition R → Bool) → List (Entry R X) → ℕ
  tally p [] = 0
  tally p (transition t ∷ h) = (if p t then 1 else 0) + tally p h
  tally p (state_change r s ∷ h) = tally p h
  tally p (sensing r ∷ h) = tally p h
  tally p (occurrence x ∷ h) = tally p h

module _ {R X : Type 0} (env : Actions R X) where
  abbrev pub is_start : ℕ → Transition R → Bool
  is_start k t = env.hash t.reference == k && hook_eq t.hook start

  abbrev pub is_end : ℕ → Transition R → Bool
  is_end k t = env.hash t.reference == k && is_ending t.hook

  tally-drain_event :
      (p : Transition R → Bool) (e : Event X) (c : Context R X)
      → tally p (drain_event env e c).history ≡ tally p c.history
  unfolding drain_event
  tally-drain_event p (activity i) c = ground arith
  tally-drain_event p (exog x) c = ground arith
  tally-drain_event p switch_state c = refl

  tally-drain_events :
      (p : Transition R → Bool) (q : List (Event X)) (c : Context R X)
      → tally p (drain_events env q c).history ≡ tally p c.history
  unfolding drain_events
  tally-drain_events p [] c = refl
  tally-drain_events p (e ∷ q) c =
      tally-drain_events p q _ ∙ tally-drain_event p e (record c { queue = q })

  abbrev pub open_count : ℕ → Backend R → ℕ
  open_count k b = if is_some (lookup k b.activities) then 1 else 0

  abbrev pub IsBalanced : ℕ → Context R X → Type 0
  IsBalanced k c =
      tally (is_start k) c.history ≡ tally (is_end k) c.history + open_count k c.backend

  erase_activity_present :
      (t : Transition R) (b b' : Backend R)
      → erase_activity env.hash t b ≡ ok b'
      → is_some (lookup (env.hash t.reference) b.activities) ≡ true
  unfolding erase_activity
  erase_activity_present t b b' h = ground arith

  -- An operation opens the entry of its hash, closes it, or leaves the map alone.
  Operation-open :
      (k : ℕ) (t : Transition R) (b b' : Backend R)
      → Operation env t b b'
      → (if is_start k t then 1 else 0) + open_count k b
        ≡ (if is_end k t then 1 else 0) + open_count k b'
  unfolding hook_eq is_ending
  Operation-open k t b b' (starting e o) =
      let (_, m, n, _) = start_activity_shape env.hash t b b' o in
      ground (
        arith,
        e,
        m,
        n,
        eqb_iff (env.hash t.reference) k,
        ap (lookup k) m,
        lookup-assign (env.hash t.reference) k (length b.objects) b.activities,
      )
  Operation-open k t b b' (cancelling e g o) =
      ground (arith, cancel_activity_shape env.hash t b b' o)
  Operation-open k t b b' (erasing e o) =
      let (_, m) = erase_activity_shape env.hash t b b' o in
      ground (
        arith,
        m,
        erase_activity_present t b b' o,
        eqb_iff (env.hash t.reference) k,
        ap (lookup k) m,
        lookup-erase (env.hash t.reference) k b.activities,
      )

  Step-IsBalanced : (k : ℕ) {c c' : Context R X} → Step env c c' → IsBalanced k c → IsBalanced k c'
  unfolding update exog_queue_push drain_exog_queue
  Step-IsBalanced k {c} {c'} (execute t h) v =
      let (o, hist, _) = trans-some env t c c' h in
      omega (
        arith,
        Operation-open k t c.backend c'.backend o,
        ap (tally (is_start k)) hist,
        ap (tally (is_end k)) hist,
      )
  Step-IsBalanced k {c} (report i h _ e) v =
      rw (e, set_state-activities i (target_state h) c.backend) v
  Step-IsBalanced k (occur x e) v = rw e v
  Step-IsBalanced k {c} (drain e) v =
      rw
        (
          e,
          tally-drain_events (is_start k) c.queue c,
          tally-drain_events (is_end k) c.queue c,
          (drain_events_lem env c.queue c).1,
        )
        v

  -- After any run, a hash has as many starts in the history as ends, and one more exactly while an
  -- activity of this hash is in the backend's map.
  pub Reach-IsBalanced : (k : ℕ) {c : Context R X} → Reach env (empty env) c → IsBalanced k c
  unfolding init lookup
  Reach-IsBalanced k here = refl
  Reach-IsBalanced k (next r s) = Step-IsBalanced k s (Reach-IsBalanced k r)
