-- ===== src/Execution/Loop/Ready.antt =====
-- Plans that the loop over a plan executes to their end (src/execution/controller.cpp).
use gologpp.Prelude.{
  ℕ, zero, suc, ◌≤◌, ◌<◌, ◌≡◌, refl, true, false, some, List, [], ◌∷◌, All, arith,
}
use gologpp.Error.{ok}
use gologpp.Plan.{TimedInstruction, Durations}
use gologpp.Plan.Time.{TimeModel}
use gologpp.Execution.Loop.{Services, plan_loop}
use gologpp.Execution.Loop.Iteration.{
  Refreshed, quiet, unchanged, Refused, Waited, Outcome, executed, postponed,
}
use gologpp.Execution.Loop.Outcome.{iterate-Outcome}

module _ (time : TimeModel) {W R I : Type 0} (env : Durations time.T R) (s : Services time W R I)
    (tenth : time.T) where
  -- No exogenous event changes a component, and `v` is the state after they were drained.
  pub data IsCalm (w v : W) : Type 0 where
    no_event : s.exog_empty w ≡ true → w ≡ v → IsCalm w v
    no_change :
        s.exog_empty w ≡ false → s.changed_exog (s.drain_exog_queue w) ≡ (false, v) → IsCalm w v

  -- The instruction is executed in the state `w`, or it waits without its plan being made anew. Then
  -- `good` holds again, and `left` is smaller after a wait.
  pub data IsReady (good : W → Type 0) (left : W → ℕ) (i : TimedInstruction time.T R I) (w : W)
      : Type 0 where
    executes :
        (v v' : W)
        → s.terminated (s.set_silent w) ≡ false
        → IsCalm (s.set_silent w) v
        → time.le i.earliest (s.context_time v) ≡ true
        → s.trans i v ≡ ok (some true, v')
        → good (s.progress v')
        → IsReady good left i w
    waits :
        (v u u' u'' : W)
        → s.terminated (s.set_silent w) ≡ false
        → IsCalm (s.set_silent w) v
        → Refused time env s tenth i v u
        → Waited time env s tenth i u u'
        → time.le (s.context_time u') i.latest ≡ true
        → s.changed_exog u' ≡ (false, u'')
        → good (s.progress u'')
        → left (s.progress u'') < left w
        → IsReady good left i w

  -- The instructions are executed in their order, each after iterations that leave the plan as it is.
  pub data Executed : List (TimedInstruction time.T R I) → W → W → Type 0 where
    nothing : {w : W} → Executed [] w w
    later :
        {i : TimedInstruction time.T R I} {rest : List (TimedInstruction time.T R I)} {w v w' : W}
        → Outcome time env s tenth (i ∷ rest) w (i ∷ rest) v
        → Executed (i ∷ rest) v w'
        → Executed (i ∷ rest) w w'
    first :
        {i : TimedInstruction time.T R I} {rest : List (TimedInstruction time.T R I)} {w w' : W}
        (v v' : W)
        → IsCalm (s.set_silent w) v
        → time.le i.earliest (s.context_time v) ≡ true
        → s.trans i v ≡ ok (some true, v')
        → Executed rest (s.progress v') w'
        → Executed (i ∷ rest) w w'

  calm-Refreshed :
      (plan : List (TimedInstruction time.T R I)) (w v : W)
      → IsCalm w v
      → Refreshed time env s tenth plan w plan v
  calm-Refreshed plan w v (no_event e same) = quiet e refl same
  calm-Refreshed plan w v (no_change e c) = unchanged e c refl

  abbrev Ends : (W → Type 0) → List (TimedInstruction time.T R I) → W → Type 0
  Ends good plan w =
      (fuel : ℕ) × (w' : W) × (plan_loop time env s tenth fuel plan w ≡ some (ok w'))
      × Executed plan w w'
      × good w'

  plan_loop-Outcome :
      (i : TimedInstruction time.T R I) (rest plan : List (TimedInstruction time.T R I)) (fuel : ℕ)
      (w v w' : W)
      → Outcome time env s tenth (i ∷ rest) w plan v
      → plan_loop time env s tenth fuel plan v ≡ some (ok w')
      → plan_loop time env s tenth (suc fuel) (i ∷ rest) w ≡ some (ok w')
  unfolding plan_loop
  plan_loop-Outcome i rest plan fuel w v w' o h =
      rw (plan_loop, (iterate-Outcome time env s tenth (i ∷ rest) plan w v).1 o) h

  step-Ends :
      (good : W → Type 0) (left : W → ℕ) (i : TimedInstruction time.T R I)
      (rest : List (TimedInstruction time.T R I)) (w : W)
      → ((w : W) → good w → Ends good rest w)
      → ((v : W) → left v < left w → good v → Ends good (i ∷ rest) v)
      → IsReady good left i w
      → Ends good (i ∷ rest) w
  step-Ends good left i rest w ends again (executes v v' on c due t g) =
      let (fuel, w', h, x, g') = ends (s.progress v') g in
      let o : Outcome time env s tenth (i ∷ rest) w rest (s.progress v') =
        executed i v v' on (calm-Refreshed (i ∷ rest) (s.set_silent w) v c) due t refl in
      (
        suc fuel,
        w',
        plan_loop-Outcome i rest rest fuel w (s.progress v') w' o h,
        first v v' c due t x,
        g',
      )
  step-Ends good left i rest w ends again (waits v u u' u'' on c r wait due still g l) =
      let (fuel, w', h, x, g') = again (s.progress u'') l g in
      let o : Outcome time env s tenth (i ∷ rest) w (i ∷ rest) (s.progress u'') =
        postponed i rest v u u' u'' on (calm-Refreshed (i ∷ rest) (s.set_silent w) v c) r wait due
          still refl refl in
      (
        suc fuel,
        w',
        plan_loop-Outcome i rest (i ∷ rest) fuel w (s.progress u'') w' o h,
        later o x,
        g',
      )

  first-Ends :
      (good : W → Type 0) (left : W → ℕ) (i : TimedInstruction time.T R I)
      (rest : List (TimedInstruction time.T R I)) (k : ℕ) (w : W)
      → ((w : W) → good w → IsReady good left i w)
      → ((w : W) → good w → Ends good rest w)
      → left w ≤ k
      → good w
      → Ends good (i ∷ rest) w
  first-Ends good left i rest zero w ready ends l g =
      step-Ends good left i rest w ends (λ v l' g'. absurd (omega arith)) (ready w g)
  first-Ends good left i rest (suc k) w ready ends l g =
      step-Ends good left i rest w ends
        (λ v l' g'. first-Ends good left i rest k v ready ends (omega arith) g') (ready w g)

  -- Let each instruction of the plan, in every state of `good`, be executed or wait without the plan
  -- being made anew, so that `good` holds again and a wait makes `left` smaller. Then from a state of
  -- `good` the loop ends with some fuel, without an exception, and it has executed all the
  -- instructions in their order.
  pub plan_loop-IsReady :
      (good : W → Type 0) (left : W → ℕ) (plan : List (TimedInstruction time.T R I)) (w : W)
      → All (λ i. (w : W) → good w → IsReady good left i w) plan
      → good w
      → (fuel : ℕ) × (w' : W) × (plan_loop time env s tenth fuel plan w ≡ some (ok w'))
        × Executed plan w w'
        × good w'
  unfolding plan_loop
  plan_loop-IsReady good left [] w a g = (0, w, refl, nothing, g)
  plan_loop-IsReady good left (i ∷ rest) w a g =
      first-Ends good left i rest (left w) w a.0 (λ v. plan_loop-IsReady good left rest v a.1)
        (omega arith) g
