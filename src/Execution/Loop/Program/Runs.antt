-- ===== src/Execution/Loop/Program/Runs.antt =====
-- What a run of the controller consists of (src/execution/controller.cpp), as relations.
use gologpp.Prelude.{◌≡◌, ◌≢◌, true, false, none, some, List, [], ◌∷◌}
use gologpp.Error.{Error, Result, ok, err, terminate}
use gologpp.Plan.{TimedInstruction, Durations}
use gologpp.Plan.Time.{TimeModel}
use gologpp.Execution.Loop.{Services, iterate}
use gologpp.Execution.Loop.Iteration.{Outcome}
use gologpp.Execution.Loop.Program.{Program, Ending, finished, stopped, threw}

module _ (time : TimeModel) {W R I : Type 0} (env : Durations time.T R) (s : Services time W R I)
    (tenth : time.T) (p : Program time W R I) where
  -- The execution of a plan: iterations until it is empty, or one of them throws.
  pub data PlanRun : List (TimedInstruction time.T R I) → W → Result W → Type 0 where
    ended : {w : W} → PlanRun [] w (ok w)
    iterated :
        {i : TimedInstruction time.T R I} {rest plan : List (TimedInstruction time.T R I)} {w v : W}
        {r : Result W}
        → Outcome time env s tenth (i ∷ rest) w plan v
        → PlanRun plan v r
        → PlanRun (i ∷ rest) w r
    thrown :
        {i : TimedInstruction time.T R I} {rest : List (TimedInstruction time.T R I)} {w : W}
        {x : Error}
        → iterate time env s tenth (i ∷ rest) w ≡ err x
        → PlanRun (i ∷ rest) w (err x)

  -- A transition of the program: it throws, or there is no plan and the thread waits for an event, or
  -- its plan is transformed, which may throw, and is executed.
  pub data Turn (w : W) (r : Result W) : Type 0 where
    failed : (x : Error) → p.trans (s.set_silent w) ≡ err x → err x ≡ r → Turn w r
    waited :
        (v : W)
        → p.trans (s.set_silent w) ≡ ok (none, v)
        → p.drain_exog_queue_blocking v ≡ r
        → Turn w r
    untransformed :
        (plan : List (TimedInstruction time.T R I)) (v : W) (x : Error)
        → p.trans (s.set_silent w) ≡ ok (some plan, v)
        → s.transform plan v ≡ err x
        → err x ≡ r
        → Turn w r
    planned :
        (plan plan' : List (TimedInstruction time.T R I)) (v u : W)
        → p.trans (s.set_silent w) ≡ ok (some plan, v)
        → s.transform plan v ≡ ok (plan', u)
        → PlanRun plan' u r
        → Turn w r

  -- A run: transitions from states that are not final, while the termination flag is not set after
  -- them, and how it ends.
  pub data Runs : W → Ending W → Type 0 where
    final : {w v : W} → p.final w ≡ (true, v) → Runs w (finished v)
    turned :
        {w u : W} {e : Ending W} (v : W)
        → p.final w ≡ (false, v)
        → Turn v (ok u)
        → s.terminated u ≡ false
        → Runs u e
        → Runs w e
    flagged :
        {w : W} (v u : W)
        → p.final w ≡ (false, v)
        → Turn v (ok u)
        → s.terminated u ≡ true
        → Runs w stopped
    caught : {w : W} (v : W) → p.final w ≡ (false, v) → Turn v (err terminate) → Runs w stopped
    uncaught :
        {w : W} {x : Error} (v : W)
        → p.final w ≡ (false, v)
        → Turn v (err x)
        → x ≢ terminate
        → Runs w (threw x)
