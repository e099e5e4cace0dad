-- ===== src/Execution/Loop/Program/Laws.antt =====
-- The runs of the controller, and that the loops compute them (src/execution/controller.cpp).
use gologpp.Prelude.{
  ℕ, zero, suc, ◌≤◌, ◌+◌, ◌≡◌, ◌≢◌, ◌↔◌, refl, sym, ap, inl, inr, false, Option, none, some,
  Option-cases, Bool-cases, List, [], ◌∷◌, arith,
}
use gologpp.Error.{Error, Result, ok, err, terminate, Result-cases}
use gologpp.Plan.{TimedInstruction, Durations}
use gologpp.Plan.Time.{TimeModel}
use gologpp.Execution.Loop.{Services, iterate, plan_loop}
use gologpp.Execution.Loop.Iteration.{pair-cases}
use gologpp.Execution.Loop.Outcome.{iterate-Outcome}
use gologpp.Execution.Loop.Program.{
  Program, Ending, finished, stopped, threw, follow, program_step, program_loop, catch_terminate,
  run,
}
use gologpp.Execution.Loop.Program.Runs.{
  PlanRun, ended, iterated, thrown, Turn, failed, waited, untransformed, planned, Runs, final,
  turned, flagged, caught, uncaught,
}

positive : (n fuel : ℕ) → suc n ≤ fuel → (m : ℕ) × (fuel ≡ suc m) × (n ≤ m)
positive n zero l = absurd (omega arith)
positive n (suc m) l = (m, refl, omega arith)

module _ (time : TimeModel) {W R I : Type 0} (env : Durations time.T R) (s : Services time W R I)
    (tenth : time.T) (p : Program time W R I) where
  plan_loop-PlanRun :
      (fuel : ℕ) (plan : List (TimedInstruction time.T R I)) (w : W) (r : Result W)
      → plan_loop time env s tenth fuel plan w ≡ some r
      → PlanRun time env s tenth p plan w r
  unfolding plan_loop
  plan_loop-PlanRun fuel [] w r h = let e : ok w ≡ r = cc in rw (sym e) ended
  plan_loop-PlanRun zero (i ∷ rest) w r h = cc
  plan_loop-PlanRun (suc fuel) (i ∷ rest) w r h =
      elim (Result-cases (iterate time env s tenth (i ∷ rest) w)) [
        | inl ((plan, v), e) ↦
            iterated ((iterate-Outcome time env s tenth (i ∷ rest) plan w v).0 e)
              (plan_loop-PlanRun fuel plan v r (rw (plan_loop, e) at h))
        | inr (x, e) ↦
            let same : err x ≡ r = cc (rw (plan_loop, e) at h) in rw (sym same) (thrown e)
      ]

  PlanRun-plan_loop :
      (plan : List (TimedInstruction time.T R I)) (w : W) (r : Result W)
      → PlanRun time env s tenth p plan w r
      → (n : ℕ) × ((fuel : ℕ) → n ≤ fuel → plan_loop time env s tenth fuel plan w ≡ some r)
  unfolding plan_loop
  PlanRun-plan_loop [] w r ended = (0, λ fuel l. refl)
  PlanRun-plan_loop (i ∷ rest) w r (iterated {plan = plan} {v = v} o more) =
      let (n, h) = PlanRun-plan_loop plan v r more in
      (
        suc n,
        λ fuel l.
            let (m, e, l') = positive n fuel l in
            rw (e, plan_loop, (iterate-Outcome time env s tenth (i ∷ rest) plan w v).1 o) (h m l'),
      )
  PlanRun-plan_loop (i ∷ rest) w (err x) (thrown e) =
      (1, λ fuel l. let (m, e', l') = positive 0 fuel l in rw (e', plan_loop, e) refl)

  follow-Turn :
      (fuel : ℕ) (plan : Option (List (TimedInstruction time.T R I))) (w v : W) (r : Result W)
      → p.trans (s.set_silent w) ≡ ok (plan, v)
      → follow time env s tenth p fuel plan v ≡ some r
      → Turn time env s tenth p w r
  unfolding follow
  follow-Turn fuel none w v r t h = waited v t (cc)
  follow-Turn fuel (some plan) w v r t h = elim (Result-cases (s.transform plan v)) [
    | inl ((plan', u), e) ↦
        planned plan plan' v u t e (plan_loop-PlanRun fuel plan' u r (rw (follow, e) at h))
    | inr (x, e) ↦ untransformed plan v x t e (cc (rw (follow, e) at h))
  ]

  program_step-Turn :
      (fuel : ℕ) (w : W) (r : Result W)
      → program_step time env s tenth p fuel w ≡ some r
      → Turn time env s tenth p w r
  unfolding program_step
  program_step-Turn fuel w r h = elim (Result-cases (p.trans (s.set_silent w))) [
    | inl ((plan, v), e) ↦ follow-Turn fuel plan w v r e (rw (program_step, e) at h)
    | inr (x, e) ↦ failed x e (cc (rw (program_step, e) at h))
  ]

  Turn-program_step :
      (w : W) (r : Result W)
      → Turn time env s tenth p w r
      → (n : ℕ) × ((fuel : ℕ) → n ≤ fuel → program_step time env s tenth p fuel w ≡ some r)
  unfolding program_step follow
  Turn-program_step w r (failed x t e) = (0, λ fuel l. rw (program_step, t) (ap some e))
  Turn-program_step w r (waited v t e) = (0, λ fuel l. rw (program_step, t, follow) (ap some e))
  Turn-program_step w r (untransformed plan v x t f e) =
      (0, λ fuel l. rw (program_step, t, follow, f) (ap some e))
  Turn-program_step w r (planned plan plan' v u t f more) =
      let (n, h) = PlanRun-plan_loop plan' u r more in
      (n, λ fuel l. rw (program_step, t, follow, f) (h fuel l))

  catch_terminate-threw :
      (x : Error) → x ≢ terminate → catch_terminate time env s tenth p (err x) ≡ threw x
  unfolding catch_terminate
  catch_terminate-threw terminate ne = absurd (ne refl)
  catch_terminate-threw x ne = refl

  program_loop-throws :
      (w v : W) (x : Error)
      → p.final w ≡ (false, v)
      → Turn time env s tenth p v (err x)
      → Runs time env s tenth p w (catch_terminate time env s tenth p (err x))
  unfolding catch_terminate
  program_loop-throws w v terminate f t = caught v f t
  program_loop-throws w v x f t = uncaught v f t (λ same. cc)

  program_loop-Runs :
      (fuel : ℕ) (w : W) (r : Result W)
      → program_loop time env s tenth p fuel w ≡ some r
      → Runs time env s tenth p w (catch_terminate time env s tenth p r)
  unfolding program_loop catch_terminate
  program_loop-Runs zero w r h = cc
  program_loop-Runs (suc fuel) w r h = elim (pair-cases (p.final w)) [
    | inl (v, f) ↦
        let e : ok v ≡ r = cc (rw (program_loop, f, f) at h) in
        rw (sym e, catch_terminate) (final f)
    | inr (v, f) ↦ elim (Option-cases (program_step time env s tenth p fuel v)) [
      | inl e ↦ cc (rw (program_loop, f, f, e) at h)
      | inr (err x, e) ↦
          let same : err x ≡ r = cc (rw (program_loop, f, f, e) at h) in
          rw (sym same) (program_loop-throws w v x f (program_step-Turn fuel v (err x) e))
      | inr (ok u, e) ↦
          let t = program_step-Turn fuel v (ok u) e in
          elim (Bool-cases (s.terminated u)) [
            | inl y ↦
                let same : err terminate ≡ r = cc (rw (program_loop, f, f, e, y) at h) in
                rw (sym same, catch_terminate) (flagged v u f t y)
            | inr n ↦
                turned v f t n (program_loop-Runs fuel u r (rw (program_loop, f, f, e, n) at h))
          ]
    ]
  ]

  program_loop-turned :
      (fuel m : ℕ) (w v u : W) (r : Result W)
      → fuel ≡ suc m
      → p.final w ≡ (false, v)
      → program_step time env s tenth p m v ≡ some (ok u)
      → s.terminated u ≡ false
      → program_loop time env s tenth p m u ≡ some r
      → program_loop time env s tenth p fuel w ≡ some r
  unfolding program_loop
  program_loop-turned fuel m w v u r same f step on h = rw (same, program_loop, f, f, step, on) h

  Runs-program_loop :
      (w : W) (e : Ending W)
      → Runs time env s tenth p w e
      → (n : ℕ) × ((fuel : ℕ)
          → n ≤ fuel
          → (r : Result W) × (program_loop time env s tenth p fuel w ≡ some r)
            × (catch_terminate time env s tenth p r ≡ e))
  unfolding program_loop catch_terminate
  Runs-program_loop w (finished v) (final f) = (
    1,
    λ fuel l. let (m, e, l') = positive 0 fuel l in (ok v, rw (e, program_loop, f, f) refl, refl),
  )
  Runs-program_loop w e (turned {u = u} v f t on more) =
      let (n, step) = Turn-program_step v (ok u) t in
      let (n', loop) = Runs-program_loop u e more in
      (
        suc (n + n'),
        λ fuel l.
            let (m, same, l') = positive (n + n') fuel l in
            let (r, h, end) = loop m (omega arith) in
            (r, program_loop-turned fuel m w v u r same f (step m (omega arith)) on h, end),
      )
  Runs-program_loop w stopped (flagged v u f t off) =
      let (n, step) = Turn-program_step v (ok u) t in
      (
        suc n,
        λ fuel l.
            let (m, same, l') = positive n fuel l in
            (err terminate, rw (same, program_loop, f, f, step m l', off) refl, refl),
      )
  Runs-program_loop w stopped (caught v f t) =
      let (n, step) = Turn-program_step v (err terminate) t in
      (
        suc n,
        λ fuel l.
            let (m, same, l') = positive n fuel l in
            (err terminate, rw (same, program_loop, f, f, step m l') refl, refl),
      )
  Runs-program_loop w (threw x) (uncaught v f t ne) =
      let (n, step) = Turn-program_step v (err x) t in
      (
        suc n,
        λ fuel l.
            let (m, same, l') = positive n fuel l in
            (err x, rw (same, program_loop, f, f, step m l') refl, catch_terminate-threw x ne),
      )

  -- A run of the controller that ends does so as `Runs` says: transitions of the program follow one
  -- another, each from a state that is not final, and after each the termination flag is not set. In
  -- a transition the program's plan is transformed and executed by iterations until it is empty, or
  -- the thread waits for an event if there is no plan. The run finishes in a final state. It stops
  -- when the flag is set after a transition or Terminate is thrown in one, and it throws every other
  -- exception of a transition. Conversely, with some fuel the run ends as `Runs` says.
  pub run-Runs :
      (w : W) (e : Ending W)
      → ((fuel : ℕ) × (run time env s tenth p fuel w ≡ some e)) ↔ Runs time env s tenth p w e
  unfolding run
  run-Runs w e = (
    (λ (fuel, h). elim (Option-cases (program_loop time env s tenth p fuel w)) [
      | inl n ↦ cc (rw (run, n) at h)
      | inr (r, f) ↦
          let same : catch_terminate time env s tenth p r ≡ e = cc (rw (run, f) at h) in
          rw (sym same) (program_loop-Runs fuel w r f)
    ]),
    λ t.
        let (n, loop) = Runs-program_loop w e t in
        let (r, h, end) = loop n (omega arith) in (n, rw (run, h) (ap some end)),
  )
