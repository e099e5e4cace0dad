-- ===== src/Execution/Loop/Outcome.antt =====
-- What an iteration of the loop over a plan does (src/execution/controller.cpp).
use gologpp.Prelude.{
  ◌≡◌, ◌↔◌, refl, ap, sym, ◌∙◌, inl, inr, Bool, true, false, Option, none, some, Bool-cases, List,
  [], ◌∷◌,
}
use gologpp.Error.{ok, bind-ok, ok_inj}
use gologpp.Plan.{TimedInstruction, Durations}
use gologpp.Plan.Time.{TimeModel}
use gologpp.Execution.Loop.{
  Services, refresh, attempt, await, is_stale, postpone, conclude_attempt, attempt_front, iterate,
}
use gologpp.Execution.Loop.Iteration.{
  Refreshed, Refused, Outcome, executed, postponed, replanned, pair-cases, refresh_lem, attempt_lem,
  attempt-Refused, await-Waited, is_stale-Missed, is_stale_fresh, replan_lem,
}

module _ (time : TimeModel) {W R I : Type 0} (env : Durations time.T R) (s : Services time W R I)
    (tenth : time.T) where
  postpone-Outcome :
      (i : TimedInstruction time.T R I) (plan rest plan' : List (TimedInstruction time.T R I))
      (w v u v' : W)
      → s.terminated (s.set_silent w) ≡ false
      → Refreshed time env s tenth plan (s.set_silent w) (i ∷ rest) v
      → Refused time env s tenth i v u
      → postpone time env s tenth i (i ∷ rest) u ≡ ok (plan', v')
      → Outcome time env s tenth plan w plan' (s.progress v')
  unfolding postpone
  postpone-Outcome i plan rest plan' w v u v' on c r h =
      let (u', a, h1) = bind-ok (await time env s tenth i u) _ (plan', v') h in
      let wait = (await-Waited time env s tenth i u u').0 a in
      elim (pair-cases (is_stale time env s tenth i u')) [
        | inl (u'', y) ↦
            let (q, m, t) =
              (replan_lem time env s tenth (i ∷ rest) plan' u'' v').0 (rw (y) at h1) in
            replanned i rest q v u u' u'' v' on c r wait
              ((is_stale-Missed time env s tenth i u' u'').0 y) m t refl
        | inr (u'', n) ↦
            let (due, quiet) = (is_stale_fresh time env s tenth i u' u'').0 n in
            let e = ok_inj (i ∷ rest, u'') (plan', v') (rw (n) at h1) in
            postponed i rest v u u' u'' on c r wait due quiet (ap (λ x. x.0) e)
              (ap (λ x. s.progress x.1) e)
      ]

  conclude-Outcome :
      (i : TimedInstruction time.T R I) (plan rest plan' : List (TimedInstruction time.T R I))
      (r : Option Bool) (w v u v' : W)
      → s.terminated (s.set_silent w) ≡ false
      → Refreshed time env s tenth plan (s.set_silent w) (i ∷ rest) v
      → attempt time env s tenth i v ≡ ok (r, u)
      → conclude_attempt time env s tenth i rest r u ≡ ok (plan', v')
      → Outcome time env s tenth plan w plan' (s.progress v')
  unfolding conclude_attempt
  conclude-Outcome i plan rest plan' (some true) w v u v' on c a h =
      let e = ok_inj (rest, u) (plan', v') h in
      let (due, t) = (attempt_lem time env s tenth i true v u).0 a in
      executed i v v' on (rw (sym (ap (λ x. x.0) e)) c) due (t ∙ ap (λ x. ok (some true, x.1)) e)
        refl
  conclude-Outcome i plan rest plan' (some false) w v u v' on c a h = cc
  conclude-Outcome i plan rest plan' none w v u v' on c a h =
      postpone-Outcome i plan rest plan' w v u v' on c
        ((attempt-Refused time env s tenth i v u).0 a) h

  attempt_front-Outcome :
      (plan p plan' : List (TimedInstruction time.T R I)) (w v w' : W)
      → s.terminated (s.set_silent w) ≡ false
      → Refreshed time env s tenth plan (s.set_silent w) p v
      → attempt_front time env s tenth p v ≡ ok (plan', w')
      → Outcome time env s tenth plan w plan' w'
  unfolding attempt_front
  attempt_front-Outcome plan [] plan' w v w' on c h = cc
  attempt_front-Outcome plan (i ∷ rest) plan' w v w' on c h =
      let ((r, u), a, h1) = bind-ok (attempt time env s tenth i v) _ (plan', w') h in
      let ((q, v'), ec, h2) =
        bind-ok (conclude_attempt time env s tenth i rest r u) _ (plan', w') h1 in
      let e = ok_inj (q, s.progress v') (plan', w') h2 in
      rw (sym (ap (λ x. x.0) e), sym (ap (λ x. x.1) e))
        (conclude-Outcome i plan rest q r w v u v' on c a ec)

  iterate-postpone :
      (i : TimedInstruction time.T R I) (plan rest plan' : List (TimedInstruction time.T R I))
      (w v u v' : W)
      → s.terminated (s.set_silent w) ≡ false
      → Refreshed time env s tenth plan (s.set_silent w) (i ∷ rest) v
      → Refused time env s tenth i v u
      → postpone time env s tenth i (i ∷ rest) u ≡ ok (plan', v')
      → iterate time env s tenth plan w ≡ ok (plan', s.progress v')
  unfolding iterate attempt_front conclude_attempt
  iterate-postpone i plan rest plan' w v u v' on c r h =
      rw
        (
          on,
          iterate,
          (refresh_lem time env s tenth plan (i ∷ rest) (s.set_silent w) v).1 c,
          attempt_front,
          (attempt-Refused time env s tenth i v u).1 r,
          conclude_attempt,
          h,
        )
        refl

  -- The value of an iteration that does not throw. The termination flag is not set. If there are
  -- exogenous events, they are drained, and the plan is transformed if a component has changed then.
  -- The first instruction of that plan is removed exactly when it is due and its `trans` returns an
  -- empty plan. Else the thread waits for an event, and a time-out marks a missed transition and
  -- drains the queue; then the plan stays if the window of the instruction is still open and no
  -- component has changed, and else is the transformation of what `make_start_slack` makes of it. The
  -- components progress at the end.
  pub iterate-Outcome :
      (plan plan' : List (TimedInstruction time.T R I)) (w w' : W)
      → (iterate time env s tenth plan w ≡ ok (plan', w'))
        ↔ Outcome time env s tenth plan w plan' w'
  unfolding iterate attempt_front conclude_attempt postpone
  iterate-Outcome plan plan' w w' = (
    (λ h. elim (Bool-cases (s.terminated (s.set_silent w))) [
      | inl off ↦ cc (rw (off, iterate) at h)
      | inr on ↦
          let ((p, v), er, h1) =
            bind-ok (refresh time env s tenth plan (s.set_silent w)) _ (plan', w')
              (rw (on, iterate) at h) in
          attempt_front-Outcome plan p plan' w v w' on
            ((refresh_lem time env s tenth plan p (s.set_silent w) v).0 er) h1
    ]),
    λ r. elim r [
      | executed i v v' on c due t e ↦
          rw
            (
              on,
              iterate,
              (refresh_lem time env s tenth plan (i ∷ plan') (s.set_silent w) v).1 c,
              attempt_front,
              (attempt_lem time env s tenth i true v v').1 (due, t),
              conclude_attempt,
            )
            (ap (λ x. ok (plan', x)) e)
      | postponed i rest v u u' u'' on c r wait due still same e ↦
          let h : postpone time env s tenth i (i ∷ rest) u ≡ ok (i ∷ rest, u'') =
            rw
              (
                postpone,
                (await-Waited time env s tenth i u u').1 wait,
                (is_stale_fresh time env s tenth i u' u'').1 (due, still),
              )
              refl in
          iterate-postpone i plan rest (i ∷ rest) w v u u'' on c r h ∙ ap ok (λ j. (same j, e j))
      | replanned i rest q v u u' u'' v' on c r wait gone m t e ↦
          let h : postpone time env s tenth i (i ∷ rest) u ≡ ok (plan', v') =
            rw
              (
                postpone,
                (await-Waited time env s tenth i u u').1 wait,
                (is_stale-Missed time env s tenth i u' u'').1 gone,
                (replan_lem time env s tenth (i ∷ rest) plan' u'' v').1 (q, m, t),
              )
              refl in
          iterate-postpone i plan rest plan' w v u v' on c r h ∙ ap (λ x. ok (plan', x)) e
    ],
  )
