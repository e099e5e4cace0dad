-- ===== src/Execution/Loop/Iteration.antt =====
-- The parts of an iteration of the loop over a plan (src/execution/controller.cpp), as relations on
-- plans and states, and the functions that compute them.
use mathlib.Core.List.{reverse}
use gologpp.Prelude.{
  ◌≡◌, ◌≢◌, ◌↔◌, ◌⊎◌, refl, sym, ap, ◌∙◌, inl, inr, Bool, true, false, none, some, Bool-cases,
  Option-cases, List, ◌∷◌, arith,
}
use gologpp.Error.{Error, Result, ok, err, exog_timeout, bind-ok, ok_inj, err_inj}
use gologpp.Plan.{TimedInstruction, Durations, make_start_slack}
use gologpp.Plan.Time.{TimeModel}
use gologpp.Execution.Loop.{Services, refresh, attempt, after_wait, await, is_stale, replan}

pub pair-cases :
    {W : Type 0} (q : Bool × W) → ((u : W) × (q ≡ (true, u))) ⊎ ((u : W) × (q ≡ (false, u)))
pair-cases (true, u) = inl (u, refl)
pair-cases (false, u) = inr (u, refl)

module _ (time : TimeModel) {W R I : Type 0} (env : Durations time.T R) (s : Services time W R I)
    (tenth : time.T) where
  -- The plan that an iteration works on: it is transformed if there are exogenous events, and after
  -- they were drained a component has changed.
  pub data Refreshed (plan : List (TimedInstruction time.T R I)) (w : W)
      (p : List (TimedInstruction time.T R I)) (v : W) : Type 0 where
    quiet : s.exog_empty w ≡ true → plan ≡ p → w ≡ v → Refreshed plan w p v
    unchanged :
        s.exog_empty w ≡ false
        → s.changed_exog (s.drain_exog_queue w) ≡ (false, v)
        → plan ≡ p
        → Refreshed plan w p v
    changed :
        (u : W)
        → s.exog_empty w ≡ false
        → s.changed_exog (s.drain_exog_queue w) ≡ (true, u)
        → s.transform plan u ≡ ok (p, v)
        → Refreshed plan w p v

  -- The instruction is not executed: it is not due, and the timer is set, or its `trans` returns no
  -- plan.
  pub data Refused (i : TimedInstruction time.T R I) (w u : W) : Type 0 where
    early :
        time.le i.earliest (s.context_time w) ≡ false
        → s.schedule_timer_event i.earliest w ≡ u
        → Refused i w u
    impossible :
        time.le i.earliest (s.context_time w) ≡ true → s.trans i w ≡ ok (none, u) → Refused i w u

  -- The wait for an event ends, or it times out.
  pub data Waited (i : TimedInstruction time.T R I) (w u : W) : Type 0 where
    woken : s.drain_exog_queue_blocking (time.add i.latest tenth) w ≡ (ok tt, u) → Waited i w u
    timed_out :
        (v v' : W)
        → s.drain_exog_queue_blocking (time.add i.latest tenth) w ≡ (err exog_timeout, v)
        → s.handle_missed i (s.exog_timer_wakeup v) ≡ ok v'
        → s.drain_exog_queue v' ≡ u
        → Waited i w u

  -- The latest time of the instruction has passed, or a component has changed.
  pub data Missed (i : TimedInstruction time.T R I) (w v : W) : Type 0 where
    late : time.le (s.context_time w) i.latest ≡ false → w ≡ v → Missed i w v
    disturbed :
        time.le (s.context_time w) i.latest ≡ true → s.changed_exog w ≡ (true, v) → Missed i w v

  -- What becomes of the plan and the state.
  pub data Outcome (plan : List (TimedInstruction time.T R I)) (w : W)
      (plan' : List (TimedInstruction time.T R I)) (w' : W) : Type 0 where
    executed :
        (i : TimedInstruction time.T R I) (v v' : W)
        → s.terminated (s.set_silent w) ≡ false
        → Refreshed plan (s.set_silent w) (i ∷ plan') v
        → time.le i.earliest (s.context_time v) ≡ true
        → s.trans i v ≡ ok (some true, v')
        → s.progress v' ≡ w'
        → Outcome plan w plan' w'
    postponed :
        (i : TimedInstruction time.T R I) (rest : List (TimedInstruction time.T R I))
        (v u u' u'' : W)
        → s.terminated (s.set_silent w) ≡ false
        → Refreshed plan (s.set_silent w) (i ∷ rest) v
        → Refused i v u
        → Waited i u u'
        → time.le (s.context_time u') i.latest ≡ true
        → s.changed_exog u' ≡ (false, u'')
        → i ∷ rest ≡ plan'
        → s.progress u'' ≡ w'
        → Outcome plan w plan' w'
    replanned :
        (i : TimedInstruction time.T R I) (rest q : List (TimedInstruction time.T R I))
        (v u u' u'' v' : W)
        → s.terminated (s.set_silent w) ≡ false
        → Refreshed plan (s.set_silent w) (i ∷ rest) v
        → Refused i v u
        → Waited i u u'
        → Missed i u' u''
        → make_start_slack time env (time.seconds 16384) (s.clock u'').0 (s.clock u'').1 (i ∷ rest)
          ≡ some q
        → s.transform (reverse q) u'' ≡ ok (plan', v')
        → s.progress v' ≡ w'
        → Outcome plan w plan' w'

  pub refresh_lem :
      (plan p : List (TimedInstruction time.T R I)) (w v : W)
      → (refresh time env s tenth plan w ≡ ok (p, v)) ↔ Refreshed plan w p v
  unfolding refresh
  refresh_lem plan p w v = (
    (λ h. elim (Bool-cases (s.exog_empty w)) [
      | inl y ↦
          let e = ok_inj (plan, w) (p, v) (rw (y, refresh) at h) in
          quiet y (ap (λ x. x.0) e) (ap (λ x. x.1) e)
      | inr n ↦ elim (pair-cases (s.changed_exog (s.drain_exog_queue w))) [
        | inl (u, c) ↦ changed u n c (rw (n, c, refresh) at h)
        | inr (u, c) ↦
            let e = ok_inj (plan, u) (p, v) (rw (n, c, refresh) at h) in
            unchanged n (c ∙ ap (λ x. (false, x.1)) e) (ap (λ x. x.0) e)
      ]
    ]),
    λ r. elim r [
      | quiet y e f ↦ rw (y, refresh) (ap ok (λ j. (e j, f j)))
      | unchanged n c e ↦ rw (n, c, refresh) (ap (λ q. ok (q, v)) e)
      | changed u n c t ↦ rw (n, c, refresh) t
    ],
  )

  pub attempt_lem :
      (i : TimedInstruction time.T R I) (b : Bool) (w u : W)
      → (attempt time env s tenth i w ≡ ok (some b, u))
        ↔ ((time.le i.earliest (s.context_time w) ≡ true) × (s.trans i w ≡ ok (some b, u)))
  unfolding attempt
  attempt_lem i b w u = ((λ h. (ground arith, ground arith)), λ (due, t). rw (due, attempt) t)

  pub attempt-Refused :
      (i : TimedInstruction time.T R I) (w u : W)
      → (attempt time env s tenth i w ≡ ok (none, u)) ↔ Refused i w u
  unfolding attempt
  attempt-Refused i w u = (
    (λ h. elim (Bool-cases (time.le i.earliest (s.context_time w))) [
      | inl y ↦ impossible y (rw (y, attempt) at h)
      | inr n ↦ early n (
          ap (λ x. x.1)
            (ok_inj (none, s.schedule_timer_event i.earliest w) (none, u) (rw (n, attempt) at h)))
    ]),
    λ r. elim r [
      | early n e ↦ rw (n, attempt) (ap (λ x. ok (none, x)) e)
      | impossible y t ↦ rw (y, attempt) t
    ],
  )

  not_woken :
      (i : TimedInstruction time.T R I) (w u v : W) (x : Error)
      → s.drain_exog_queue_blocking (time.add i.latest tenth) w ≡ (err x, v)
      → x ≢ exog_timeout
      → Waited i w u
      → ⊥
  not_woken i w u v x e ne (woken e') =
      let bad : ◌≡◌ {A = Result (Unit {0})} (err x) (ok tt) = ap (λ q. q.0) (sym e ∙ e') in cc
  not_woken i w u v x e ne (timed_out v1 v' e' m d) =
      ne (err_inj (Unit {0}) x exog_timeout (ap (λ q. q.0) (sym e ∙ e')))

  after_wait-Waited :
      (i : TimedInstruction time.T R I) (w u : W) (q : Result (Unit {0}) × W)
      → s.drain_exog_queue_blocking (time.add i.latest tenth) w ≡ q
      → (after_wait time env s tenth i q ≡ ok u) ↔ Waited i w u
  unfolding after_wait
  after_wait-Waited i w u (ok tt, v) e = (
    (λ h. woken (e ∙ ap (λ x. (ok tt, x)) (ok_inj v u h))),
    λ r. elim r [
      | woken e' ↦ ap (λ q. ok q.1) (sym e ∙ e')
      | timed_out v1 v' e' m d ↦
          let bad : ◌≡◌ {A = Result (Unit {0})} (ok tt) (err exog_timeout) =
            ap (λ q. q.0) (sym e ∙ e') in
          cc
    ],
  )
  after_wait-Waited i w u (err exog_timeout, v) e = (
    (λ h.
        let (v', m, d) = bind-ok (s.handle_missed i (s.exog_timer_wakeup v)) _ u h in
        timed_out v v' e m (ok_inj (s.drain_exog_queue v') u d)),
    λ r. elim r [
      | woken e' ↦
          let bad : ◌≡◌ {A = Result (Unit {0})} (err exog_timeout) (ok tt) =
            ap (λ q. q.0) (sym e ∙ e') in
          cc
      | timed_out v1 v' e' m d ↦
          let same : v ≡ v1 = ap (λ q. q.1) (sym e ∙ e') in rw (same, m) (ap ok d)
    ],
  )
  after_wait-Waited i w u (err x, v) e =
      ((λ h. cc), λ r. absurd (not_woken i w u v x e (λ same. cc) r))

  pub await-Waited :
      (i : TimedInstruction time.T R I) (w u : W)
      → (await time env s tenth i w ≡ ok u) ↔ Waited i w u
  unfolding await
  await-Waited i w u =
      after_wait-Waited i w u (s.drain_exog_queue_blocking (time.add i.latest tenth) w) refl

  pub is_stale-Missed :
      (i : TimedInstruction time.T R I) (w v : W)
      → (is_stale time env s tenth i w ≡ (true, v)) ↔ Missed i w v
  unfolding is_stale
  is_stale-Missed i w v = (
    (λ h. elim (Bool-cases (time.le (s.context_time w) i.latest)) [
      | inl y ↦ disturbed y (rw (y, is_stale) at h)
      | inr n ↦ late n (ap (λ x. x.1) (rw (n, is_stale) at h))
    ]),
    λ r. elim r [
      | late n e ↦ rw (n, is_stale) (ap (λ x. (true, x)) e)
      | disturbed y c ↦ rw (y, is_stale) c
    ],
  )

  pub is_stale_fresh :
      (i : TimedInstruction time.T R I) (w v : W)
      → (is_stale time env s tenth i w ≡ (false, v))
        ↔ ((time.le (s.context_time w) i.latest ≡ true) × (s.changed_exog w ≡ (false, v)))
  unfolding is_stale
  is_stale_fresh i w v = (
    (λ h. elim (Bool-cases (time.le (s.context_time w) i.latest)) [
      | inl y ↦ (y, rw (y, is_stale) at h)
      | inr n ↦ let e : true ≡ false = ap (λ x. x.0) (rw (n, is_stale) at h) in cc
    ]),
    λ (y, c). rw (y, is_stale) c,
  )

  pub replan_lem :
      (plan p : List (TimedInstruction time.T R I)) (w v : W)
      → (replan time env s tenth plan w ≡ ok (p, v)) ↔ (
          (q : List (TimedInstruction time.T R I)) × (make_start_slack time env
              (time.seconds 16384)
              (s.clock w).0
              (s.clock w).1
              plan
            ≡ some q)
          × (s.transform (reverse q) w ≡ ok (p, v)))
  unfolding replan
  replan_lem plan p w v = (
    (λ h.
        elim (Option-cases
          (make_start_slack time env (time.seconds 16384) (s.clock w).0 (s.clock w).1 plan)) [
            | inl gone ↦ cc (rw (gone, replan) at h)
            | inr (q, e) ↦ (q, e, rw (e, replan) at h)
          ]),
    λ (q, e, t). rw (e, replan) t,
  )
