-- ===== src/Taptenc/Transformation/Plans/Trip.antt =====
-- A plan that goes to taptenc and comes back (src/semantics/platform/taptenc/transformation.cpp,
-- plan_gpp_to_taptenc and plan_taptenc_to_gpp).
use mathlib.Core.Path.{subst}
use mathlib.Core.List.{append_assoc, reverse, reverse_aux, reverse_aux-eq, append-nil}
use gologpp.Prelude.{
  ℕ, ◌≤◌, ◌<◌, ◌≡◌, ◌≢◌, sym, refl, ap, ◌∙◌, ◌⊎◌, inl, inr, Bool, true, false, some, List, [], ◌∷◌,
  ◌++◌, map, length, length-append, Eq, arith, All,
}
use gologpp.Error.{Result, ok, ok_inj}
use gologpp.Execution.Activity.{Hook}
use gologpp.Execution.Backend.{Transition}
use gologpp.Plan.Time.{TimeModel}
use gologpp.Plan.{Instruction, transition, other, TimedInstruction, Durations, append}
use gologpp.Strings.{Bytes, npos}
use gologpp.Strings.Laws.{Absent}
use gologpp.Taptenc.Transformation.{Storage, Separators, hook_text, store_args}
use gologpp.Taptenc.Transformation.Arguments.{IsConsistent, Extends, Stands, store_args-Stands}
use gologpp.Taptenc.Transformation.DomainAction.{join, action_text}
use gologpp.Taptenc.Transformation.RoundTrip.{AreSeparators, parse_domain_action-Stands}
use gologpp.Taptenc.Transformation.Plans.{
  PlanAction, GroundedTime, Program, plan_action, plan_actions, plan_gpp_to_taptenc, Readings,
  read_window, has_arrow, read_action, read_actions, read_trace, plan_taptenc_to_gpp,
}

-- The text of an action of a plan, in taptenc's trace.
unfoldable pub text_of : {U : Type 0} → Separators → PlanAction U → Bytes
unfolding join
text_of sep a = a.id ++ sep.open_bracket ∷ (join sep.var_sep a.args ++ sep.closed_bracket ∷ [])

-- All texts of a trace, in order.
abbrev pub texts_of : List (GroundedTime × List Bytes) → List Bytes
texts_of [] = []
texts_of ((t, texts) ∷ trace) = texts ++ texts_of trace

module _ {T R I : Type 0} where
  -- The transitions of a plan, in order.
  abbrev pub transitions : List (TimedInstruction T R I) → List (Transition R)
  transitions [] = []
  transitions (i ∷ p) = elim i.instruction [
    | other x ↦ transitions p
    | transition t ↦ t ∷ transitions p
  ]

  abbrev pub instructions : List (TimedInstruction T R I) → List (Instruction R I)
  instructions = map (λ i. i.instruction)

Instruction-cases :
    {R I : Type 0} (x : Instruction R I)
    → ((t : Transition R) × (x ≡ transition t)) ⊎ ((o : I) × (x ≡ other o))
Instruction-cases (transition t) = inl (t, refl)
Instruction-cases (other o) = inr (o, refl)

Stands-Extends :
    {V : Type 0} (s s' : Storage V) (syms : List Bytes) (vs : List V)
    → Extends s s'
    → Stands s syms vs
    → Stands s' syms vs
Stands-Extends s s' [] [] x st = tt
Stands-Extends s s' [] (v ∷ vs) x st = elim st [ ]
Stands-Extends s s' (y ∷ ys) [] x st = elim st [ ]
Stands-Extends s s' (y ∷ ys) (v ∷ vs) x (h, st) = (x y v h, Stands-Extends s s' ys vs x st)

-- A text that is no platform transition, and shorter than npos.
abbrev pub IsPlainText : Bytes → Type 0
IsPlainText text = (length text < npos) × (has_arrow text ≡ false)

module _ {V R I A : Type 0} (program : Program V R I A) (sep : Separators) where
  -- The reference of a transition of the program: its action is found by its name, accepts the
  -- arguments and makes the reference again, and the name has no bracket in it.
  pub record IsKnown (r : R) : Type 0 where
    pub target : A
    pub found : program.action (program.name r) ≡ some target
    pub accepted : program.consistent target (program.args r) ≡ true
    pub made : program.reference target (program.args r) ≡ r
    pub no_open : Absent sep.open_bracket (program.name r)
    pub no_closed : Absent sep.closed_bracket (program.name r)

  abbrev pub AllKnown : {T : Type 0} → List (TimedInstruction T R I) → Type 0
  AllKnown p = All (λ t. IsKnown t.reference) (transitions p)

module _ (time : TimeModel) {V R I A : Type 0} (program : Program V R I A)
    (env : Durations time.T R) (is_short : time.T → time.T → Bool) (sep : Separators) where
  -- What `append` does to an instruction whose window is set.
  append-set :
      (i : TimedInstruction time.T R I) (a b : time.T) (p : List (TimedInstruction time.T R I))
      → i.timepoints_default ≡ false
      → append time env i a b p ≡ i ∷ p
  unfolding append
  append-set i a b p h = rw h

  read_window_lem :
      (now : Readings time.T) (t : GroundedTime) (i : Instruction R I)
      → ((read_window time program env is_short sep now t i).instruction ≡ i)
        × ((read_window time program env is_short sep now t i).timepoints_default ≡ false)
  unfolding read_window
  read_window_lem now t i = (ground arith, ground arith)

  -- A text that is read as a transition, at all times.
  abbrev ReadsAs : Storage V → Bytes → Transition R → Type 0
  ReadsAs s text t =
      (1 ≤ length text)
      × ((now : Readings time.T) (at : GroundedTime)
          → (i : TimedInstruction time.T R I) × (read_action time program env is_short sep s now at
                text
              ≡ ok i)
            × (i.instruction ≡ transition t)
            × (i.timepoints_default ≡ false))

  abbrev Reads : Storage V → List Bytes → List (Transition R) → Type 0
  Reads s [] [] = Unit
  Reads s [] (t ∷ ts) = ⊥
  Reads s (x ∷ xs) [] = ⊥
  Reads s (x ∷ xs) (t ∷ ts) = ReadsAs s x t × Reads s xs ts

  -- The texts of one time, and what is left for the others.
  abbrev Progress :
      Storage V
      → List (Transition R)
      → List (TimedInstruction time.T R I)
      → Result (List (TimedInstruction time.T R I))
      → List Bytes
      → Type 0
  Progress s ts plan r more =
      (q : List (TimedInstruction time.T R I)) × (done : List (Transition R)) × (left : List
        (Transition R))
      × (r ≡ ok q)
      × (instructions q ≡ reverse_aux (map transition done) (instructions plan))
      × (ts ≡ done ++ left)
      × Reads s more left

  read_actions-Reads :
      (s : Storage V) (clock : ℕ → Readings time.T) (at : GroundedTime) (texts more : List Bytes)
      (ts : List (Transition R)) (plan : List (TimedInstruction time.T R I))
      → Reads s (texts ++ more) ts
      → Progress s ts plan (read_actions time program env is_short sep s clock at texts plan) more
  unfolding read_actions
  read_actions-Reads s clock at [] more ts plan h = (plan, [], ts, refl, refl, refl, h)
  read_actions-Reads s clock at (x ∷ texts) more [] plan h = elim h [ ]
  read_actions-Reads s clock at ([] ∷ texts) more (t ∷ ts) plan h = absurd (omega (arith, h.0.0))
  read_actions-Reads s clock at ((c ∷ x) ∷ texts) more (t ∷ ts) plan ((l, reads), h) =
      let now = clock (length plan) in
      let (i, e, same, isset) = reads now at in
      let (q, done, left, p1, p2, p3, p4) =
        read_actions-Reads s clock at texts more ts (i ∷ plan) h in
      (
        q,
        t ∷ done,
        left,
        rw e (rw (append-set i now.appended.0 now.appended.1 plan isset) p1),
        p2 ∙ ap (λ y. reverse_aux (map transition done) (y ∷ instructions plan)) same,
        ap (λ l. t ∷ l) p3,
        p4,
      )

  push-append :
      (done left : List (Transition R)) (acc : List (Instruction R I))
      → reverse_aux (map transition left) (reverse_aux (map transition done) acc)
        ≡ reverse_aux (map transition (done ++ left)) acc
  push-append [] left acc = refl
  push-append (t ∷ done) left acc = push-append done left (transition t ∷ acc)

  read_trace-Reads :
      (s : Storage V) (clock : ℕ → Readings time.T) (trace : List (GroundedTime × List Bytes))
      (ts : List (Transition R)) (plan : List (TimedInstruction time.T R I))
      → Reads s (texts_of trace) ts
      → (q : List (TimedInstruction time.T R I)) × (read_trace time program env is_short sep s clock
            trace plan
          ≡ ok q)
        × (instructions q ≡ reverse_aux (map transition ts) (instructions plan))
  unfolding read_trace
  read_trace-Reads s clock [] [] plan h = (plan, refl, refl)
  read_trace-Reads s clock [] (t ∷ ts) plan h = elim h [ ]
  read_trace-Reads s clock ((at, texts) ∷ trace) ts plan h =
      let (q, done, left, p1, p2, p3, p4) =
        read_actions-Reads s clock at texts (texts_of trace) ts plan h in
      let (q', r1, r2) = read_trace-Reads s clock trace left q p4 in
      (
        q',
        rw p1 r1,
        r2
            ∙ ap (reverse_aux (map transition left)) p2
            ∙ push-append done left (instructions plan)
            ∙ ap (λ l. reverse_aux (map transition l) (instructions plan)) (sym p3),
      )

module _ (time : TimeModel) {V R I A U : Type 0} ⦃e : Eq V⦄ (program : Program V R I A)
    (env : Durations time.T R) (is_short : time.T → time.T → Bool) (sep : Separators)
    (shifted : time.T → time.T → U) (span : time.T → U) where
  text_of-action_text :
      (begin : time.T) (i : TimedInstruction time.T R I) (t : Transition R) (syms : List Bytes)
      → text_of sep (plan_action time program env shifted span begin i t syms)
        ≡ action_text sep t.hook (program.name t.reference) syms
  unfolding text_of plan_action action_text
  text_of-action_text begin i t syms =
      append_assoc (hook_text t.hook) (b'G' ∷ program.name t.reference) _

  length-action_text :
      (h : Hook) (name : Bytes) (syms : List Bytes) → 1 ≤ length (action_text sep h name syms)
  unfolding action_text
  length-action_text h name syms = omega (
    arith,
    length-append (hook_text h)
        (b'G' ∷ (name ++ sep.open_bracket ∷ (join sep.var_sep syms ++ sep.closed_bracket ∷ []))),
  )

  action_text-ReadsAs :
      (s : Storage V) (t : Transition R) (syms : List Bytes)
      → IsConsistent s
      → Stands s syms (program.args t.reference)
      → AreSeparators sep
      → IsKnown program sep t.reference
      → IsPlainText (action_text sep t.hook (program.name t.reference) syms)
      → ReadsAs time program env is_short sep s
          (action_text sep t.hook (program.name t.reference) syms)
          t
  unfolding read_action
  action_text-ReadsAs s t syms c st q known (fits, no_arrow) = (
    length-action_text t.hook (program.name t.reference) syms,
    λ now at.
        let r = program.reference known.target (program.args t.reference) in
        let i = transition (record { reference = r; hook = t.hook }) in
        let (same, isset) = read_window_lem time program env is_short sep now at i in
        (
          read_window time program env is_short sep now at i,
          rw (
            no_arrow,
            parse_domain_action-Stands sep program.action program.consistent t.hook
                (program.name t.reference) known.target syms (program.args t.reference) s c st q
                known.no_open known.no_closed fits known.found known.accepted,
          ),
          same ∙ ap (λ y. transition (record { reference = y; hook = t.hook })) known.made,
          isset,
        ),
  )

  abbrev texts : List (PlanAction U) → List Bytes
  texts = map (text_of sep)

  abbrev sent :
      time.T → List (TimedInstruction time.T R I) → Storage V → List (PlanAction U) × Storage V
  sent = plan_actions time program env shifted span

  plan_actions-Reads :
      (begin : time.T) (p : List (TimedInstruction time.T R I)) (s : Storage V)
      → IsConsistent s
      → AreSeparators sep
      → AllKnown program sep p
      → All IsPlainText (texts (sent begin p s).0)
      → IsConsistent (sent begin p s).1
        × Extends s (sent begin p s).1
        × Reads time program env is_short sep
            (sent begin p s).1
            (texts (sent begin p s).0)
            (transitions p)
  unfolding plan_actions
  plan_actions-Reads begin [] s c q k f = (c, λ x v h. h, tt)
  plan_actions-Reads begin (i ∷ p) s c q k f = elim (Instruction-cases i.instruction) [
    | inr (o, e') ↦ rw e' (plan_actions-Reads begin p s c q (rw e' at k) (rw e' at f))
    | inl (t, e') ↦
        let k' = rw e' at k in
        let f' = rw e' at f in
        let (c1, x1, st) = store_args-Stands (program.args t.reference) s c in
        let syms = (store_args (program.args t.reference) s).0 in
        let s1 = (store_args (program.args t.reference) s).1 in
        let (c2, x2, rest) = plan_actions-Reads begin p s1 c1 q k'.1 f'.1 in
        let same = text_of-action_text begin i t syms in
        rw e' (
          (
            c2,
            λ y v h. x2 y v (x1 y v h),
            (
              rw same (
                  action_text-ReadsAs (sent begin p s1).1 t syms c2
                    (Stands-Extends s1 (sent begin p s1).1 syms (program.args t.reference) x2 st) q
                    k'.0 (rw same at f'.0)),
              rest,
            ),
          ))
  ]

  -- A plan goes to taptenc and comes back: if taptenc's trace has the texts of the actions that it was
  -- given, in their order and at whatever times, then the trace is read without an error as a plan whose
  -- instructions are the transitions of the plan, in order; what was no transition is lost. The plan's
  -- references have to be known, the texts have to be plain, and taptenc's separators special.
  pub plan_taptenc_to_gpp-plan_gpp_to_taptenc :
      (clock : ℕ → Readings time.T) (p : List (TimedInstruction time.T R I)) (s s' : Storage V)
      (actions : List (PlanAction U)) (trace : List (GroundedTime × List Bytes))
      → IsConsistent s
      → AreSeparators sep
      → AllKnown program sep p
      → plan_gpp_to_taptenc time program env shifted span p s ≡ ok (actions, s')
      → All IsPlainText (map (text_of sep) actions)
      → trace ≢ []
      → texts_of trace ≡ map (text_of sep) actions
      → (q : List (TimedInstruction time.T R I)) × (plan_taptenc_to_gpp time program env is_short
            sep s' clock trace
          ≡ ok q)
        × (instructions q ≡ reverse (map transition (transitions p)))
  unfolding plan_gpp_to_taptenc plan_taptenc_to_gpp
  plan_taptenc_to_gpp-plan_gpp_to_taptenc clock [] s s' actions trace c q k g f n h = cc
  plan_taptenc_to_gpp-plan_gpp_to_taptenc clock (i ∷ p) s s' actions [] c q k g f n h =
      absurd (n refl)
  plan_taptenc_to_gpp-plan_gpp_to_taptenc clock (i ∷ p) s s' actions (entry ∷ trace) c q k g f n h =
      let same = ok_inj (sent i.earliest (i ∷ p) s) (actions, s') g in
      let acts : (sent i.earliest (i ∷ p) s).0 ≡ actions = ap (λ x. x.0) same in
      let storage : (sent i.earliest (i ∷ p) s).1 ≡ s' = ap (λ x. x.1) same in
      let (c', x, reads) =
        plan_actions-Reads i.earliest (i ∷ p) s c q k
          (subst (λ a. All IsPlainText (texts a)) (sym acts) f) in
      let reads' : Reads time program env is_short sep s' (texts_of (entry ∷ trace))
          (transitions (i ∷ p)) =
        subst (λ y. Reads time program env is_short sep s' y (transitions (i ∷ p)))
          (ap texts acts ∙ sym h)
          (subst
            (λ y.
              Reads time program env is_short sep y (texts (sent i.earliest (i ∷ p) s).0)
                (transitions (i ∷ p)))
            storage reads) in
      let (r, e', same') =
        read_trace-Reads time program env is_short sep s' clock (entry ∷ trace)
          (transitions (i ∷ p)) [] reads' in
      (
        r,
        e',
        same'
            ∙ reverse_aux-eq (map transition (transitions (i ∷ p))) []
            ∙ append-nil (reverse (map transition (transitions (i ∷ p)))),
      )
