-- ===== src/Taptenc/Transformation/Plans.antt =====
-- The plans that taptenc gets and gives back (src/semantics/platform/taptenc/transformation.cpp:
-- plan_gpp_to_taptenc, plan_taptenc_to_gpp, and the times that the actions are read with).
pub mod Trip
use gologpp.Prelude.{
  ℕ, ◌+◌, Bool, true, false, Option, none, some, List, [], ◌∷◌, ◌++◌, Eq, eqb, ◌||◌, ◌&&◌,
  if◌then◌else◌, length,
}
use gologpp.Error.{Result, ok, err, bug, ◌>>=◌}
use gologpp.Execution.Activity.{Hook}
use gologpp.Execution.Backend.{Transition}
use gologpp.Plan.Time.{TimeModel}
use gologpp.Plan.{
  Instruction, transition, other, TimedInstruction, DurationRange, Durations, timed, set_earliest,
  set_latest, append,
}
use gologpp.Strings.{Bytes}
use gologpp.Taptenc.Transformation.{
  Storage, Separators, hook_text, store_args, parse_domain_action, parse_platform_action,
}

-- taptenc's PlanAction: its name, the times at which it may begin, and its duration. `U` are taptenc's
-- time points.
pub record PlanAction (U : Type 0) : Type 0 where
  pub id : Bytes
  pub args : List Bytes
  pub absolute : U × U
  pub duration : U × U

-- taptenc's groundedActionTime.
pub record GroundedTime : Type 0 where
  pub earliest_start : ℕ
  pub max_delay : ℕ

-- What the model of the program gives. `reference` makes a reference from an action and arguments,
-- and `switch_state` one to the action of this name, if it is defined.
pub record Program (V R I A : Type 0) : Type 0 where
  pub name : R → Bytes
  pub args : R → List V
  pub action : Bytes → Option A
  pub consistent : A → List V → Bool
  pub reference : A → List V → R
  pub switch_defined : Bool
  pub switch_state : Bytes × Bytes × Bytes → I

-- `shifted begin t` is the time from `begin` to `t`, at least zero, and `span d` a duration, as
-- taptenc's numbers.
module _ (time : TimeModel) {V R I A U : Type 0} ⦃e : Eq V⦄ (program : Program V R I A)
    (env : Durations time.T R) (shifted : time.T → time.T → U) (span : time.T → U) where
  unfoldable pub plan_action :
      time.T → TimedInstruction time.T R I → Transition R → List Bytes → PlanAction U
  unfolding hook_text
  plan_action begin i t syms = record {
    id = hook_text t.hook ++ b'G' ∷ program.name t.reference;
    args = syms;
    absolute = (shifted begin i.earliest, shifted begin i.latest);
    duration = (span (env.duration t.reference).min, span (env.duration t.reference).max);
  }

  -- The loop of plan_gpp_to_taptenc: instructions that are no transitions are left out.
  unfoldable pub plan_actions :
      time.T → List (TimedInstruction time.T R I) → Storage V → List (PlanAction U) × Storage V
  unfolding store_args plan_action
  plan_actions begin [] s = ([], s)
  plan_actions begin (i ∷ p) s = elim i.instruction [
    | other x ↦ plan_actions begin p s
    | transition t ↦
        let (syms, s') = store_args (program.args t.reference) s in
        let (rest, s'') = plan_actions begin p s' in (plan_action begin i t syms ∷ rest, s'')
  ]

  -- `front()` of an empty plan is undefined: `transform` returns such a plan before.
  unfoldable pub plan_gpp_to_taptenc :
      List (TimedInstruction time.T R I) → Storage V → Result (List (PlanAction U) × Storage V)
  unfolding plan_actions
  plan_gpp_to_taptenc [] s = err gologpp.Error.indeterminate
  plan_gpp_to_taptenc (i ∷ p) s = ok (plan_actions i.earliest (i ∷ p) s)

-- Four readings of the clock that the reading of an action makes, and two for `append`.
pub record Readings (T : Type 0) : Type 0 where
  pub created : T × T
  pub set : T × T
  pub appended : T × T

-- Whether `->` is in a text.
unfoldable pub has_arrow : Bytes → Bool
has_arrow [] = false
has_arrow (x ∷ []) = false
has_arrow (x ∷ y ∷ xs) = (eqb x b'-' && eqb y b'>') || has_arrow (y ∷ xs)

-- `is_short` is whether the latest time is less than a second after the earliest.
module _ (time : TimeModel) {V R I A : Type 0} (program : Program V R I A)
    (env : Durations time.T R) (is_short : time.T → time.T → Bool) (sep : Separators) where
  -- A window that is shorter than a second is made a second longer.
  unfoldable pub read_window :
      Readings time.T → GroundedTime → Instruction R I → TimedInstruction time.T R I
  unfolding timed set_earliest set_latest
  read_window now t i =
      let earliest = time.add now.set.0 (time.seconds t.earliest_start) in
      let latest = time.add now.set.1 (time.seconds (t.earliest_start + t.max_delay)) in
      let rv =
        set_latest time latest
          (set_earliest time earliest (timed time i now.created.0 now.created.1)) in
      if is_short earliest latest then set_latest time (time.add latest (time.seconds 1)) rv else rv

  unfoldable pub read_action :
      Storage V → Readings time.T → GroundedTime → Bytes → Result (TimedInstruction time.T R I)
  unfolding has_arrow
  read_action s now t text =
      if has_arrow text
      then (parse_platform_action program.switch_defined text >>= λ r.
          ok (read_window now t (other (program.switch_state r))))
      else (parse_domain_action sep program.action program.consistent s text >>= λ r. ok (
          read_window now t
            (transition (record { reference = program.reference r.1 r.2; hook = r.0 }))))

  -- The inner loop, over the texts of one time. The plan has its last instruction first.
  unfoldable pub read_actions :
      Storage V
      → (ℕ → Readings time.T)
      → GroundedTime
      → List Bytes
      → List (TimedInstruction time.T R I)
      → Result (List (TimedInstruction time.T R I))
  unfolding append
  read_actions s clock t [] plan = ok plan
  read_actions s clock t ([] ∷ texts) plan = read_actions s clock t texts plan
  read_actions s clock t ((c ∷ text) ∷ texts) plan =
      let now = clock (length plan) in
      read_action s now t (c ∷ text) >>= λ i.
      read_actions s clock t texts (append time env i now.appended.0 now.appended.1 plan)

  unfoldable pub read_trace :
      Storage V
      → (ℕ → Readings time.T)
      → List (GroundedTime × List Bytes)
      → List (TimedInstruction time.T R I)
      → Result (List (TimedInstruction time.T R I))
  unfolding read_actions
  read_trace s clock [] plan = ok plan
  read_trace s clock ((t, texts) ∷ trace) plan =
      read_actions s clock t texts plan >>= λ longer. read_trace s clock trace longer

  unfoldable pub plan_taptenc_to_gpp :
      Storage V
      → (ℕ → Readings time.T)
      → List (GroundedTime × List Bytes)
      → Result (List (TimedInstruction time.T R I))
  unfolding read_trace
  plan_taptenc_to_gpp s clock [] = err bug
  plan_taptenc_to_gpp s clock (entry ∷ trace) = read_trace s clock (entry ∷ trace) []
