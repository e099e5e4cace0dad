-- ===== src/Taptenc/Transformation/Tests.antt =====
-- A plan of two transitions that goes to taptenc and comes back, and a platform transition.
use gologpp.Prelude.{
  ℕ, ◌-◌, ◌≡◌, refl, Bool, true, false, Option, none, some, List, [], ◌∷◌, map, lookup, ◌==◌,
  nat_eq, ltb, if◌then◌else◌, arith,
}
use gologpp.Error.{ok}
use gologpp.Execution.Activity.{start, end}
use gologpp.Execution.Backend.{Transition}
use gologpp.Plan.Time.{whole_seconds}
use gologpp.Plan.{Instruction, transition, other, TimedInstruction, Durations}
use gologpp.Strings.{Bytes, bytes_eq, bytes_Eq, find, substr}
use gologpp.Taptenc.Transformation.{
  Storage, Separators, empty_storage, store_args, retrieve_arg, read_hook, read_args,
  parse_domain_action, parse_platform_action,
}
use gologpp.Taptenc.Transformation.Arguments.{IsConsistent}
use gologpp.Taptenc.Transformation.DomainAction.{action_text}
use gologpp.Taptenc.Transformation.RoundTrip.{AreSeparators}
use gologpp.Taptenc.Transformation.PlatformAction.{
  qualified, transition_text, parse_platform_action_lem,
}
use gologpp.Taptenc.Transformation.Plans.{
  PlanAction, GroundedTime, Program, Readings, plan_actions, plan_gpp_to_taptenc,
  plan_taptenc_to_gpp, has_arrow,
}
use gologpp.Taptenc.Transformation.Plans.Trip.{
  text_of, instructions, IsKnown, plan_taptenc_to_gpp-plan_gpp_to_taptenc,
}

abbrev brackets : Separators
brackets = record { open_bracket = b'('; closed_bracket = b')'; var_sep = b',' }

brackets-AreSeparators : AreSeparators brackets
brackets-AreSeparators = record {
  open_special = refl;
  closed_special = refl;
  sep_special = refl;
  open_closed = refl;
  sep_closed = refl;
}

nothing_stored : IsConsistent (empty_storage {V = ℕ})
unfolding lookup
nothing_stored = record { stored = λ v x h. cc; numbered = λ x v h. cc }

abbrev three : List ℕ
three = 5 ∷ 8 ∷ 5 ∷ []

-- The third argument has the symbol of the first.
shared :
    (store_args three empty_storage).0
    ≡ (b'a' ∷ b'r' ∷ b'g' ∷ b'0' ∷ [])
      ∷ (b'a' ∷ b'r' ∷ b'g' ∷ b'1' ∷ [])
      ∷ (b'a' ∷ b'r' ∷ b'g' ∷ b'0' ∷ [])
      ∷ []
unfolding store_args
shared = refl

-- One action, `go`, of any arguments; references are the lists of arguments.
abbrev go : Bytes
go = b'g' ∷ b'o' ∷ []

abbrev find_action : Bytes → Option ℕ
unfolding bytes_eq
find_action name = if name == go then some 7 else none

abbrev program : Program ℕ (List ℕ) (Bytes × Bytes × Bytes) ℕ
program = record {
  name = λ r. go;
  args = λ r. r;
  action = find_action;
  consistent = λ a vs. true;
  reference = λ a vs. vs;
  switch_defined = true;
  switch_state = λ s. s;
}

abbrev stored : Storage ℕ
stored = (store_args three empty_storage).1

reads_back :
    parse_domain_action brackets find_action
      (λ a vs. true)
      stored
      (action_text brackets start go (store_args three empty_storage).0)
    ≡ ok (start, 7, three)
unfolding parse_domain_action action_text store_args bytes_eq find substr read_hook read_args
    retrieve_arg
reads_back = refl

abbrev gripper : Bytes
gripper = b'g' ∷ b'r' ∷ b'i' ∷ b'p' ∷ []

abbrev opened : Bytes
opened = b'o' ∷ []

abbrev closed : Bytes
closed = b'c' ∷ []

parse_platform_action_example :
    parse_platform_action true (
      transition_text
        (qualified gripper opened)
        (b'-' ∷ b'>' ∷ b'-' ∷ b'>' ∷ [])
        (qualified gripper closed))
    ≡ ok (gripper, opened, closed)
parse_platform_action_example =
    parse_platform_action_lem gripper opened closed (b'-' ∷ b'>' ∷ b'-' ∷ b'>' ∷ [])
      (refl, (refl, (refl, (refl, (refl, (refl, tt)))))) (refl, (refl, (refl, (refl, tt))))
      (refl, (refl, (refl, (refl, tt)))) (omega arith)

abbrev item :
    Instruction (List ℕ) (Bytes × Bytes × Bytes)
    → TimedInstruction ℕ (List ℕ) (Bytes × Bytes × Bytes)
item i = record { instruction = i; earliest = 3; latest = 9; timepoints_default = false }

abbrev first : Transition (List ℕ)
first = record { reference = three; hook = start }

abbrev last : Transition (List ℕ)
last = record { reference = three; hook = end }

abbrev plan : List (TimedInstruction ℕ (List ℕ) (Bytes × Bytes × Bytes))
plan =
    item (transition first) ∷ item (other (gripper, opened, closed)) ∷ item (transition last) ∷ []

abbrev durations : Durations ℕ (List ℕ)
durations = record { same = λ r r'. false; duration = λ r. record { min = 1; max = 5 } }

abbrev clock : ℕ → Readings ℕ
clock n = record { created = (n, n); set = (n, n); appended = (n, n) }

abbrev is_short : ℕ → ℕ → Bool
is_short a b = ltb (b - a) 1

abbrev sent : List (PlanAction ℕ) × Storage ℕ
sent = plan_actions whole_seconds program durations (λ a b. b - a) (λ d. d) 3 plan empty_storage

abbrev trace : List (GroundedTime × List Bytes)
trace = (record { earliest_start = 2; max_delay = 4 }, map (text_of brackets) sent.0) ∷ []

trip_example :
    (q : List (TimedInstruction ℕ (List ℕ) (Bytes × Bytes × Bytes))) × (plan_taptenc_to_gpp
        whole_seconds program durations is_short brackets sent.1 clock trace
      ≡ ok q)
    × (instructions q ≡ transition last ∷ transition first ∷ [])
unfolding plan_gpp_to_taptenc text_of has_arrow bytes_eq
trip_example =
    plan_taptenc_to_gpp-plan_gpp_to_taptenc whole_seconds program durations is_short brackets
      (λ a b. b - a) (λ d. d) clock plan empty_storage sent.1 sent.0 trace nothing_stored
      brackets-AreSeparators (known, (known, tt)) refl
      ((omega arith, refl), ((omega arith, refl), tt)) (cc) refl
  where
    known : IsKnown program brackets three
    known = record {
      target = 7;
      found = refl;
      accepted = refl;
      made = refl;
      no_open = (refl, (refl, tt));
      no_closed = (refl, (refl, tt));
    }
