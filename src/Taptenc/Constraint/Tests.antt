-- ===== src/Taptenc/Constraint/Tests.antt =====
-- The theorems on constraints at constraints of one component: durations and bounds are numbers,
-- states are texts.
use gologpp.Prelude.{ℕ, ◌+◌, String, ◌≡◌, ◌↔◌, refl, true, List, [], ◌∷◌, nat_eq}
use gologpp.Error.{ok, err, unsupported}
use gologpp.Execution.Activity.{Hook}
use gologpp.Taptenc.Constraint.{
  or, and, BinaryOperator, future, value, action_hook, StateSpec, state_assertion, boolean,
  temporal_unary, temporal_binary, Constraint,
}
use gologpp.Taptenc.Constraint.Info.{IcType, Info, unary, binary}
use gologpp.Taptenc.Constraint.Compile.{compile, compile_constraint}
use gologpp.Taptenc.Constraint.Accepts.{Accepts, compile_constraint_lem}

abbrev span : ℕ → ℕ → ℕ
span lo hi = 1 + lo + hi

abbrev same : String → String
same s = s

abbrev arg : ℕ → String
arg i = "_arg"

abbrev tt_name : String → List String → String
tt_name n args = n

abbrev camera : String → StateSpec ℕ String ℕ
camera s = state_assertion 1 s

-- Within 2 and 5 after the activation, the camera is off or booting.
abbrev soon : StateSpec ℕ String ℕ
soon = temporal_unary future 2 5 (boolean (camera "off") or (camera "booting"))

-- The camera is booting until it is on, with bounds that are not kept.
abbrev waits : StateSpec ℕ String ℕ
waits = temporal_binary (camera "booting") BinaryOperator.until 2 5 (camera "on")

abbrev both : StateSpec ℕ String ℕ
both = boolean (camera "on") and (camera "off")

abbrev looks : Constraint ℕ String ℕ
looks = record {
  lhs = action_hook Hook.start (record { name = "look"; args = value true ∷ [] });
  rhs = waits;
}

abbrev looking : List String
looking = "startGlook" ∷ []

abbrev soon_result : Info ℕ String String
soon_result =
    unary "c" IcType.future looking (record { bounds = 8; targets = "off" ∷ "booting" ∷ [] })

abbrev looks_result : Info ℕ String String
looks_result =
    binary "c" IcType.until looking (record { bounds = 0; targets = "on" ∷ [] }) ("booting" ∷ [])

soon_info : compile 0 span same "c" looking soon ≡ ok soon_result
unfolding compile
soon_info = refl

looks_info : compile_constraint 0 span same arg tt_name "c" looks ≡ ok looks_result
unfolding compile_constraint
looks_info = refl

both_throws : compile 0 span same "c" looking both ≡ err unsupported
unfolding compile
both_throws = refl

compile_constraint_lem_example :
    (compile_constraint 0 span same arg tt_name "c" looks ≡ ok looks_result)
    ↔ Accepts 0 span same arg tt_name "c" looks looks_result
compile_constraint_lem_example =
    compile_constraint_lem 0 span same arg tt_name "c" looks looks_result
