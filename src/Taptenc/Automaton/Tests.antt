-- ===== src/Taptenc/Automaton/Tests.antt =====
-- The theorems on automata at a camera that boots within a time bound.
use gologpp.Prelude.{ℕ, ◌≡◌, ◌↔◌, refl, true, false, leb, none, some, [], ◌∷◌, text_eq, All}
use gologpp.Error.{ok}
use gologpp.Taptenc.Constraint.{and}
use gologpp.Platform.Component.{ordinary, exogenous}
use gologpp.Taptenc.Automaton.{
  ge, le, clock_bound, operation, ClockedComponent, Automaton, Constraints, compile_component,
}
use gologpp.Taptenc.Automaton.Description.{IsCompiled, compile_component_lem}
use gologpp.Taptenc.Automaton.Laws.{IsOptional, compile_component-accepts}

-- A clock constraint is the number of its bounds.
abbrev counted : Constraints ℕ ℕ
counted = record {
  true_cc = 0;
  comparison = λ c op v. 1;
  conjunction = λ x y. 2;
  fits = λ v. leb v 100;
  global_clock = "glob";
}

abbrev camera : ClockedComponent ℕ
camera = record {
  name = "camera";
  states =
      record { name = "off"; clock_formula = none }
      ∷ record { name = "booting"; clock_formula = some (clock_bound "boot" le 9) }
      ∷ [];
  transitions =
      record {
        kind = ordinary;
        source = "off";
        target = "booting";
        clock_formula = none;
        resets = "boot" ∷ [];
      }
      ∷ record {
        kind = exogenous;
        source = "booting";
        target = "off";
        clock_formula = some (operation (clock_bound "boot" ge 3) and (clock_bound "boot" le 9));
        resets = [];
      }
      ∷ [];
  clocks = "boot" ∷ [];
  current_state = "off";
}

abbrev compiled : Automaton ℕ
compiled = record {
  states =
      record { id = "cameraGoff"; invariant = 0; initial = true }
      ∷ record { id = "cameraGbooting"; invariant = 1; initial = false }
      ∷ [];
  transitions =
      record {
        source_id = "cameraGoff";
        dest_id = "cameraGbooting";
        action = "cameraGoffTbooting";
        guard = 0;
        update = "cameraGboot" ∷ [];
      }
      ∷ record {
        source_id = "cameraGbooting";
        dest_id = "cameraGoff";
        action = "no_op";
        guard = 2;
        update = [];
      }
      ∷ [];
  prefix = "camera";
  clocks = "glob" ∷ "cameraGboot" ∷ [];
}

compiles : compile_component counted camera ≡ ok compiled
unfolding compile_component
compiles = refl

compile_component-accepts_example :
    ((a : Automaton ℕ) × (compile_component counted camera ≡ ok a)) ↔ (
      All (λ s. IsOptional counted s.clock_formula) camera.states
      × All (λ e. IsOptional counted e.clock_formula) camera.transitions)
compile_component-accepts_example = compile_component-accepts counted camera

compile_component_lem_example :
    (compile_component counted camera ≡ ok compiled) ↔ IsCompiled counted camera compiled
compile_component_lem_example = compile_component_lem counted camera compiled
