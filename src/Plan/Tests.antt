-- ===== src/Plan/Tests.antt =====
-- Plans in whole seconds: an action that takes two to five seconds, and a marker.
use gologpp.Prelude.{ℕ, ◌≡◌, refl, true, false, some, [], ◌∷◌, List, map, All, eqb}
use mathlib.Core.List.{reverse}
use gologpp.Execution.Activity.{start, end}
use gologpp.Plan.Time.{whole_seconds, max_of}
use gologpp.Plan.{transition, other, TimedInstruction, Durations, starts, append, make_start_slack}
use gologpp.Plan.Windows.{IsOrdered, IsWindow, IsRange, make_start_slack_lem}

abbrev Timed : Type 0
Timed = TimedInstruction ℕ ℕ ℕ

abbrev env : Durations ℕ ℕ
env = record { same = eqb; duration = λ r. record { min = 2; max = 5 } }

env-IsRange : IsRange whole_seconds env
env-IsRange = record { nonneg = λ r. refl; ranged = λ r. refl }

abbrev starting : Timed
starting = record {
  instruction = transition (record { reference = 7; hook = start });
  earliest = 10;
  latest = 12;
  timepoints_default = true;
}

abbrev marker : Timed
marker = record { instruction = other 0; earliest = 10; latest = 12; timepoints_default = true }

abbrev ending : Timed
ending = record {
  instruction = transition (record { reference = 7; hook = end });
  earliest = 0;
  latest = 0;
  timepoints_default = true;
}

abbrev slacked : List Timed
slacked =
    record {
      instruction = transition (record { reference = 7; hook = end });
      earliest = 102;
      latest = 115;
      timepoints_default = false;
    }
    ∷ record { instruction = other 0; earliest = 100; latest = 110; timepoints_default = false }
    ∷ record {
      instruction = transition (record { reference = 7; hook = start });
      earliest = 100;
      latest = 110;
      timepoints_default = false;
    }
    ∷ []

slack_runs :
    make_start_slack whole_seconds env 10 100 100 (starting ∷ marker ∷ ending ∷ []) ≡ some slacked
unfolding make_start_slack max_of starts
slack_runs = refl

make_start_slack_example :
    IsOrdered whole_seconds slacked
    × All (IsWindow whole_seconds) slacked
    × (map (λ j. j.instruction) slacked
        ≡ reverse (map (λ j. j.instruction) (starting ∷ marker ∷ ending ∷ [])))
make_start_slack_example =
    make_start_slack_lem whole_seconds env 10 100 100 (starting ∷ marker ∷ ending ∷ []) slacked
      env-IsRange refl refl slack_runs

append_runs :
    append whole_seconds env ending 100 100 (marker ∷ starting ∷ [])
    ≡ record {
      instruction = transition (record { reference = 7; hook = end });
      earliest = 12;
      latest = 17;
      timepoints_default = false;
    }
      ∷ marker
      ∷ starting
      ∷ []
unfolding append max_of starts
append_runs = refl
