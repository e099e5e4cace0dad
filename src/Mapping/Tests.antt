-- ===== src/Mapping/Tests.antt =====
-- Mappings of an exogenous action.
use gologpp.Prelude.{ℕ, ◌≡◌, refl, String, some, List, [], ◌∷◌, text_eq, All}
use gologpp.Error.{ok, err, user_error, bad_cast}
use gologpp.Mapping.{
  Param, Mapped, variable_ref, other, BackendMapping, new_mapping, mapped_var, set_mapping,
}
use gologpp.Mapping.Laws.{set_mapping-mapped_var}

abbrev from : Param
from = record { name = "from"; address = 1 }

abbrev to : Param
to = record { name = "to"; address = 2 }

abbrev params : List Param
params = from ∷ to ∷ []

abbrev pairs : List (String × Mapped ℕ)
pairs =
    ("start", variable_ref 1)
    ∷ ("target", variable_ref 2)
    ∷ ("start", variable_ref 2)
    ∷ ("speed", other 7)
    ∷ []

abbrev moving : BackendMapping ℕ
moving = record {
  backend_name = "move";
  arg_mapping = ("start", variable_ref 1) ∷ ("target", variable_ref 2) ∷ ("speed", other 7) ∷ [];
}

accepted : set_mapping params (new_mapping "move" pairs) ≡ ok moving
unfolding set_mapping new_mapping
accepted = refl

too_few :
    set_mapping params (new_mapping {O = ℕ} "move" (("start", variable_ref 1) ∷ []))
    ≡ err user_error
unfolding set_mapping new_mapping
too_few = refl

-- An expression that is no variable, in front of the one that is looked for.
in_front : set_mapping params (new_mapping "move" (("speed", other 7) ∷ pairs)) ≡ err bad_cast
unfolding set_mapping new_mapping
in_front = refl

set_mapping-mapped_var_example :
    All (λ p. (n : String) × (mapped_var n moving ≡ ok (some p.address))) params
set_mapping-mapped_var_example = set_mapping-mapped_var params "move" pairs moving accepted
