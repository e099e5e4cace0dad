-- ===== src/Fluents/Tests.antt =====
-- A fluent over rooms, and its initial values.
use gologpp.Prelude.{ℕ, ◌≡◌, refl, Bool, some, [], ◌∷◌, leb, text_eq}
use gologpp.Error.{Result, ok, err, user_error, bug}
use gologpp.Fluents.{Param, Argument, constant, variable_ref, other, InitialValue, Fluent, define}

-- A type is a bound of the values.
abbrev suits : ℕ → Argument ℕ ℕ ℕ → Result Bool
suits t (constant v) = ok (leb v t)
suits t (variable_ref p) = ok (leb p.type t)
suits t (other u) = ok (leb u t)

abbrev room : Param ℕ
room = record { name = "room"; type = 9 }

abbrev light : Fluent ℕ ℕ ℕ
light = record { type = 1; params = room ∷ []; initial_values = [] }

abbrev kitchen : InitialValue ℕ ℕ ℕ
kitchen = record { args = constant 3 ∷ []; value = 1 }

abbrev everywhere : InitialValue ℕ ℕ ℕ
everywhere = record { args = variable_ref room ∷ []; value = 0 }

abbrev nowhere : InitialValue ℕ ℕ ℕ
nowhere = record { args = []; value = 0 }

abbrev computed : InitialValue ℕ ℕ ℕ
computed = record { args = other 3 ∷ []; value = 0 }

-- What comes before an initial value that is refused stays.
partly :
    define suits (some (kitchen ∷ nowhere ∷ everywhere ∷ [])) light
    ≡ (err user_error, record light { initial_values = kitchen ∷ [] })
unfolding define
partly = refl

refused : define suits (some (computed ∷ [])) light ≡ (err bug, light)
unfolding define
refused = refl
