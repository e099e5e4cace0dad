-- ===== src/References/Tests.antt =====
-- References whose arguments are values of the types of the program.
use gologpp.Prelude.{ℕ, ◌≡◌, ◌↔◌, refl, Bool, false, some, List, [], ◌∷◌, get_elem?, leb, arith}
use gologpp.Error.{Result, ok, err, bug, user_error, ◌>>=◌}
use gologpp.Types.{ValueType, predefined, number, symbol, string, void, ge}
use gologpp.Values.{Value, value, type_of, atomic, value_ge}
use gologpp.References.{
  Parameter, Target, Expression, plain, variable_ref, global_ref, no_arguments, arg_type, get,
  Reference, from_args, from_binding, ground_args,
}
use gologpp.References.Bindings.{AreDistinct, made}
use gologpp.References.Construction.{
  ArePassed, from_args_lem, from_args-get, from_binding-from_args,
}
use gologpp.References.Ground.{ground_args_lem}

abbrev V : Type 0
V = Value ℕ ℕ

abbrev member : V → ℕ → Bool
member v s = false

abbrev suits : ValueType ℕ → Expression V ℕ → Result Bool
suits t (plain v) = value_ge leb member 5 t v
suits t (variable_ref v) = arg_type {E = V} type_of (variable_ref v) >>= λ u. ge leb t u
suits t (global_ref g es) = arg_type {E = V} type_of (global_ref g es) >>= λ u. ge leb t u

abbrev amount : Parameter ℕ
amount = record { address = 3; type = predefined number }

abbrev label : Parameter ℕ
label = record { address = 4; type = predefined string }

abbrev deliver : Target ℕ
deliver = record { name = "deliver"; type = predefined void; params = amount ∷ label ∷ [] }

abbrev five : Expression V ℕ
five = plain (value (predefined number) (atomic 5))

abbrev red : Expression V ℕ
red = plain (value (predefined symbol) (atomic 6))

-- A symbol for a string, and one argument too many.
abbrev given : List (Expression V ℕ)
given = variable_ref (some amount) ∷ red ∷ five ∷ []

abbrev r : Reference V ℕ
r = record {
  target = some deliver;
  args = variable_ref (some amount) ∷ red ∷ [];
  binding = (3, variable_ref (some amount)) ∷ (4, red) ∷ [];
}

r_lem : from_args type_of suits (some deliver) given ≡ ok r
unfolding from_args value_ge ge
r_lem = refl

too_few : from_args type_of suits (some deliver) (five ∷ []) ≡ err user_error
unfolding from_args value_ge ge
too_few = refl

wrong_order : from_args type_of suits (some deliver) (red ∷ five ∷ []) ≡ err user_error
unfolding from_args value_ge ge
wrong_order = refl

-- A reference among the arguments is inconsistent.
inner :
    from_args type_of suits (some deliver) (
      global_ref
        (some (record { name = "weigh"; type = predefined number; params = amount ∷ [] }))
        no_arguments
      ∷ red
      ∷ [])
    ≡ err user_error
unfolding from_args value_ge ge
inner = refl

deliver-AreDistinct : AreDistinct deliver.params
deliver-AreDistinct = ((λ e. omega arith, tt), (tt, tt))

from_args_lem_example :
    (from_args type_of suits (some deliver) given ≡ ok r)
    ↔ (ArePassed type_of suits deliver.params given × (r ≡ made deliver given))
from_args_lem_example = from_args_lem type_of suits deliver given r

from_args-get_example :
    ((e : Expression V ℕ) × (get_elem? given 1 ≡ some e)
      × (get_elem? r.args 1 ≡ some e)
      × (get 4 r.binding ≡ ok e))
    × (get 7 r.binding ≡ err bug)
from_args-get_example =
    from_args-get type_of suits deliver given r 1 label 7 r_lem deliver-AreDistinct refl
      (λ e. omega arith, (λ e. omega arith, tt))

from_binding-from_args_example : from_binding type_of suits (some deliver) r.binding ≡ ok r
from_binding-from_args_example =
    from_binding-from_args type_of suits deliver given r r_lem deliver-AreDistinct

-- Every variable has the value 5.
abbrev evaluate : Expression V ℕ → Result V
evaluate (plain v) = ok v
evaluate (variable_ref v) = ok (value (predefined number) (atomic 5))
evaluate (global_ref g es) = err bug

abbrev grounded : Reference V ℕ
grounded = record {
  target = some deliver;
  args = five ∷ red ∷ [];
  binding = (3, five) ∷ (4, red) ∷ [];
}

grounded_lem : ground_args type_of suits evaluate r ≡ ok grounded
unfolding ground_args value_ge ge
grounded_lem = refl

ground_args_lem_example :
    (grounded.target ≡ some deliver)
    × ((v : V) × (evaluate (variable_ref (some amount)) ≡ ok v)
        × (get_elem? grounded.args 0 ≡ some (plain v))
        × (get 3 grounded.binding ≡ ok (plain v)))
unfolding get
ground_args_lem_example =
    ground_args_lem type_of suits evaluate deliver r grounded 0 amount (variable_ref (some amount))
      grounded_lem refl refl refl
