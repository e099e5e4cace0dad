-- ===== src/Scope/Tests.antt =====
-- The theorems on scopes at a scope inside the root: types are numbers under `≤`, and identifiers
-- that are not variables are numbers.
use gologpp.Prelude.{
  ℕ, String, ◌≡◌, ◌≢◌, refl, leb, nat_eq, text_eq, Option, none, some, List, [], ◌∷◌, arith,
  is_some, ◌||◌, if◌then◌else◌,
}
use gologpp.Error.{Result, ok, err, redefinition_error, ◌>>=◌}
use gologpp.Scope.{
  register_identifier, Variable, Identifier, variable, other, deny, force, as_variable, get_var,
}
use gologpp.Scope.Variables.{get_var-again}
use gologpp.Scope.Globals.{Global, declare_global, define_global}
use gologpp.Scope.Globals.Laws.{define_global-declare_global}

abbrev var : String → ℕ → Variable ℕ
var n t = record { name = n; type = t }

abbrev inner : List (String × Identifier ℕ ℕ)
inner = ("x", other 7) ∷ []

abbrev outer : List (List (String × Identifier ℕ ℕ))
outer = (("x", variable (var "x" 2)) ∷ []) ∷ []

abbrev as_other : Identifier ℕ ℕ → Option ℕ
as_other (variable v) = none
as_other (other n) = some n

-- A variable takes the name of the identifier 7, of another kind.
abbrev replaced : List (List (String × Identifier ℕ ℕ))
replaced = (("x", variable (var "x" 5)) ∷ []) ∷ outer

registers : register_identifier as_variable "x" (variable (var "x" 5)) (inner ∷ outer) ≡ ok replaced
unfolding register_identifier as_variable
registers = refl

x_not_y : ◌≢◌ {A = String} "x" "y"
x_not_y h = ground (arith, (text_eq.beq_iff "x" "y").1 h)

forced : (get_var leb force 3 "x" (inner ∷ outer)).0 ≡ some (var "x" 3)
unfolding get_var
forced = refl

get_var-again_example :
    get_var leb deny 3 "x" (get_var leb force 3 "x" (inner ∷ outer)).1
    ≡ (some (var "x" 3), (get_var leb force 3 "x" (inner ∷ outer)).1)
get_var-again_example = get_var-again leb force 3 "x" inner outer (var "x" 3) refl forced

abbrev f : String → List (String × Global ℕ ℕ ℕ ℕ)
f n = (n, record { kind = 1; type = 2; params = 0; definition = none }) ∷ []

abbrev f_defined : List (String × Global ℕ ℕ ℕ ℕ)
f_defined = ("f", record { kind = 1; type = 2; params = 0; definition = some 9 }) ∷ []

-- A class whose globals are defined once, and by numbers above their parameters.
abbrev define_once : ℕ → Global ℕ ℕ ℕ ℕ → Result (Global ℕ ℕ ℕ ℕ)
define_once b g =
    if is_some g.definition || leb b g.params
    then err redefinition_error
    else ok (record g { definition = some b })

defines : define_global define_once leb 1 3 "f" 4 9 (f "f") ≡ ok f_defined
unfolding define_global
defines = refl

define_global-declare_global_example :
    (declare_global leb 1 3 "g" 4 (f "f") >>= λ hs. define_global define_once leb 1 3 "g" 4 9 hs)
    ≡ define_global define_once leb 1 3 "g" 4 9 (f "f")
define_global-declare_global_example =
    define_global-declare_global define_once leb 1 3 "g" 4 9 (f "f") refl
