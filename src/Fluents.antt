-- ===== src/Fluents.antt =====
-- Fluents and their initial values (src/model/fluent.cpp).
pub mod Laws
pub mod Tests
use Prim.Native.Nat.{◌%◌}
use gologpp.Prelude.{
  ℕ, take, String, Bool, true, false, Option, none, some, List, [], ◌∷◌, ◌++◌, length, eqb, Eq,
  ◌==◌, text_eq, if◌then◌else◌,
}
use gologpp.Error.{Result, ok, err, type_error, user_error, bug, ◌>>=◌}

-- The parameters of a fluent are variables; two variables are `==` if their names are.
pub record Param (T : Type 0) : Type 0 where
  pub name : String
  pub type : T

-- The argument of an initial value: a value, a reference to a variable, or another expression.
pub data Argument (V T O : Type 0) : Type 0 where
  constant : V → Argument V T O
  variable_ref : Param T → Argument V T O
  other : O → Argument V T O

pub record InitialValue (V T O : Type 0) : Type 0 where
  pub args : List (Argument V T O)
  pub value : V

pub record Fluent (V T O : Type 0) : Type 0 where
  pub type : T
  pub params : List (Param T)
  pub initial_values : List (InitialValue V T O)

module _ {V T O : Type 0} where
  -- Whether an argument is a value, or a reference to the parameter in its position.
  unfoldable pub is_allowed : Param T → Argument V T O → Bool
  is_allowed p (constant v) = true
  is_allowed p (variable_ref q) = q.name == p.name
  is_allowed p (other x) = false

  -- Global::arity: the number of parameters in an unsigned char.
  unfoldable pub arity : Fluent V T O → ℕ
  arity f = length f.params % 256

-- `suits` is `>=` of a type and an expression.
module _ {V T O : Type 0} (suits : T → Argument V T O → Result Bool) where
  unfoldable pub check_arg : Param T → Argument V T O → Result (Unit {0})
  unfolding is_allowed
  check_arg p a = suits p.type a >>= λ good.
      if good then (if is_allowed p a then ok tt else err bug) else err type_error

  -- The loop over the parameters up to the arity, which there are as many of as arguments.
  unfoldable pub check_args : List (Param T) → List (Argument V T O) → Result (Unit {0})
  unfolding check_arg
  check_args [] args = ok tt
  check_args (p ∷ ps) [] = ok tt
  check_args (p ∷ ps) (a ∷ args) = check_arg p a >>= λ checked. check_args ps args

  unfoldable pub check_initial_value : Fluent V T O → InitialValue V T O → Result (Unit {0})
  unfolding check_args arity
  check_initial_value f iv = suits f.type (constant iv.value) >>= λ good.
      if good
      then (if eqb (arity f) (length iv.args)
          then check_args (take (arity f) f.params) iv.args
          else err user_error)
      else err type_error

  -- The loop of `define`. The initial values in front of one that is refused stay.
  unfoldable pub add_initial_values :
      Fluent V T O → List (InitialValue V T O) → Result (Unit {0}) × Fluent V T O
  unfolding check_initial_value
  add_initial_values f [] = (ok tt, f)
  add_initial_values f (iv ∷ ivs) = elim (check_initial_value f iv) [
    | err x ↦ (err x, f)
    | ok done ↦ add_initial_values (record f { initial_values = f.initial_values ++ iv ∷ [] }) ivs
  ]

  unfoldable pub define :
      Option (List (InitialValue V T O)) → Fluent V T O → Result (Unit {0}) × Fluent V T O
  unfolding add_initial_values
  define (some ivs) f = add_initial_values f ivs
  define none f = (err user_error, f)
