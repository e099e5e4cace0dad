-- ===== src/References.antt =====
-- References to globals and to variables, and the bindings of their parameters
-- (src/model/reference.h, src/model/reference.cpp, src/model/abstract_reference.cpp).
pub mod Bindings
pub mod Construction
pub mod Ground
pub mod Tests
use gologpp.Prelude.{
  ℕ, ◌+◌, String, Bool, true, false, ◌||◌, Option, none, some, is_some, List, [], ◌∷◌, ◌++◌, length,
  lookup, eqb, nat_eq, if◌then◌else◌,
}
use gologpp.Error.{Result, ok, err, bug, user_error, null_dereference, ◌>>=◌}
use gologpp.Types.{ValueType, predefined, symbol, string}

-- A variable is its address: bindings have pointers as keys.
pub record Parameter (S : Type 0) : Type 0 where
  pub address : ℕ
  pub type : ValueType S

pub record Target (S : Type 0) : Type 0 where
  pub name : String
  pub type : ValueType S
  pub params : List (Parameter S)

-- An argument. `E` are the expressions that are no references; a target that is gone is `none`. The
-- binding of a reference that is an argument has what its arguments have, and is left out.
mutual
  pub data Expression (E S : Type 0) : Type 0 where
    plain : E → Expression E S
    variable_ref : Option (Parameter S) → Expression E S
    global_ref : Option (Target S) → Arguments E S → Expression E S

  pub data Arguments (E S : Type 0) : Type 0 where
    no_arguments : Arguments E S
    argument : Expression E S → Arguments E S → Arguments E S

-- The hack that lets a symbol pass for a string.
unfoldable pub symbol_for_string : {S : Type 0} → ValueType S → ValueType S → Bool
symbol_for_string (predefined symbol) (predefined string) = true
symbol_for_string t_arg t_param = false

module _ {E S : Type 0} where
  unfoldable pub pack : List (Expression E S) → Arguments E S
  pack [] = no_arguments
  pack (e ∷ es) = argument e (pack es)

  unfoldable pub size : Arguments E S → ℕ
  size no_arguments = 0
  size (argument e es) = 1 + size es

  unfoldable pub arg_type : (E → ValueType S) → Expression E S → Result (ValueType S)
  arg_type type_of (plain e) = ok (type_of e)
  arg_type type_of (variable_ref (some v)) = ok v.type
  arg_type type_of (variable_ref none) = err null_dereference
  arg_type type_of (global_ref (some t) es) = ok t.type
  arg_type type_of (global_ref none es) = err null_dereference

  -- Binding::bind, an insertion that keeps an entry that is there.
  unfoldable pub bind : ℕ → Expression E S → List (ℕ × Expression E S) → List (ℕ × Expression E S)
  unfolding lookup
  bind k e m = if is_some (lookup k m) then m else m ++ (k, e) ∷ []

  -- Binding::get
  unfoldable pub get : ℕ → List (ℕ × Expression E S) → Result (Expression E S)
  unfolding lookup
  get k m = elim (lookup k m) [ none ↦ err bug | some e ↦ ok e ]

  -- The loop of the constructor from arguments: what it adds to `args_` and to the binding.
  unfoldable pub bind_args :
      List (Parameter S)
      → List (Expression E S)
      → List (ℕ × Expression E S)
      → List (Expression E S) × List (ℕ × Expression E S)
  unfolding bind
  bind_args [] es m = ([], m)
  bind_args (p ∷ ps) [] m = ([], m)
  bind_args (p ∷ ps) (e ∷ es) m =
      let rest = bind_args ps es (bind p.address e m) in (e ∷ rest.0, rest.1)

  -- The arguments of the constructor from a binding.
  unfoldable pub get_all :
      List (Parameter S) → List (ℕ × Expression E S) → Result (List (Expression E S))
  unfolding get
  get_all [] m = ok []
  get_all (p ∷ ps) m = get p.address m >>= λ e. get_all ps m >>= λ es. ok (e ∷ es)

  -- A new binding with the values; `evaluate` is the evaluation in the given bindings and history.
  unfoldable pub evaluate_all :
      (Expression E S → Result E)
      → List (ℕ × Expression E S)
      → List (ℕ × Expression E S)
      → Result (List (ℕ × Expression E S))
  unfolding bind
  evaluate_all evaluate [] gb = ok gb
  evaluate_all evaluate ((k, e) ∷ m) gb =
      evaluate e >>= λ v. evaluate_all evaluate m (bind k (plain v) gb)

-- `args` are the pointers to the arguments, which the binding holds.
pub record Reference (E S : Type 0) : Type 0 where
  pub target : Option (Target S)
  pub args : List (Expression E S)
  pub binding : List (ℕ × Expression E S)

-- `suits` is `>=` of a type and an argument.
module _ {E S : Type 0} (type_of : E → ValueType S)
    (suits : ValueType S → Expression E S → Result Bool) where
  unfoldable mutual
    unfolding arg_type symbol_for_string size

    -- The loop over the arguments and the parameters.
    pub check_args : List (Parameter S) → Arguments E S → Result Bool
    check_args ps no_arguments = ok true
    check_args [] (argument e es) = ok true
    check_args (p ∷ ps) (argument e es) = arg_type type_of e >>= λ t_arg. suits p.type e >>= λ good.
        if good || symbol_for_string t_arg p.type
        then (is_consistent e >>= λ fine. if fine then check_args ps es else ok false)
        else ok false

    -- Whether an argument is not a reference, or is consistent.
    pub is_consistent : Expression E S → Result Bool
    is_consistent (plain e) = ok true
    is_consistent (variable_ref target) = ok (is_some target)
    is_consistent (global_ref none es) = ok false
    is_consistent (global_ref (some t) es) =
        if eqb (size es) (length t.params) then check_args t.params es else ok false

  -- ReferenceBase::consistent
  unfoldable pub consistent : Reference E S → Result Bool
  unfolding is_consistent pack
  consistent r = is_consistent (global_ref r.target (pack r.args))

  unfoldable pub ensure_consistent : Reference E S → Result (Reference E S)
  unfolding consistent
  ensure_consistent r = consistent r >>= λ fine. if fine then ok r else err user_error

  -- The constructor from arguments. The message of the error has the name of the target, so that a
  -- reference to nothing dereferences a null pointer in any case.
  unfoldable pub from_args : Option (Target S) → List (Expression E S) → Result (Reference E S)
  unfolding bind_args ensure_consistent
  from_args none es = err null_dereference
  from_args (some t) es =
      let done = bind_args t.params es [] in
      ensure_consistent (record { target = some t; args = done.0; binding = done.1 })

  -- The constructor from a binding.
  unfoldable pub from_binding :
      Option (Target S) → List (ℕ × Expression E S) → Result (Reference E S)
  unfolding get_all ensure_consistent
  from_binding none m = err null_dereference
  from_binding (some t) m = get_all t.params m >>= λ es.
      ensure_consistent (record { target = some t; args = es; binding = m })

  -- The arguments are evaluated, and the reference is made anew from the binding of the values.
  unfoldable pub ground_args : (Expression E S → Result E) → Reference E S → Result (Reference E S)
  unfolding evaluate_all from_binding
  ground_args evaluate r = evaluate_all evaluate r.binding [] >>= λ gb. from_binding r.target gb
