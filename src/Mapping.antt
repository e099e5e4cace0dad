-- ===== src/Mapping.antt =====
-- The mapping of the arguments of an action to those of the platform backend (src/model/mapping.cpp),
-- and its check for exogenous actions (src/model/action.cpp: ExogAction::set_mapping).
pub mod Laws
pub mod Identity
pub mod Tests
use gologpp.Prelude.{
  ℕ, String, Bool, true, false, Option, none, some, is_some, List, [], ◌∷◌, ◌++◌, lookup, eqb, Eq,
  text_eq, if◌then◌else◌,
}
use gologpp.Error.{Result, ok, err, name_not_mapped, bad_cast, user_error, ◌>>=◌}

-- A parameter is a variable, which has an address.
pub record Param : Type 0 where
  pub name : String
  pub address : ℕ

-- What an argument of the backend is mapped to.
pub data Mapped (O : Type 0) : Type 0 where
  variable_ref : ℕ → Mapped O
  other : O → Mapped O

pub record BackendMapping (O : Type 0) : Type 0 where
  pub backend_name : String
  pub arg_mapping : List (String × Mapped O)

module _ {O : Type 0} where
  -- The loop of the constructors: an entry that is there stays.
  unfoldable pub emplace_all :
      List (String × Mapped O) → List (String × Mapped O) → List (String × Mapped O)
  unfolding lookup
  emplace_all [] m = m
  emplace_all ((n, x) ∷ pairs) m =
      emplace_all pairs (if is_some (lookup n m) then m else m ++ (n, x) ∷ [])

  unfoldable pub new_mapping : String → List (String × Mapped O) → BackendMapping O
  unfolding emplace_all
  new_mapping backend_name pairs = record {
    backend_name = backend_name;
    arg_mapping = emplace_all pairs [];
  }

  unfoldable pub references : List Param → List (String × Mapped O)
  references [] = []
  references (p ∷ ps) = (p.name, variable_ref p.address) ∷ references ps

  -- The mapping that an action has from the start.
  unfoldable pub identity : String → List Param → BackendMapping O
  unfolding new_mapping references
  identity name params = new_mapping name (references params)

  unfoldable pub mapped_expr : String → BackendMapping O → Result (Mapped O)
  unfolding lookup
  mapped_expr name m = elim (lookup name m.arg_mapping) [
    | none ↦ err name_not_mapped
    | some x ↦ ok x
  ]

  -- The variable that a name is mapped to, or null.
  unfoldable pub as_variable : Mapped O → Option ℕ
  as_variable (variable_ref a) = some a
  as_variable (other x) = none

  unfoldable pub mapped_var : String → BackendMapping O → Result (Option ℕ)
  unfolding mapped_expr as_variable
  mapped_var name m = mapped_expr name m >>= λ x. ok (as_variable x)

  -- Whether a variable is found among the entries; an expression in front of it is a failed cast.
  unfoldable pub is_covered : ℕ → List (String × Mapped O) → Result Bool
  is_covered a [] = ok false
  is_covered a ((n, other x) ∷ m) = err bad_cast
  is_covered a ((n, variable_ref b) ∷ m) = if eqb b a then ok true else is_covered a m

  -- The parameters that are missing.
  unfoldable pub missing : List Param → List (String × Mapped O) → Result (List Param)
  unfolding is_covered
  missing [] m = ok []
  missing (p ∷ ps) m = is_covered p.address m >>= λ covered.
      missing ps m >>= λ rest. ok (if covered then rest else p ∷ rest)

  -- ExogAction::set_mapping, the mapping that the action then has.
  unfoldable pub set_mapping : List Param → BackendMapping O → Result (BackendMapping O)
  unfolding missing
  set_mapping params m =
      missing params m.arg_mapping >>= λ ps. elim ps [ [] ↦ ok m | p ∷ rest ↦ err user_error ]
