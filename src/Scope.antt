-- ===== src/Scope.antt =====
-- Scopes (src/model/scope.h, src/model/scope.cpp): identifiers, and the definition of variables. A
-- scope is the list of the identifier maps from its own to that of the root, which is last.
pub mod Variables
pub mod Globals
pub mod Registry
pub mod Tests
use gologpp.Prelude.{
  String, Bool, true, false, Option, none, some, is_some, List, [], ◌∷◌, lookup, assign, Eq, ◌==◌,
  text_eq, if◌then◌else◌,
}
use gologpp.Error.{Result, ok, err, redefinition_error}

-- `cast` is the dynamic_pointer_cast to the kind of identifier that is asked for.
module _ {I G : Type 0} (cast : I → Option G) where
  -- An entry of the wrong kind hides those of the scopes around.
  unfoldable pub lookup_identifier : String → List (List (String × I)) → Option G
  unfolding lookup
  lookup_identifier name [] = none
  lookup_identifier name (m ∷ parents) = elim (lookup name m) [
    | some i ↦ cast i
    | none ↦ lookup_identifier name parents
  ]

  unfoldable pub lookup_local_identifier : String → List (List (String × I)) → Option G
  unfolding lookup
  lookup_local_identifier name [] = none
  lookup_local_identifier name (m ∷ parents) = elim (lookup name m) [
    | some i ↦ cast i
    | none ↦ none
  ]

  unfoldable pub register_identifier :
      String → I → List (List (String × I)) → Result (List (List (String × I)))
  unfolding lookup_identifier assign
  register_identifier name i [] = ok []
  register_identifier name i (m ∷ parents) =
      if is_some (lookup_identifier name (m ∷ parents))
      then err redefinition_error
      else ok (assign name i m ∷ parents)

pub record Variable (T : Type 0) : Type 0 where
  pub name : String
  pub type : T

-- What an identifier is, to `get_var`.
pub data Identifier (T O : Type 0) : Type 0 where
  variable : Variable T → Identifier T O
  other : O → Identifier T O

pub data VarDefinitionMode : Type 0 where
  deny allow force : VarDefinitionMode

module _ {T O : Type 0} where
  unfoldable pub as_variable : Identifier T O → Option (Variable T)
  as_variable (variable v) = some v
  as_variable (other o) = none

  abbrev pub lookup_var : String → List (List (String × Identifier T O)) → Option (Variable T)
  unfolding lookup_identifier as_variable
  lookup_var = lookup_identifier as_variable

  -- A new variable, written to the map of this scope.
  unfoldable pub define_var :
      T
      → String
      → List (String × Identifier T O)
      → List (List (String × Identifier T O))
      → Option (Variable T) × List (List (String × Identifier T O))
  unfolding assign
  define_var type name m parents =
      let v : Variable T = record { name = name; type = type } in
      (some v, assign name (variable v) m ∷ parents)

  -- `le` is `<=` on types. The call on the parent scope defines nothing, so only its result is kept.
  unfoldable pub get_var :
      (le : T → T → Bool)
      → VarDefinitionMode
      → T
      → String
      → List (List (String × Identifier T O))
      → Option (Variable T) × List (List (String × Identifier T O))
  unfolding lookup_identifier as_variable define_var
  get_var le mode type name [] = (none, [])
  get_var le mode type name (m ∷ parents) =
      let up = get_var le deny type name parents in
      elim (lookup_var name (m ∷ parents)) [
        | some v ↦ if le v.type type then (some v, m ∷ parents) else (none, m ∷ parents)
        | none ↦ elim mode [
          | force ↦ define_var type name m parents
          | deny ↦ (up.0, m ∷ parents)
          | allow ↦ elim up.0 [
            | some v ↦ (some v, m ∷ parents)
            | none ↦ define_var type name m parents
          ]
        ]
      ]
