-- ===== src/Types.antt =====
-- Types (src/model/types.h, src/model/types.cpp, and the order of domains in
-- src/model/domain.cpp), and the order `>=` on them, which is a virtual function: each class has a
-- definition here, and takes the whole order as an argument.
pub mod Termination
pub mod Equations
pub mod Order
pub mod Transitivity
pub mod Tests
use Prim.Native.String.{◌++◌}
use gologpp.Prelude.{
  ℕ, zero, suc, ◌+◌, String, Bool, true, false, ◌||◌, Eq, ◌==◌, text_eq, if◌then◌else◌,
}
use gologpp.Error.{Result, ok, err, no_such_field, user_error, out_of_fuel, ◌>>=◌}

-- The classes that add only their name to the class Type.
pub data Predefined : Type 0 where
  bool number string symbol void : Predefined

-- `S` are the element sets of domains. A CompoundType has a map of fields, here in the order in which
-- the map is iterated.
mutual
  pub data ValueType (S : Type 0) : Type 0 where
    undefined_type : ValueType S
    predefined : Predefined → ValueType S
    compound_type : String → Fields S → ValueType S
    list_type : ValueType S → ValueType S
    domain_type : String → ValueType S → S → ValueType S

  pub data Fields (S : Type 0) : Type 0 where
    no_fields : Fields S
    field : String → ValueType S → Fields S → Fields S

-- The static_name of each class.
unfoldable pub static_name : Predefined → String
static_name bool = "bool"
static_name number = "number"
static_name string = "string"
static_name symbol = "symbol"
static_name void = "void"

module _ {S : Type 0} where
  unfoldable pub name : ValueType S → String
  unfolding static_name
  name undefined_type = "~undefined~"
  name (predefined p) = static_name p
  name (compound_type c fs) = c
  name (list_type e) = "list[" ++ name e ++ "]"
  name (domain_type d e s) = d

  -- is<UndefinedType>()
  abbrev pub is_undefined : ValueType S → Bool
  is_undefined undefined_type = true
  is_undefined t = false

  unfoldable pub has_field : String → Fields S → Bool
  has_field f no_fields = false
  has_field f (field g t fs) = g == f || has_field f fs

  unfoldable pub field_type : String → Fields S → Result (ValueType S)
  field_type f no_fields = err no_such_field
  field_type f (field g t fs) = if g == f then ok t else field_type f fs

  unfoldable pub add_field : String → ValueType S → Fields S → Result (Fields S)
  unfolding has_field
  add_field f t fs = if has_field f fs then err user_error else ok (field f t fs)

  -- Type::operator>=. That of a domain is that of its element type, by the virtual function.
  unfoldable pub base_ge :
      (ValueType S → ValueType S → Result Bool) → ValueType S → ValueType S → Result Bool
  unfolding name
  base_ge ge this (domain_type d e s) = ge this e
  base_ge ge this other = ok (name this == name other || is_undefined other)

  -- The loop of CompoundType::operator>=.
  unfoldable pub fields_ge :
      (ValueType S → ValueType S → Result Bool) → Fields S → Fields S → Result Bool
  unfolding field_type
  fields_ge ge no_fields os = ok true
  fields_ge ge (field f t fs) os = do
    u ← field_type f os
    suits ← ge u t
    if suits then fields_ge ge fs os else ok false

  -- CompoundType::operator>=
  unfoldable pub compound_ge :
      (ValueType S → ValueType S → Result Bool) → Fields S → ValueType S → Result Bool
  unfolding fields_ge
  compound_ge ge fs undefined_type = ok true
  compound_ge ge fs (compound_type d os) = fields_ge ge fs os
  compound_ge ge fs other = ok false

  -- ListType::operator>=
  unfoldable pub list_ge :
      (ValueType S → ValueType S → Result Bool) → ValueType S → ValueType S → Result Bool
  list_ge ge e undefined_type = ok true
  list_ge ge e (list_type e') = ge e e'
  list_ge ge e other = ok false

  -- Domain::operator>=. `subset` tells whether the difference of two element sets is empty.
  unfoldable pub elements_ge : (S → S → Bool) → S → ValueType S → Bool
  elements_ge subset s (domain_type d e s') = subset s' s
  elements_ge subset s other = false

module _ {S : Type 0} (subset : S → S → Bool) where
  -- `>=`, with the fuel for its recursion.
  unfoldable pub type_ge : ℕ → ValueType S → ValueType S → Result Bool
  unfolding base_ge compound_ge list_ge elements_ge
  type_ge zero this other = err out_of_fuel
  type_ge (suc n) undefined_type other = ok true
  type_ge (suc n) (predefined p) other = base_ge (type_ge n) (predefined p) other
  type_ge (suc n) (compound_type c fs) other = compound_ge (type_ge n) fs other
  type_ge (suc n) (list_type e) other = list_ge (type_ge n) e other
  type_ge (suc n) (domain_type d e s) other = do
    suits ← base_ge (type_ge n) (domain_type d e s) other
    ok (suits || elements_ge subset s other)

-- How often a type is taken apart at most.
unfoldable mutual
  pub rank : {S : Type 0} → ValueType S → ℕ
  rank undefined_type = 1
  rank (predefined p) = 1
  rank (compound_type c fs) = suc (rank_fields fs)
  rank (list_type e) = suc (rank e)
  rank (domain_type d e s) = suc (rank e)

  pub rank_fields : {S : Type 0} → Fields S → ℕ
  rank_fields no_fields = 0
  rank_fields (field f t fs) = rank t + rank_fields fs

module _ {S : Type 0} (subset : S → S → Bool) where
  unfoldable pub ge : ValueType S → ValueType S → Result Bool
  unfolding type_ge rank
  ge this other = type_ge subset (rank this + rank other) this other
