-- ===== src/Values.antt =====
-- Values (src/model/value.h, src/model/value.cpp), the test of a value against a type, and the
-- constructors of values and of list and compound expressions, which check their parts
-- (src/model/list_expression.cpp, src/model/compound_expression.cpp).
pub mod Suits
pub mod Construction
pub mod Equality
pub mod Tests
use gologpp.Prelude.{
  ℕ, zero, suc, String, Bool, true, false, ◌||◌, List, [], ◌∷◌, ◌++◌, Option, none, some, is_some,
  lookup, assign, erase, Eq, ◌==◌, text_eq, if◌then◌else◌,
}
use gologpp.Error.{
  Result, ok, err, type_error, expression_type_mismatch, out_of_fuel, bad_get, ◌>>=◌,
}
use gologpp.Types.{
  ValueType, undefined_type, predefined, compound_type, list_type, domain_type, Fields, no_fields,
  field, field_type, ge,
}

-- `A` are the alternatives of the representation that hold no values: numbers, text, truth values
-- and pointers. `S` are the element sets of domains.
mutual
  pub data Value (A S : Type 0) : Type 0 where
    value : ValueType S → Representation A S → Value A S

  pub data Representation (A S : Type 0) : Type 0 where
    atomic : A → Representation A S
    compound_repr : FieldValues A S → Representation A S
    list_repr : Values A S → Representation A S

  pub data Values (A S : Type 0) : Type 0 where
    no_values : Values A S
    more : Value A S → Values A S → Values A S

  pub data FieldValues (A S : Type 0) : Type 0 where
    no_field_values : FieldValues A S
    assigned : String → Value A S → FieldValues A S → FieldValues A S

module _ {A S : Type 0} where
  abbrev pub type_of : Value A S → ValueType S
  type_of (value t r) = t

  -- The loop of Value::operator<=, which calls itself on the elements.
  unfoldable pub elements_le : (Value A S → Result Bool) → Values A S → Result Bool
  elements_le le no_values = ok true
  elements_le le (more v vs) = do suits ← le v; if suits then elements_le le vs else ok false

  -- boost::get on the representation of a value of a list type.
  unfoldable pub list_le : (Value A S → Result Bool) → Representation A S → Result Bool
  unfolding elements_le
  list_le le (list_repr vs) = elements_le le vs
  list_le le (atomic a) = err bad_get
  list_le le (compound_repr fs) = err bad_get

-- `member` is whether a value is in an element set.
module _ {A S : Type 0} (subset : S → S → Bool) (member : Value A S → S → Bool) where
  unfoldable mutual
    -- `>=` of a type and a value, by the class of the type.
    pub value_ge : ℕ → ValueType S → Value A S → Result Bool
    value_ge zero t v = err out_of_fuel
    value_ge (suc n) undefined_type v = ok true
    value_ge (suc n) (predefined p) v = ge subset (predefined p) (type_of v)
    value_ge (suc n) (compound_type c fs) v = ge subset (compound_type c fs) (type_of v)
    value_ge (suc n) (list_type e) v = ge subset (list_type e) (type_of v) >>= λ suits. elim suits [
      | true ↦ ok true
      | false ↦ value_le n v (list_type e)
    ]
    value_ge (suc n) (domain_type d e s) v =
        ge subset (domain_type d e s) (type_of v) >>= λ suits. ok (suits || member v s)

    -- Value::operator<=
    pub value_le : ℕ → Value A S → ValueType S → Result Bool
    value_le zero v t = err out_of_fuel
    value_le (suc n) (value (list_type u) r) (list_type e) = list_le (λ w. value_le n w e) r
    value_le (suc n) (value (list_type u) r) undefined_type = ok false
    value_le (suc n) (value (list_type u) r) (predefined p) = ok false
    value_le (suc n) (value (list_type u) r) (compound_type c fs) = ok false
    value_le (suc n) (value (list_type u) r) (domain_type d e s) = ok false
    value_le (suc n) (value undefined_type r) t = value_ge n t (value undefined_type r)
    value_le (suc n) (value (predefined p) r) t = value_ge n t (value (predefined p) r)
    value_le (suc n) (value (compound_type c fs) r) t = value_ge n t (value (compound_type c fs) r)
    value_le (suc n) (value (domain_type d u s) r) t = value_ge n t (value (domain_type d u s) r)

-- The type of a new element, for the constructors below.
module _ {S : Type 0} where
  -- set_type on a new element: its type becomes `t`, and is compared with it.
  unfoldable pub new_type : (S → S → Bool) → ValueType S → Result (ValueType S)
  new_type subset t = do same ← ge subset t t; if same then ok t else err type_error

  unfoldable pub compound_fields : ValueType S → Result (Fields S)
  compound_fields (compound_type c fs) = ok fs
  compound_fields other = err type_error

  unfoldable pub list_element_type : ValueType S → Result (ValueType S)
  list_element_type (list_type e) = ok e
  list_element_type other = err type_error

module _ {S E : Type 0} where
  -- What is left of `unassigned_fields`.
  unfoldable pub all_assigned : Fields S → List (String × E) → Bool
  unfolding lookup
  all_assigned no_fields done = true
  all_assigned (field f t fs) done = if is_some (lookup f done) then all_assigned fs done else false

  -- The constructor of a list value, which does not compare the elements with the type.
  unfoldable pub list_value : (S → S → Bool) → ValueType S → List E → Result (List E)
  unfolding new_type list_element_type
  list_value subset t elements = do u ← new_type subset t; e ← list_element_type u; ok elements

-- `E` are values or expressions, and `suits` is `>=` of a type and one of them.
module _ {S E : Type 0} (subset : S → S → Bool) (suits : ValueType S → E → Result Bool) where
  -- The check of one entry.
  unfoldable pub check_field : Fields S → String → E → Result (Unit {0})
  unfolding field_type
  check_field fs f e = do
    t ← field_type f fs
    good ← suits t e
    if good then ok tt else err expression_type_mismatch

  -- The loop of the constructor of a compound value: a later entry replaces an earlier one.
  unfoldable pub assign_fields :
      Fields S → List (String × E) → List (String × E) → Result (List (String × E))
  unfolding check_field assign
  assign_fields fs [] done = ok done
  assign_fields fs ((f, e) ∷ entries) done =
      check_field fs f e >>= λ checked. assign_fields fs entries (assign f e done)

  unfoldable pub compound_value : ValueType S → List (String × E) → Result (List (String × E))
  unfolding new_type compound_fields assign_fields
  compound_value t entries = do
    u ← new_type subset t
    fs ← compound_fields u
    assign_fields fs entries []

  -- The loop of the constructor of CompoundExpression: an earlier entry stays.
  unfoldable pub emplace_fields :
      Fields S → List (String × E) → List (String × E) → Result (List (String × E))
  unfolding check_field lookup
  emplace_fields fs [] done = ok done
  emplace_fields fs ((f, e) ∷ entries) done = check_field fs f e >>= λ checked.
      emplace_fields fs entries (if is_some (lookup f done) then done else done ++ (f, e) ∷ [])

  unfoldable pub compound_expression : ValueType S → List (String × E) → Result (List (String × E))
  unfolding new_type compound_fields emplace_fields all_assigned
  compound_expression t entries = do
    u ← new_type subset t
    fs ← compound_fields u
    done ← emplace_fields fs entries []
    if all_assigned fs done then ok done else err type_error

  -- The loop of the constructor of ListExpression.
  unfoldable pub check_entries : ValueType S → List E → Result (List E)
  check_entries t [] = ok []
  check_entries t (e ∷ es) = do
    good ← suits t e
    if good then (check_entries t es >>= λ rest. ok (e ∷ rest)) else err expression_type_mismatch

  unfoldable pub list_expression : ValueType S → List E → Result (List E)
  unfolding list_element_type check_entries
  list_expression t entries = do e ← list_element_type t; check_entries e entries
