-- ===== src/Values/Equality.antt =====
-- `==` on values, and their hash (src/model/value.cpp: Value::operator== and Value::hash).
pub mod Hash
pub mod Order
pub mod Tests
use gologpp.Prelude.{
  ◌||◌, ℕ, ◌+◌, ◌≡◌, String, Bool, true, false, Option, none, some, Eq, ◌==◌, text_eq, eqb,
  if◌then◌else◌,
}
use gologpp.Error.{Result, ok, ◌>>=◌}
use gologpp.Types.{ge, ValueType, undefined_type, predefined, compound_type, list_type, domain_type}
use gologpp.Values.{
  Value, value, Representation, atomic, compound_repr, list_repr, Values, no_values, more,
  FieldValues, no_field_values, assigned, type_of,
}

module _ {A S : Type 0} where
  unfoldable pub representation : Value A S → Representation A S
  representation (value t r) = r

  unfoldable pub count_fields : FieldValues A S → ℕ
  count_fields no_field_values = 0
  count_fields (assigned f v fs) = 1 + count_fields fs

  unfoldable pub count : Values A S → ℕ
  count no_values = 0
  count (more v vs) = 1 + count vs

  -- The value of a field, in the map of a representation.
  unfoldable pub find_field : String → FieldValues A S → Option (Value A S)
  find_field f no_field_values = none
  find_field f (assigned g v fs) = if g == f then some v else find_field f fs

-- Whether a type is a domain that has the elements of a set.
unfoldable pub includes : {S : Type 0} → (S → S → Bool) → S → ValueType S → Bool
includes subset s (domain_type d e t) = subset s t
includes subset s other = false

-- `<=` on types: a domain is also `<=` what its element type is `<=`, and the domains with all its
-- elements.
unfoldable pub type_le : {S : Type 0} → (S → S → Bool) → ValueType S → ValueType S → Result Bool
unfolding includes
type_le subset (domain_type d e s) u = ge subset u (domain_type d e s) >>= λ below.
    if below
    then ok true
    else (type_le subset e u >>= λ element. ok (element || includes subset s u))
type_le subset undefined_type u = ge subset u undefined_type
type_le subset (predefined p) u = ge subset u (predefined p)
type_le subset (compound_type c fs) u = ge subset u (compound_type c fs)
type_le subset (list_type e) u = ge subset u (list_type e)

-- `eq_atom` compares the alternatives that hold no values.
module _ {A S : Type 0} (subset : S → S → Bool) (eq_atom : A → A → Bool) where
  unfoldable mutual
    unfolding representation count_fields count find_field

    pub value_eq : Value A S → Value A S → Result Bool
    value_eq (value t r) w = ge subset t (type_of w) >>= λ above.
        if above
        then (type_le subset t (type_of w) >>= λ below.
            if below then repr_eq r (representation w) else ok false)
        else ok false

    -- Representations are equal if they are of the same alternative. Maps are compared whatever
    -- their order is.
    pub repr_eq : Representation A S → Representation A S → Result Bool
    repr_eq (atomic a) (atomic b) = ok (eq_atom a b)
    repr_eq (atomic a) (compound_repr gs) = ok false
    repr_eq (atomic a) (list_repr ws) = ok false
    repr_eq (compound_repr fs) (compound_repr gs) =
        if eqb (count_fields fs) (count_fields gs) then fields_eq fs gs else ok false
    repr_eq (compound_repr fs) (atomic b) = ok false
    repr_eq (compound_repr fs) (list_repr ws) = ok false
    repr_eq (list_repr vs) (list_repr ws) =
        if eqb (count vs) (count ws) then elements_eq vs ws else ok false
    repr_eq (list_repr vs) (atomic b) = ok false
    repr_eq (list_repr vs) (compound_repr gs) = ok false

    pub fields_eq : FieldValues A S → FieldValues A S → Result Bool
    fields_eq no_field_values gs = ok true
    fields_eq (assigned f v fs) gs = elim (find_field f gs) [
      | none ↦ ok false
      | some w ↦ value_eq v w >>= λ same. if same then fields_eq fs gs else ok false
    ]

    pub elements_eq : Values A S → Values A S → Result Bool
    elements_eq no_values ws = ok true
    elements_eq (more v vs) no_values = ok true
    elements_eq (more v vs) (more w ws) =
        value_eq v w >>= λ same. if same then elements_eq vs ws else ok false

-- `hash_atom` is boost::hash_value, and `combine` what boost::hash_combine makes of the hash so far.
module _ {A S : Type 0} (hash_atom : A → ℕ) (combine : ℕ → ℕ → ℕ) where
  unfoldable mutual
    pub hash : Value A S → ℕ
    hash (value t r) = repr_hash r

    -- The visitor.
    pub repr_hash : Representation A S → ℕ
    repr_hash (atomic a) = hash_atom a
    repr_hash (compound_repr fs) = fields_hash fs 0
    repr_hash (list_repr vs) = elements_hash vs 0

    pub fields_hash : FieldValues A S → ℕ → ℕ
    fields_hash no_field_values rv = rv
    fields_hash (assigned f v fs) rv = fields_hash fs (combine rv (hash v))

    pub elements_hash : Values A S → ℕ → ℕ
    elements_hash no_values rv = rv
    elements_hash (more v vs) rv = elements_hash vs (combine rv (hash v))
