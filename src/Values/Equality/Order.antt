-- ===== src/Values/Equality/Order.antt =====
-- `==` on values as a relation (src/model/value.cpp).
use mathlib.Core.Path.{subst}
use gologpp.Prelude.{
  ◌≡◌, refl, sym, ap, String, Bool, true, false, none, some, text_eq, beq_refl, if◌then◌else◌,
  nat_eq,
}
use gologpp.Error.{ok, ◌>>=◌}
use gologpp.Types.Order.{IsWellFormed, ge_refl}
use gologpp.Values.{
  Value, value, Representation, atomic, compound_repr, list_repr, Values, no_values, more,
  FieldValues, no_field_values, assigned,
}
use gologpp.Values.Equality.Hash.{AreFound}
use gologpp.Types.{ge, ValueType, undefined_type, predefined, compound_type, list_type, domain_type}
use gologpp.Values.Equality.{
  type_le, representation, count_fields, count, find_field, value_eq, repr_eq, fields_eq,
  elements_eq,
}

-- Every type in a value is well-formed, and a map has one value for a name.
abbrev mutual
  pub IsRegular : {A S : Type 0} → Value A S → Type 0
  IsRegular (value t r) = IsWellFormed t × IsReprRegular r

  pub IsReprRegular : {A S : Type 0} → Representation A S → Type 0
  IsReprRegular (atomic a) = Unit
  IsReprRegular (compound_repr fs) = AreFieldsRegular fs × AreFound fs fs
  IsReprRegular (list_repr vs) = AreValuesRegular vs

  pub AreFieldsRegular : {A S : Type 0} → FieldValues A S → Type 0
  AreFieldsRegular no_field_values = Unit
  AreFieldsRegular (assigned f v fs) = IsRegular v × AreFieldsRegular fs

  pub AreValuesRegular : {A S : Type 0} → Values A S → Type 0
  AreValuesRegular no_values = Unit
  AreValuesRegular (more v vs) = IsRegular v × AreValuesRegular vs

fields_eq-equal :
    {A S : Type 0} (subset : S → S → Bool) (eq_atom : A → A → Bool) (f : String) (v w : Value A S)
    (fs whole : FieldValues A S)
    → find_field f whole ≡ some w
    → value_eq subset eq_atom v w ≡ ok true
    → fields_eq subset eq_atom fs whole ≡ ok true
    → fields_eq subset eq_atom (assigned f v fs) whole ≡ ok true
unfolding fields_eq
fields_eq-equal subset eq_atom f v w fs whole there same rest =
    subst
      (λ o.
        elim o [
          | none ↦ ok false
          | some w' ↦ value_eq subset eq_atom v w' >>= λ s.
              if s then fields_eq subset eq_atom fs whole else ok false
        ]
        ≡ ok true)
      (sym there) (rw same rest)

type_le_refl :
    {S : Type 0} (subset : S → S → Bool) (t : ValueType S)
    → ge subset t t ≡ ok true
    → type_le subset t t ≡ ok true
unfolding type_le
type_le_refl subset (domain_type d e s) h = rw h refl
type_le_refl subset undefined_type h = h
type_le_refl subset (predefined p) h = h
type_le_refl subset (compound_type c fs) h = h
type_le_refl subset (list_type e) h = h

module _ {A S : Type 0} (subset : S → S → Bool) (eq_atom : A → A → Bool)
    (subset_refl : (s : S) → subset s s ≡ true) (eq_refl : (a : A) → eq_atom a a ≡ true) where
  mutual
    unfolding value_eq representation

    self_lem : (v : Value A S) → IsRegular v → value_eq subset eq_atom v v ≡ ok true
    self_lem (value t r) (w, regular) =
        rw (ge_refl subset subset_refl t w, type_le_refl subset t (ge_refl subset subset_refl t w))
          (repr_self_lem r regular)

    repr_self_lem :
        (r : Representation A S) → IsReprRegular r → repr_eq subset eq_atom r r ≡ ok true
    repr_self_lem (atomic a) regular = ap ok (eq_refl a)
    repr_self_lem (compound_repr fs) (regular, found) =
        rw (beq_refl (count_fields fs)) (fields_self_lem fs fs regular found)
    repr_self_lem (list_repr vs) regular = rw (beq_refl (count vs)) (elements_self_lem vs regular)

    fields_self_lem :
        (fs whole : FieldValues A S)
        → AreFieldsRegular fs
        → AreFound fs whole
        → fields_eq subset eq_atom fs whole ≡ ok true
    fields_self_lem no_field_values whole regular found = refl
    fields_self_lem (assigned f v fs) whole (one, regular) (there, found) =
        fields_eq-equal subset eq_atom f v v fs whole there (self_lem v one)
          (fields_self_lem fs whole regular found)

    elements_self_lem :
        (vs : Values A S) → AreValuesRegular vs → elements_eq subset eq_atom vs vs ≡ ok true
    elements_self_lem no_values regular = refl
    elements_self_lem (more v vs) (one, regular) =
        rw (self_lem v one) (elements_self_lem vs regular)

  -- A value is equal to itself, if its types are well-formed, its maps have one value for a name, and
  -- the same holds of what is in it.
  pub value_eq_refl : (v : Value A S) → IsRegular v → value_eq subset eq_atom v v ≡ ok true
  value_eq_refl v regular = self_lem v regular
