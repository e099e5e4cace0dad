-- ===== src/Readylog/Terms.antt =====
-- Values as terms (src/semantics/readylog/value.cpp: Semantics<Value>::plterm).
use Prim.Native.String
use gologpp.Prelude.{ℕ, String, Bool, [], ◌∷◌, text_eq, if◌then◌else◌}
use gologpp.Error.{Result, ok, err, bad_get, runtime_error, ◌>>=◌}
use gologpp.Types.{
  Predefined, bool, number, string, symbol, void, undefined_type, predefined, compound_type,
  list_type, domain_type, name,
}
use gologpp.Values.{
  Value, value, Representation, atomic, compound_repr, list_repr, Values, no_values, more,
  FieldValues, no_field_values, assigned,
}
use gologpp.Readylog.{Engine, integer, double, atom, quoted, nil, cons, compound}
use gologpp.Readylog.Numbers.{
  pos, Number, unsigned_int, int, unsigned_long, long, floating, as_signed,
}

-- The alternatives of a representation that hold no values.
pub data Atomic (D : Type 0) : Type 0 where
  numeric : Number D → Atomic D
  textual : String → Atomic D
  truth : Bool → Atomic D
  pointer : ℕ → Atomic D

module _ {D : Type 0} (engine : Engine D) where
  open engine use {EcWord, build, view}

  -- The number of a value, by the alternative of its representation.
  unfoldable pub number_term : Number D → EcWord
  unfolding as_signed
  number_term (floating d) = build (double d)
  number_term (int i) = build (integer i)
  number_term (long i) = build (integer i)
  number_term (unsigned_int n) = build (integer (pos n))
  number_term (unsigned_long n) = build (integer (as_signed n))

  -- `static_cast<string>(element())` falls back on the printed representation, `print`.
  module _ {S : Type 0} (print : Representation (Atomic D) S → String) where
    unfoldable pub as_string : Representation (Atomic D) S → String
    as_string (atomic (textual s)) = s
    as_string (atomic (numeric n)) = print (atomic (numeric n))
    as_string (atomic (truth b)) = print (atomic (truth b))
    as_string (atomic (pointer p)) = print (atomic (pointer p))
    as_string (compound_repr fs) = print (compound_repr fs)
    as_string (list_repr vs) = print (list_repr vs)

    unfoldable pub predefined_term : Predefined → Representation (Atomic D) S → Result EcWord
    unfolding number_term as_string
    predefined_term bool (atomic (truth b)) = ok (build (atom (if b then "true" else "fail")))
    predefined_term bool r = err bad_get
    predefined_term number (atomic (numeric n)) = ok (number_term n)
    predefined_term number r = err runtime_error
    predefined_term symbol r = ok (build (atom (as_string r)))
    predefined_term string r = ok (build (quoted (as_string r)))
    predefined_term void r = err runtime_error

    -- Each field is put in front of the list of those before.
    unfoldable mutual
      unfolding predefined_term name

      pub value_term : Value (Atomic D) S → Result EcWord
      value_term (value (predefined p) r) = predefined_term p r
      value_term (value undefined_type r) = ok (build (atom "fail"))
      value_term (value (domain_type d e s) r) = err runtime_error
      value_term (value (compound_type c fs) r) = fields_term r (build nil) >>= λ fields. ok (
          build
            (compound "gpp_compound" (build (atom (Prim.Native.String.◌++◌ "#" c)) ∷ fields ∷ [])))
      value_term (value (list_type e) r) = elements_term r >>= λ elements. ok (
          build (
            compound "gpp_list"
              (build (atom (Prim.Native.String.◌++◌ "#" (name e))) ∷ elements ∷ [])))

      pub fields_term : Representation (Atomic D) S → EcWord → Result EcWord
      fields_term (compound_repr fs) acc = field_terms fs acc
      fields_term (atomic a) acc = err bad_get
      fields_term (list_repr vs) acc = err bad_get

      pub field_terms : FieldValues (Atomic D) S → EcWord → Result EcWord
      field_terms no_field_values acc = ok acc
      field_terms (assigned f v fs) acc = value_term v >>= λ w.
          field_terms fs
            (build (cons (build (compound (Prim.Native.String.◌++◌ "#" f) (w ∷ []))) acc))

      pub elements_term : Representation (Atomic D) S → Result EcWord
      elements_term (list_repr vs) = element_terms vs
      elements_term (atomic a) = err bad_get
      elements_term (compound_repr fs) = err bad_get

      pub element_terms : Values (Atomic D) S → Result EcWord
      element_terms no_values = ok (build nil)
      element_terms (more v vs) =
          element_terms vs >>= λ rest. value_term v >>= λ w. ok (build (cons w rest))
