-- ===== src/Readylog/Values.antt =====
-- Terms as values (src/semantics/readylog/value.cpp: pl_term_to_value).
use gologpp.Prelude.{
  ℕ, zero, suc, String, Bool, true, false, Option, none, some, List, [], ◌∷◌, lookup, ◌==◌, text_eq,
  if◌then◌else◌,
}
use gologpp.Error.{Result, ok, err, bug, out_of_range, null_dereference, out_of_fuel, ◌>>=◌}
use gologpp.Types.{
  bool, number, string, symbol, ValueType, predefined, compound_type, list_type, Fields, field_type,
  name,
}
use gologpp.Values.{
  Value, value, type_of, atomic, compound_repr, list_repr, Values, no_values, more, FieldValues,
  no_field_values, assigned, compound_value, list_value,
}
use gologpp.Readylog.{Engine, View, integer, double, atom, quoted, nil, cons, compound, variable}
use gologpp.Readylog.Numbers.{long, floating, fits_long}
use gologpp.Readylog.Terms.{Atomic, numeric, textual, truth}

-- `substr(1)`
unfoldable pub without_first : String → Result String
without_first String.[] = err out_of_range
without_first (String.◌∷◌ c s) = ok s

-- Scope::lookup_type, for all types, and for those of one class.
unfoldable pub lookup_type :
    {S : Type 0} → String → List (String × ValueType S) → Option (ValueType S)
unfolding lookup
lookup_type n types = lookup n types

unfoldable pub as_list : {S : Type 0} → Option (ValueType S) → Option (ValueType S)
as_list (some (list_type e)) = some e
as_list other = none

unfoldable pub as_compound : {S : Type 0} → Option (ValueType S) → Option (String × Fields S)
as_compound (some (compound_type c fs)) = some (c, fs)
as_compound other = none

-- Scope::lookup_list_type, the element type of the list type that it finds.
unfoldable pub lookup_list_type :
    {S : Type 0} → ValueType S → List (String × ValueType S) → Option (ValueType S)
unfolding lookup_type as_list name
lookup_list_type e types = as_list (lookup_type (name (list_type e)) types)

-- A symbol becomes a string where a string is asked for.
unfoldable pub symbol_as_string :
    {D S : Type 0} → ValueType S → Value (Atomic D) S → Value (Atomic D) S
symbol_as_string (predefined string) (value (predefined symbol) r) = value (predefined string) r
symbol_as_string t v = v

unfoldable pub is_symbol : {S : Type 0} → ValueType S → Bool
is_symbol (predefined symbol) = true
is_symbol other = false

-- The type of the field is looked up only for a symbol.
unfoldable pub convert_field :
    {D S : Type 0} → Fields S → String → Value (Atomic D) S → Result (Value (Atomic D) S)
unfolding symbol_as_string is_symbol field_type
convert_field fs f v =
    if is_symbol (type_of v) then (field_type f fs >>= λ t. ok (symbol_as_string t v)) else ok v

abbrev pub bool_value : {D S : Type 0} → Bool → Value (Atomic D) S
bool_value b = value (predefined bool) (atomic (truth b))

-- The value of an atom: `true` and `fail` are truth values.
unfoldable pub atom_value : {D S : Type 0} → String → Value (Atomic D) S
atom_value s =
    if s == "true"
    then bool_value true
    else if s == "fail"
    then bool_value false
    else value (predefined symbol) (atomic (textual s))

unfoldable pub list_values : {A S : Type 0} → List (Value A S) → Values A S
list_values [] = no_values
list_values (v ∷ vs) = more v (list_values vs)

unfoldable pub field_values : {A S : Type 0} → List (String × Value A S) → FieldValues A S
field_values [] = no_field_values
field_values ((f, v) ∷ fs) = assigned f v (field_values fs)

-- `types` are the types of the global scope; `suits` is `>=` of a type and a value.
module _ {D S : Type 0} (engine : Engine D) (subset : S → S → Bool)
    (suits : ValueType S → Value (Atomic D) S → Result Bool)
    (types : List (String × ValueType S)) where
  open engine use {EcWord, view}

  -- The loop over the elements, whose list is taken apart before each round; `value_of` is
  -- pl_term_to_value.
  unfoldable pub read_elements :
      (EcWord → Result (Value (Atomic D) S))
      → ValueType S
      → ℕ
      → View EcWord D
      → Result (List (Value (Atomic D) S))
  unfolding symbol_as_string
  read_elements value_of e zero list = err out_of_fuel
  read_elements value_of e (suc fuel) (cons head tail) = value_of head >>= λ v.
      read_elements value_of e fuel (view tail) >>= λ vs. ok (symbol_as_string e v ∷ vs)
  read_elements value_of e (suc fuel) other = ok []

  -- The name and the term of one field.
  unfoldable pub field_of : View EcWord D → Result (String × EcWord)
  unfolding without_first
  field_of (compound f (w ∷ [])) = without_first f >>= λ field. ok (field, w)
  field_of other = err bug

  unfoldable pub read_fields :
      (EcWord → Result (Value (Atomic D) S))
      → Fields S
      → ℕ
      → View EcWord D
      → Result (List (String × Value (Atomic D) S))
  unfolding convert_field field_of
  read_fields value_of fs zero list = err out_of_fuel
  read_fields value_of fs (suc fuel) (cons head tail) = field_of (view head) >>= λ (f, w).
      value_of w >>= λ v. convert_field fs f v >>= λ v'.
      read_fields value_of fs fuel (view tail) >>= λ entries. ok ((f, v') ∷ entries)
  read_fields value_of fs (suc fuel) other = ok []

  -- A list: the type of the value is the list type of the list type that was found, which need not
  -- exist.
  unfoldable pub read_list :
      (EcWord → Result (Value (Atomic D) S))
      → ℕ
      → String
      → View EcWord D
      → Result (Value (Atomic D) S)
  read_list value_of fuel did list = without_first did >>= λ elem_type_name.
      elim (lookup_type elem_type_name types) [
        | none ↦ err bug
        | some e ↦ elim (lookup_list_type e types) [
          | none ↦ err bug
          | some e' ↦ read_elements value_of e' fuel list >>= λ vs.
              elim (lookup_list_type (list_type e') types) [
                | none ↦ err null_dereference
                | some e'' ↦ list_value subset (list_type e'') vs >>= λ done.
                    ok (value (list_type e'') (list_repr (list_values done)))
              ]
        ]
      ]

  unfoldable pub read_compound :
      (EcWord → Result (Value (Atomic D) S))
      → ℕ
      → String
      → View EcWord D
      → Result (Value (Atomic D) S)
  read_compound value_of fuel did list = without_first did >>= λ type_name.
      elim (as_compound (lookup_type type_name types)) [
        | none ↦ err bug
        | some (c, fs) ↦ read_fields value_of fs fuel list >>= λ entries.
            compound_value subset suits (compound_type c fs) entries >>= λ done.
            ok (value (compound_type c fs) (compound_repr (field_values done)))
      ]

  -- A term with the name of the type in front of a list that is not empty.
  unfoldable pub read_typed :
      (EcWord → Result (Value (Atomic D) S))
      → ℕ
      → String
      → View EcWord D
      → View EcWord D
      → Result (Value (Atomic D) S)
  unfolding read_list read_compound
  read_typed value_of fuel functor (atom did) (cons head tail) =
      if functor == "gpp_list"
      then read_list value_of fuel did (cons head tail)
      else if functor == "gpp_compound"
      then read_compound value_of fuel did (cons head tail)
      else err bug
  read_typed value_of fuel functor type list = err bug

  unfoldable pub read_view :
      (EcWord → Result (Value (Atomic D) S)) → ℕ → View EcWord D → Result (Value (Atomic D) S)
  unfolding fits_long atom_value read_typed
  read_view value_of fuel (integer i) =
      if fits_long i then ok (value (predefined number) (atomic (numeric (long i)))) else err bug
  read_view value_of fuel (double d) =
      ok (value (predefined number) (atomic (numeric (floating d))))
  read_view value_of fuel (atom s) = ok (atom_value s)
  read_view value_of fuel (quoted s) = ok (value (predefined string) (atomic (textual s)))
  read_view value_of fuel nil = err bug
  read_view value_of fuel (cons h t) = err bug
  read_view value_of fuel variable = err bug
  read_view value_of fuel (compound functor []) = err bug
  read_view value_of fuel (compound functor (w ∷ [])) = err bug
  read_view value_of fuel (compound functor (type ∷ list ∷ [])) =
      read_typed value_of fuel functor (view type) (view list)
  read_view value_of fuel (compound functor (w ∷ x ∷ y ∷ ws)) = err bug

  -- The fuel bounds the depth of the term, and the length of its lists.
  unfoldable pub pl_term_to_value : ℕ → EcWord → Result (Value (Atomic D) S)
  unfolding read_view
  pl_term_to_value zero w = err out_of_fuel
  pl_term_to_value (suc fuel) w = read_view (pl_term_to_value fuel) fuel (view w)
