-- ===== src/Values/Tests.antt =====
-- Values of the types of a small program, and the theorems at some of them.
use gologpp.Prelude.{
  ℕ, suc, String, ◌≡◌, ◌≢◌, refl, Bool, true, false, List, [], ◌∷◌, text_eq, leb, arith,
}
use gologpp.Error.{Result, ok, err, out_of_fuel, type_error, expression_type_mismatch}
use gologpp.Types.{
  number, string, ValueType, predefined, compound_type, list_type, domain_type, Fields, ge,
}
use gologpp.Types.Tests.{numbers, point}
use gologpp.Values.{
  Value, value, atomic, compound_repr, list_repr, no_values, more, list_le, value_ge,
  compound_value, compound_expression, list_expression, list_value,
}
use gologpp.Values.Suits.{size, value_ge-loops, value_ge-ends}
use gologpp.Values.Construction.{Conforms, Complete, compound_expression_lem}

abbrev V : Type 0
V = Value ℕ ℕ

-- The elements of a set are the numbers below it.
abbrev member : V → ℕ → Bool
member (value t (atomic a)) s = leb (suc a) s
member (value t (list_repr vs)) s = false
member (value t (compound_repr fs)) s = false

abbrev five : V
five = value (predefined number) (atomic 5)

abbrev word : V
word = value (predefined string) (atomic 0)

abbrev fives : V
fives = value (list_type (predefined number)) (list_repr (more five (more five no_values)))

abbrev suits : ValueType ℕ → V → Result Bool
suits = value_ge leb member 20

in_domain : suits (domain_type "small" numbers 10) five ≡ ok true
unfolding value_ge ge
in_domain = refl

-- A list of numbers suits the lists of a domain that has them all.
in_lists : suits (list_type (domain_type "small" numbers 10)) fives ≡ ok true
unfolding value_ge ge list_le
in_lists = refl

not_in_lists : suits (list_type (domain_type "small" numbers 5)) fives ≡ ok false
unfolding value_ge ge list_le
not_in_lists = refl

wrong_elements : list_value leb (list_type numbers) (word ∷ []) ≡ ok (word ∷ [])
unfolding list_value ge
wrong_elements = refl

value_ge-loops_example : value_ge leb member 1000 (list_type numbers) five ≡ err out_of_fuel
value_ge-loops_example = value_ge-loops leb member 1000 numbers numbers (atomic 5) refl

value_ge-ends_example :
    value_ge leb member 20 (list_type (domain_type "small" numbers 10)) fives ≢ err out_of_fuel
unfolding size
value_ge-ends_example =
    value_ge-ends leb member 20 (list_type (domain_type "small" numbers 10)) fives (omega arith)
      (refl, (tt, (tt, tt)))

abbrev two_entries : List (String × V)
two_entries = ("x", five) ∷ ("y", five) ∷ []

construct : compound_value leb suits point two_entries ≡ ok two_entries
unfolding compound_value value_ge ge
construct = refl

construct_expression : compound_expression leb suits point two_entries ≡ ok two_entries
unfolding compound_expression value_ge ge
construct_expression = refl

missing : compound_expression leb suits point (("x", five) ∷ []) ≡ err type_error
unfolding compound_expression value_ge ge
missing = refl

mismatch : list_expression leb suits (list_type numbers) (word ∷ []) ≡ err expression_type_mismatch
unfolding list_expression value_ge ge
mismatch = refl

compound_expression_lem_example :
    (c : String) × (fs : Fields ℕ) × (point ≡ compound_type c fs)
    × Conforms leb suits fs two_entries
    × Complete leb suits fs two_entries
compound_expression_lem_example =
    compound_expression_lem leb suits point two_entries two_entries construct_expression
