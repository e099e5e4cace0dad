-- ===== src/Readylog/Tests.antt =====
-- A concrete engine, and values that are sent to it.
use Prim.Native.Nat.{◌^◌}
use Prim.Native.String.{◌++◌ as push_str}
use gologpp.Prelude.{
  ℕ, String, ◌≡◌, ◌↔◌, refl, Bool, true, some, List, [], ◌∷◌, lookup, ◌==◌, text_eq, leb, arith, ap,
  ◌-◌, inl, inr, Bool-cases, some_inj, sym, ◌∙◌,
}
use gologpp.Error.{Result, ok, err, bug}
use gologpp.Types.{number, ValueType, predefined, list_type, name, ge}
use gologpp.Values.{
  Value, value, type_of, Representation, atomic, list_repr, no_values, more, list_value,
}
use gologpp.Readylog.{Engine, View, integer, double, atom, quoted, nil, cons, compound, variable}
use gologpp.Readylog.Numbers.{ℤ, pos, negsuc, unsigned_int, unsigned_long, long, fits_long}
use gologpp.Readylog.Terms.{Atomic, numeric, number_term, value_term}
use gologpp.Readylog.Values.{
  pl_term_to_value, without_first, lookup_type, lookup_list_type, read_elements, list_values,
}
use gologpp.Readylog.Laws.{read-number_term, IsRegistry, back, back-list}

-- Terms as data.
mutual
  data Term : Type 0 where
    integer_term : ℤ → Term
    double_term : ℕ → Term
    atom_term : String → Term
    quoted_term : String → Term
    nil_term : Term
    cons_term : Term → Term → Term
    compound_term : String → Terms → Term
    variable_term : Term

  data Terms : Type 0 where
    none_left : Terms
    and_then : Term → Terms → Terms

abbrev to_terms : List Term → Terms
to_terms [] = none_left
to_terms (t ∷ ts) = and_then t (to_terms ts)

abbrev from_terms : Terms → List Term
from_terms none_left = []
from_terms (and_then t ts) = t ∷ from_terms ts

from_terms-to_terms : (ts : List Term) → from_terms (to_terms ts) ≡ ts
from_terms-to_terms [] = refl
from_terms-to_terms (t ∷ ts) = ap (λ l. t ∷ l) (from_terms-to_terms ts)

abbrev build_term : View Term ℕ → Term
build_term (integer i) = integer_term i
build_term (double d) = double_term d
build_term (atom s) = atom_term s
build_term (quoted s) = quoted_term s
build_term nil = nil_term
build_term (cons h t) = cons_term h t
build_term (compound f ts) = compound_term f (to_terms ts)
build_term variable = variable_term

abbrev view_term : Term → View Term ℕ
view_term (integer_term i) = integer i
view_term (double_term d) = double d
view_term (atom_term s) = atom s
view_term (quoted_term s) = quoted s
view_term nil_term = nil
view_term (cons_term h t) = cons h t
view_term (compound_term f ts) = compound f (from_terms ts)
view_term variable_term = variable

view_term-build_term : (v : View Term ℕ) → view_term (build_term v) ≡ v
view_term-build_term (integer i) = refl
view_term-build_term (double d) = refl
view_term-build_term (atom s) = refl
view_term-build_term (quoted s) = refl
view_term-build_term nil = refl
view_term-build_term (cons h t) = refl
view_term-build_term (compound f ts) = ap (compound f) (from_terms-to_terms ts)
view_term-build_term variable = refl

abbrev terms : Engine ℕ
terms = record {
  EcWord = Term;
  build = build_term;
  view = view_term;
  view-build = view_term-build_term;
}

abbrev V : Type 0
V = Value (Atomic ℕ) ℕ

abbrev accepts : ValueType ℕ → V → Result Bool
accepts t v = ok true

abbrev registered : List (String × ValueType ℕ)
registered =
    ("number", predefined number)
    ∷ ("list[number]", list_type (predefined number))
    ∷ ("list[list[number]]", list_type (list_type (predefined number)))
    ∷ []

abbrev on : String
on = "on"

abbrev numbers : ValueType ℕ
numbers = list_type (predefined number)

abbrev print : Representation (Atomic ℕ) ℕ → String
print r = "printed"

-- The largest unsigned long is read back as minus one.
wrapped :
    pl_term_to_value terms leb accepts registered 1 (number_term terms (unsigned_long (2 ^ 64 - 1)))
    ≡ ok (value (predefined number) (atomic (numeric (long (negsuc 0)))))
unfolding pl_term_to_value number_term
wrapped = refl

read-number_term_example :
    (pl_term_to_value terms leb accepts registered 1 (number_term terms (unsigned_int 7))
      ≡ ok (value (predefined number) (atomic (numeric (long (pos 7))))))
    ↔ (fits_long (pos 7) ≡ true)
read-number_term_example =
    read-number_term terms leb accepts registered 0 (unsigned_int 7) (pos 7) (omega arith) refl

abbrev one : V
one = value (predefined number) (atomic (numeric (long (pos 1))))

abbrev read_back : V
read_back = value (list_type (list_type (predefined number))) (list_repr (more one no_values))

list_of_lists :
    back terms leb accepts registered print 3
      (value (list_type (predefined number)) (list_repr (more one no_values)))
    ≡ ok read_back
unfolding value_term pl_term_to_value without_first lookup_type lookup_list_type read_elements
    list_value ge list_values
list_of_lists = refl

empty_list :
    back terms leb accepts registered print 3
      (value (list_type (predefined number)) (list_repr no_values))
    ≡ err bug
unfolding value_term pl_term_to_value
empty_list = refl

abbrev AreNamed : List (String × ValueType ℕ) → Type 0
AreNamed m = (n : String) (t : ValueType ℕ) → lookup n m ≡ some t → name t ≡ n

named_cons :
    (k : String) (t' : ValueType ℕ) (m : List (String × ValueType ℕ))
    → name t' ≡ k
    → AreNamed m
    → AreNamed ((k, t') ∷ m)
unfolding lookup
named_cons k t' m e rest n t h = elim (Bool-cases (k == n)) [
  | inl same ↦ ap name (sym (some_inj t' t (rw same at h))) ∙ e ∙ (text_eq.beq_iff k n).0 same
  | inr other ↦ rest n t (rw other at h)
]

named_nil : AreNamed []
unfolding lookup
named_nil n t h = cc

registered-IsRegistry : IsRegistry terms leb accepts registered
unfolding name
registered-IsRegistry = named_cons "number" (predefined number) _ refl (
    named_cons "list[number]" numbers _ refl
      (named_cons "list[list[number]]" (list_type numbers) [] refl named_nil))

back-list_example : name (type_of read_back) ≡ push_str "list[" (push_str (name numbers) "]")
back-list_example =
    back-list terms leb accepts registered print 3 (predefined number)
      (list_repr (more one no_values)) read_back registered-IsRegistry list_of_lists
