-- ===== src/Values/Suits.antt =====
-- When the test of a value against a type ends (src/model/types.cpp, ListType::operator>=, and
-- src/model/value.cpp, Value::operator<=, which call each other).
use gologpp.Prelude.{ℕ, zero, suc, ◌+◌, ◌≤◌, ◌≡◌, ◌≢◌, refl, Bool, true, false, arith}
use gologpp.Error.{ok, err, out_of_fuel}
use gologpp.Types.{
  ValueType, undefined_type, predefined, compound_type, list_type, domain_type, list_ge, ge, rank,
}
use gologpp.Types.Equations.{ge-list}
use gologpp.Types.Termination.{type_ge-total}
use gologpp.Values.{
  Value, value, Representation, atomic, compound_repr, list_repr, Values, no_values, more, type_of,
  elements_le, list_le, value_ge, value_le,
}

module _ {S : Type 0} where
  -- Neither undefined nor a list.
  abbrev pub is_unlisted : ValueType S → Bool
  is_unlisted undefined_type = false
  is_unlisted (list_type u) = false
  is_unlisted (predefined p) = true
  is_unlisted (compound_type c fs) = true
  is_unlisted (domain_type d u s) = true

unlisted-ge :
    {S : Type 0} (subset : S → S → Bool) (e u : ValueType S)
    → is_unlisted u ≡ true
    → ge subset (list_type e) u ≡ ok false
unfolding list_ge
unlisted-ge subset e undefined_type h = cc
unlisted-ge subset e (list_type u) h = cc
unlisted-ge subset e (predefined p) h = ge-list subset e (predefined p)
unlisted-ge subset e (compound_type c fs) h = ge-list subset e (compound_type c fs)
unlisted-ge subset e (domain_type d u s) h = ge-list subset e (domain_type d u s)

module _ {A S : Type 0} (subset : S → S → Bool) (member : Value A S → S → Bool) where
  -- A list type and a value of a type that is neither undefined nor a list type: the test calls itself
  -- with the same arguments, however much fuel there is.
  pub value_ge-loops :
      (n : ℕ) (e : ValueType S) (u : ValueType S) (r : Representation A S)
      → is_unlisted u ≡ true
      → value_ge subset member n (list_type e) (value u r) ≡ err out_of_fuel
  unfolding value_ge
  value_ge-loops zero e u r h = refl
  value_ge-loops (suc zero) e u r h = rw (unlisted-ge subset e u h)
  value_ge-loops (suc (suc n)) e (predefined p) r h =
      rw (unlisted-ge subset e (predefined p) h) (value_ge-loops n e (predefined p) r h)
  value_ge-loops (suc (suc n)) e (compound_type c fs) r h =
      rw (unlisted-ge subset e (compound_type c fs) h) (value_ge-loops n e (compound_type c fs) r h)
  value_ge-loops (suc (suc n)) e (domain_type d u s) r h =
      rw (unlisted-ge subset e (domain_type d u s) h) (value_ge-loops n e (domain_type d u s) r h)
  value_ge-loops (suc (suc n)) e undefined_type r h = cc
  value_ge-loops (suc (suc n)) e (list_type u) r h = cc

-- How deep the test goes into a value.
unfoldable mutual
  pub size : {A S : Type 0} → Value A S → ℕ
  size (value u r) = 2 + size_representation r

  pub size_representation : {A S : Type 0} → Representation A S → ℕ
  size_representation (atomic a) = 0
  size_representation (compound_repr fs) = 0
  size_representation (list_repr vs) = size_values vs

  pub size_values : {A S : Type 0} → Values A S → ℕ
  size_values no_values = 0
  size_values (more v vs) = size v + size_values vs

-- Where lists are asked for, there are lists, or values with no type.
abbrev mutual
  pub HasLists : {A S : Type 0} → Value A S → ValueType S → Type 0
  HasLists (value u r) (list_type e) = (is_unlisted u ≡ false) × RepresentsLists r e
  HasLists (value u r) undefined_type = Unit
  HasLists (value u r) (predefined p) = Unit
  HasLists (value u r) (compound_type c fs) = Unit
  HasLists (value u r) (domain_type d e s) = Unit

  pub RepresentsLists : {A S : Type 0} → Representation A S → ValueType S → Type 0
  RepresentsLists (atomic a) e = Unit
  RepresentsLists (compound_repr fs) e = Unit
  RepresentsLists (list_repr vs) e = HaveLists vs e

  pub HaveLists : {A S : Type 0} → Values A S → ValueType S → Type 0
  HaveLists no_values e = Unit
  HaveLists (more v vs) e = HasLists v e × HaveLists vs e

module _ {A S : Type 0} (subset : S → S → Bool) (member : Value A S → S → Bool) where
  ge-ends : (a b : ValueType S) → ge subset a b ≢ err out_of_fuel
  ge-ends a b = (type_ge-total subset (rank a + rank b) a b (omega arith)).1

  abbrev is_list : ValueType S → Bool
  is_list (list_type e) = true
  is_list undefined_type = false
  is_list (predefined p) = false
  is_list (compound_type c fs) = false
  is_list (domain_type d e s) = false

  unlisted-value_ge-ends :
      (n : ℕ) (t : ValueType S) (v : Value A S)
      → is_list t ≡ false
      → value_ge subset member (suc n) t v ≢ err out_of_fuel
  unfolding value_ge
  unlisted-value_ge-ends n undefined_type v h = cc
  unlisted-value_ge-ends n (predefined p) v h = ge-ends (predefined p) (type_of v)
  unlisted-value_ge-ends n (compound_type c fs) v h = ge-ends (compound_type c fs) (type_of v)
  unlisted-value_ge-ends n (domain_type d e s) v h =
      ground (arith, ge-ends (domain_type d e s) (type_of v))
  unlisted-value_ge-ends n (list_type e) v h = cc

  abbrev Ends : ℕ → Type 0
  Ends n =
      (v : Value A S) (t : ValueType S)
      → size v ≤ n
      → HasLists v t
      → value_le subset member n v t ≢ err out_of_fuel

  elements_le-Ends :
      (n : ℕ) (e : ValueType S) (vs : Values A S)
      → Ends n
      → size_values vs ≤ n
      → HaveLists vs e
      → elements_le (λ w. value_le subset member n w e) vs ≢ err out_of_fuel
  unfolding elements_le size
  elements_le-Ends n e no_values ih h a = cc
  elements_le-Ends n e (more v vs) ih h (a, as') =
      ground (arith, ih v e (omega arith) a, elements_le-Ends n e vs ih (omega arith) as')

  value_le-Ends : (n : ℕ) → Ends n
  unfolding value_le size list_le value_ge list_ge
  value_le-Ends zero (value u r) t h a = absurd (omega arith)
  value_le-Ends (suc zero) (value u r) t h a = absurd (omega arith)
  value_le-Ends (suc (suc n)) (value (list_type u) (list_repr vs)) (list_type e) h (a, a') =
      elements_le-Ends (suc n) e vs (value_le-Ends (suc n)) (omega arith) a'
  value_le-Ends (suc (suc n)) (value (list_type u) (atomic x)) (list_type e) h a = cc
  value_le-Ends (suc (suc n)) (value (list_type u) (compound_repr fs)) (list_type e) h a = cc
  value_le-Ends (suc (suc n)) (value (list_type u) r) undefined_type h a = cc
  value_le-Ends (suc (suc n)) (value (list_type u) r) (predefined p) h a = cc
  value_le-Ends (suc (suc n)) (value (list_type u) r) (compound_type c fs) h a = cc
  value_le-Ends (suc (suc n)) (value (list_type u) r) (domain_type d e s) h a = cc
  value_le-Ends (suc (suc n)) (value undefined_type r) (list_type e) h a =
      rw (ge-list subset e undefined_type) (cc)
  value_le-Ends (suc (suc n)) (value (predefined p) r) (list_type e) h a = cc (a.0)
  value_le-Ends (suc (suc n)) (value (compound_type c fs) r) (list_type e) h a = cc (a.0)
  value_le-Ends (suc (suc n)) (value (domain_type d u s) r) (list_type e) h a = cc (a.0)
  value_le-Ends (suc (suc n)) (value u r) t h a = unlisted-value_ge-ends n t (value u r) refl

  -- The test of a value against a type ends if, wherever a list is asked for, there is a list or a value
  -- of the undefined type: with fuel for the size of the value, it is not used up.
  pub value_ge-ends :
      (n : ℕ) (t : ValueType S) (v : Value A S)
      → suc (size v) ≤ n
      → HasLists v t
      → value_ge subset member n t v ≢ err out_of_fuel
  unfolding value_ge
  value_ge-ends zero t v h a = absurd (omega arith)
  value_ge-ends (suc n) (list_type e) v h a =
      ground
        (arith, ge-ends (list_type e) (type_of v), value_le-Ends n v (list_type e) (omega arith) a)
  value_ge-ends (suc n) t v h a = unlisted-value_ge-ends n t v refl
