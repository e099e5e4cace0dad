-- ===== src/Values/Equality/Tests.antt =====
-- Values that are compared, and their hashes.
use gologpp.Prelude.{
  ℕ, ◌+◌, ◌≡◌, ◌≢◌, refl, true, eqb, eqb_iff, beq_refl, nat_eq, text_eq, leb, arith,
}
use gologpp.Error.{ok}
use gologpp.Types.{ValueType, compound_type, no_fields, field, ge, has_field}
use gologpp.Types.Tests.{numbers}
use gologpp.Values.{Value, value, atomic, compound_repr, no_field_values, assigned}
use gologpp.Values.Equality.{type_le, value_eq, hash}
use gologpp.Values.Equality.Hash.{hash-value_eq}
use gologpp.Values.Equality.Order.{value_eq_refl}

abbrev V : Type 0
V = Value ℕ ℕ

abbrev pair_type : ValueType ℕ
pair_type = compound_type "pair" (field "x" numbers (field "y" numbers no_fields))

abbrev num : ℕ → V
num n = value numbers (atomic n)

abbrev pair : V
pair = value pair_type (compound_repr (assigned "x" (num 1) (assigned "y" (num 2) no_field_values)))

-- The same map, in another order.
abbrev turned : V
turned =
    value pair_type (compound_repr (assigned "y" (num 2) (assigned "x" (num 1) no_field_values)))

abbrev hash_atom : ℕ → ℕ
hash_atom n = n

abbrev combine : ℕ → ℕ → ℕ
combine rv n = rv + rv + n

pair-turned : value_eq leb eqb pair turned ≡ ok true
unfolding value_eq type_le ge
pair-turned = refl

-- They are equal, and have different hashes.
hashes : hash hash_atom combine pair ≢ hash hash_atom combine turned
unfolding hash
hashes e = omega arith

-- Another type with the same fields.
abbrev twin : V
twin =
    value (compound_type "twin" (field "y" numbers (field "x" numbers no_fields)))
      (compound_repr (assigned "x" (num 1) (assigned "y" (num 2) no_field_values)))

pair-twin : value_eq leb eqb pair twin ≡ ok true
unfolding value_eq type_le ge
pair-twin = refl

hash-value_eq_example : hash hash_atom combine pair ≡ hash hash_atom combine twin
unfolding value_eq
hash-value_eq_example =
    hash-value_eq leb eqb hash_atom combine (λ a b e. (eqb_iff a b).0 e) pair twin pair-twin
      ((refl, tt, (refl, tt, tt)), (refl, (refl, tt)))

value_eq_refl_example : value_eq leb eqb pair pair ≡ ok true
unfolding value_eq has_field
value_eq_refl_example =
    value_eq_refl leb eqb (λ s. ground arith) (λ a. beq_refl a) pair
      ((refl, tt, (refl, tt, tt)), (((tt, tt), ((tt, tt), tt)), (refl, (refl, tt))))
