-- ===== src/Types/Tests.antt =====
-- The order of types on types of a small program, and the theorems at some of them.
use gologpp.Prelude.{ℕ, ◌≡◌, ◌≢◌, refl, ◌↔◌, true, false, ◌==◌, text_eq, leb, arith}
use gologpp.Error.{ok, err, out_of_fuel, no_such_field}
use gologpp.Types.{
  Predefined, bool, number, string, symbol, void, ValueType, predefined, compound_type, domain_type,
  Fields, no_fields, field, has_field, type_ge, rank, ge, static_name,
}
use gologpp.Types.Termination.{type_ge-total}
use gologpp.Types.Equations.{FieldsSuit, compound-ge-FieldsSuit}
use gologpp.Types.Order.{AreWellFormed}
use gologpp.Types.Transitivity.{ge_trans}

-- The sets are those of the numbers below one.
abbrev pub numbers : ValueType ℕ
numbers = predefined number

abbrev pub point : ValueType ℕ
point = compound_type "point" (field "x" numbers (field "y" numbers no_fields))

abbrev point_fields : Fields ℕ
point_fields = field "x" numbers (field "y" numbers no_fields)

abbrev line : ValueType ℕ
line = compound_type "line" (field "x" numbers no_fields)

abbrev small : ValueType ℕ
small = domain_type "small" (predefined number) 10

wider : ge leb line point ≡ ok true
unfolding ge
wider = refl

-- A field that the other type does not have is an exception, not an answer.
narrower : ge leb point line ≡ err no_such_field
unfolding ge
narrower = refl

above_domain : ge leb numbers small ≡ ok true
unfolding ge
above_domain = refl

-- The field of the larger type has to be below that of the smaller one.
backwards :
    ge leb
      (compound_type "a" (field "x" numbers no_fields))
      (compound_type "b" (field "x" small no_fields))
    ≡ ok false
unfolding ge
backwards = refl

forwards :
    ge leb
      (compound_type "b" (field "x" small no_fields))
      (compound_type "a" (field "x" numbers no_fields))
    ≡ ok true
unfolding ge
forwards = refl

type_ge-total_example :
    (type_ge leb 20 line point ≡ ge leb line point) × (ge leb line point ≢ err out_of_fuel)
unfolding rank
type_ge-total_example = type_ge-total leb 20 line point (omega arith)

compound-ge-FieldsSuit_example :
    (ge leb line point ≡ ok true) ↔ FieldsSuit leb (field "x" numbers no_fields) point_fields
compound-ge-FieldsSuit_example =
    compound-ge-FieldsSuit leb "line" "point" (field "x" numbers no_fields) point_fields

point-IsWellFormed : AreWellFormed point_fields
unfolding has_field
point-IsWellFormed = (refl, tt, (refl, tt, tt))

leb_refl : (n : ℕ) → leb n n ≡ true
leb_refl n = ground arith

not_line : (p : Predefined) → (static_name p == "line") ≡ false
unfolding static_name
not_line bool = refl
not_line number = refl
not_line string = refl
not_line symbol = refl
not_line void = refl

not_point : (p : Predefined) → (static_name p == "point") ≡ false
unfolding static_name
not_point bool = refl
not_point number = refl
not_point string = refl
not_point symbol = refl
not_point void = refl

point_self : ge leb point point ≡ ok true
unfolding ge
point_self = refl

ge_trans_example : ge leb line point ≡ ok true
ge_trans_example =
    ge_trans leb line point point (not_line, (tt, tt)) (not_point, (tt, (tt, tt)))
      (not_point, (tt, (tt, tt))) wider point_self
