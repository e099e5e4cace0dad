-- ===== src/Domain/Tests.antt =====
-- The theorems on domains at domains of numbers; the type 0 is undefined.
use gologpp.Prelude.{ℕ, ◌≡◌, refl, true, false, not, ◌&&◌, eqb, leb, arith, nat_eq, List, [], ◌∷◌}
use gologpp.Error.{ok}
use gologpp.Domain.{
  TypeOrder, Domain, contains, domain_union, domain_difference, domain_intersection,
}
use gologpp.Domain.Laws.{contains-domain_intersection}

-- A type is a bound: it takes the values up to it.
abbrev pub up_to : TypeOrder ℕ ℕ
up_to = record { is_defined = λ t. not (eqb t 0); ge = λ t u. leb u t; ge_value = λ t v. leb v t }

abbrev of : List ℕ → Domain ℕ ℕ
of xs = record { type = 9; element_type = 9; elements = xs; implicit = false }

abbrev small : Domain ℕ ℕ
small = of (1 ∷ 2 ∷ [])

abbrev even : Domain ℕ ℕ
even = of (2 ∷ 4 ∷ [])

union_runs : domain_union up_to 0 small even ≡ ok (of (1 ∷ 2 ∷ 4 ∷ []))
unfolding domain_union
union_runs = refl

difference_runs : domain_difference up_to 0 small even ≡ ok (of (1 ∷ []))
unfolding domain_difference
difference_runs = refl

intersection_runs : domain_intersection up_to 0 small even ≡ ok (of (2 ∷ []))
unfolding domain_intersection
intersection_runs = refl

contains-domain_intersection_example :
    contains 4 (of (2 ∷ [])).elements ≡ (contains 4 small.elements && contains 4 even.elements)
contains-domain_intersection_example =
    contains-domain_intersection up_to 4 0 small even (of (2 ∷ [])) intersection_runs

reflexive : (t : ℕ) → up_to.ge t t ≡ true
reflexive t = ground arith
