-- ===== src/Scope/Registry/Tests.antt =====
-- A program that declares a domain of numbers, and defines it.
use gologpp.Prelude.{
  ℕ, ◌≡◌, refl, String, true, false, some, [], ◌∷◌, get_elem?, lookup, assign, leb, nat_eq, text_eq,
  if◌then◌else◌,
}
use gologpp.Error.{ok, err, type_error, redefinition_error}
use gologpp.Domain.{Domain, contains, set_type, define, add_elements}
use gologpp.Domain.Tests.{up_to}
use gologpp.Scope.Registry.{
  Registry, domain_at, plain, new_domain, exists_domain, exists_type, lookup_domain, register_type,
  register_domain, declare_domain, redefine, define_domain,
}
use gologpp.Scope.Registry.Built.{empty, registered, declared, Built, Built-IsConsistent}
use gologpp.Scope.Registry.Consistent.{IsConsistent}
use gologpp.Scope.Registry.Laws.{IsLinked, with_domain-IsLinked}
use gologpp.Scope.Registry.Definitions.{define_domain_lem, declare_domain-again}

-- A domain is below its bound.
abbrev as_bound : String → Domain ℕ ℕ → ℕ
as_bound n d = d.element_type

abbrev start : Registry ℕ ℕ
start = record { objects = []; domains = []; types = ("number", plain 9) ∷ [] }

abbrev room : String
room = "room"

abbrev declared_room : Registry ℕ ℕ
declared_room = record {
  objects = new_domain 0 9 ∷ [];
  domains = (room, 0) ∷ [];
  types = ("number", plain 9) ∷ (room, domain_at 0) ∷ [];
}

abbrev rooms : Domain ℕ ℕ
rooms = record { type = 5; element_type = 9; elements = 4 ∷ 7 ∷ []; implicit = true }

abbrev defined_room : Registry ℕ ℕ
defined_room = record {
  objects = record { type = 9; element_type = 9; elements = 4 ∷ 7 ∷ []; implicit = false } ∷ [];
  domains = (room, 0) ∷ [];
  types = ("number", plain 9) ∷ (room, domain_at 0) ∷ [];
}

declares : declare_domain up_to leb 0 as_bound room 9 start ≡ (ok tt, declared_room)
unfolding declare_domain lookup_domain register_domain register_type exists_domain exists_type
    assign
declares = refl

defines : define_domain up_to leb 0 as_bound room 9 rooms declared_room ≡ (ok tt, defined_room)
unfolding define_domain redefine lookup_domain register_domain register_type exists_domain
    exists_type assign set_type define add_elements
defines = refl

-- A definition with a type that the domain does not cover is a second domain of the name.
bigger :
    define_domain up_to leb 0 as_bound room 12 rooms declared_room
    ≡ (err redefinition_error, declared_room)
unfolding define_domain redefine lookup_domain register_domain register_type exists_domain
    exists_type assign set_type define add_elements
bigger = refl

-- The name of a type that is no domain cannot be declared, but then the domain is there.
abbrev number_room : Registry ℕ ℕ
number_room = record {
  objects = new_domain 0 9 ∷ [];
  domains = ("number", 0) ∷ [];
  types = ("number", plain 9) ∷ [];
}

taken : declare_domain up_to leb 0 as_bound "number" 9 start ≡ (err redefinition_error, number_room)
unfolding declare_domain lookup_domain register_domain register_type exists_domain exists_type
    assign
taken = refl

taken-Built : Built up_to leb 0 as_bound number_room
unfolding declare_domain lookup_domain register_domain register_type exists_domain exists_type
    assign
taken-Built = declared "number" 9 start (registered "number" 9 _ empty)

Built-IsConsistent_example : IsConsistent number_room
Built-IsConsistent_example = Built-IsConsistent up_to leb 0 as_bound number_room taken-Built

declared_room-IsLinked : IsLinked declared_room
unfolding lookup assign
declared_room-IsLinked = with_domain-IsLinked room (new_domain 0 9) start (λ k i h. cc)

define_domain_lem_example :
    (i : ℕ) × (d : Domain ℕ ℕ) × (lookup room defined_room.domains ≡ some i)
    × (lookup room defined_room.types ≡ some (domain_at i))
    × (get_elem? defined_room.objects i ≡ some d)
    × (contains 7 d.elements ≡ contains 7 rooms.elements)
define_domain_lem_example =
    define_domain_lem up_to leb 0 as_bound room 9 rooms declared_room defined_room 7
      declared_room-IsLinked defines

declare_domain-again_example : declare_domain up_to leb 0 as_bound room 8 declared_room ≡ (
    if leb 8 9
    then (if leb (as_bound room (new_domain 0 9)) 8
        then (ok tt, declared_room)
        else (err type_error, declared_room))
    else (err redefinition_error, declared_room))
unfolding exists_domain
declare_domain-again_example =
    declare_domain-again up_to leb 0 as_bound room 9 8 start declared_room refl declares
