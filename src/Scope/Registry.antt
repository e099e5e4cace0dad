-- ===== src/Scope/Registry.antt =====
-- The domains and types of a program (src/model/scope.cpp): Scope::register_type, register_domain,
-- lookup_domain, declare_domain and define_domain. A domain is an object that both maps point to.
pub mod Laws
pub mod Consistent
pub mod Built
pub mod Definitions
pub mod Tests
use gologpp.Prelude.{
  ℕ, String, Bool, true, false, Option, none, some, is_some, List, [], ◌∷◌, ◌++◌, length, get_elem?,
  set, lookup, assign, Eq, text_eq, if◌then◌else◌,
}
use gologpp.Error.{Result, ok, err, redefinition_error, type_error}
use gologpp.Domain.{TypeOrder, Domain, emplace, set_type, ensure_type, add_elements, define}

-- A type of the program: a domain, by its address, or another one.
pub data Entry (T : Type 0) : Type 0 where
  domain_at : ℕ → Entry T
  plain : T → Entry T

pub record Registry (T V : Type 0) : Type 0 where
  pub objects : List (Domain T V)
  pub domains : List (String × ℕ)
  pub types : List (String × Entry T)

module _ {T V : Type 0} where
  unfoldable pub exists_domain : String → Registry T V → Bool
  unfolding lookup
  exists_domain name r = is_some (lookup name r.domains)

  unfoldable pub exists_type : String → Registry T V → Bool
  unfolding lookup
  exists_type name r = is_some (lookup name r.types)

  unfoldable pub register_type : String → Entry T → Registry T V → Result (Unit {0}) × Registry T V
  register_type name t r =
      if exists_type name r
      then (err redefinition_error, r)
      else (ok tt, record r { types = assign name t r.types })

  -- The domain is there when `register_type` throws.
  unfoldable pub register_domain :
      String → Domain T V → Registry T V → Result (Unit {0}) × Registry T V
  register_domain name d r =
      if exists_domain name r
      then (err redefinition_error, r)
      else register_type name (domain_at (length r.objects)) (record r {
        objects = r.objects ++ d ∷ [];
        domains = assign name (length r.objects) r.domains;
      })

  -- The constructor of a domain; `undefined` is the type of a new element.
  abbrev pub new_domain : T → T → Domain T V
  new_domain undefined elem_type = record {
    type = undefined;
    element_type = elem_type;
    elements = [];
    implicit = false;
  }

  -- `le` is `<=` on types. The domain, with its address.
  unfoldable pub lookup_domain :
      (T → T → Bool) → String → T → Registry T V → Option (ℕ × Domain T V)
  unfolding lookup
  lookup_domain le name type r = elim (lookup name r.domains) [
    | none ↦ none
    | some i ↦ elim (get_elem? r.objects i) [
      | none ↦ none
      | some d ↦ if le type d.element_type then some (i, d) else none
    ]
  ]

-- What operations on a domain that throw leave behind.
module _ {T V : Type 0} (order : TypeOrder T V) ⦃e : Eq V⦄ where
  -- The type of an element after `set_type` or `ensure_type`.
  unfoldable pub type_after : T → T → T
  type_after t type = if order.is_defined type then type else t

  -- The elements after the loop of `add_elements`.
  unfoldable pub emplaced : T → List V → List V → List V
  emplaced element_type [] xs = xs
  emplaced element_type (v ∷ vs) xs =
      if order.ge_value element_type v then emplaced element_type vs (emplace v xs) else xs

  unfoldable pub domain_after : Domain T V → Domain T V → Domain T V
  domain_after input d = elim d.elements [
    | v ∷ vs ↦ d
    | [] ↦ elim (ensure_type order input.type d.type) [
      | err x ↦ record d { type = type_after input.type d.type }
      | ok new ↦ record d { type = new; elements = emplaced d.element_type input.elements [] }
    ]
  ]

-- `as_type` is a domain as a type.
module _ {T V : Type 0} (order : TypeOrder T V) ⦃e : Eq V⦄ (le : T → T → Bool) (undefined : T)
    (as_type : String → Domain T V → T) where
  unfoldable pub declare_domain : String → T → Registry T V → Result (Unit {0}) × Registry T V
  declare_domain name elem_type r = elim (lookup_domain le name elem_type r) [
    | none ↦ register_domain name (new_domain undefined elem_type) r
    | some (i, d) ↦ if le (as_type name d) elem_type then (ok tt, r) else (err type_error, r)
  ]

  -- A domain that exists is changed in place.
  unfoldable pub redefine :
      ℕ → T → Domain T V → Domain T V → Registry T V → Result (Unit {0}) × Registry T V
  redefine i t input d r =
      let d' = record d { type = type_after order t d.type } in
      elim (set_type order d.type t) [
        | err x ↦ (err x, record r { objects = set r.objects i d' })
        | ok type ↦ elim (define order input (record d { type = type })) [
          | err x ↦ (err x, record r { objects = set r.objects i (domain_after order input d') })
          | ok d'' ↦ (ok tt, record r { objects = set r.objects i d'' })
        ]
      ]

  unfoldable pub define_domain :
      String → T → Domain T V → Registry T V → Result (Unit {0}) × Registry T V
  define_domain name t input r = elim (lookup_domain le name t r) [
    | some (i, d) ↦ redefine i t input d r
    | none ↦ elim (add_elements order input (new_domain undefined input.element_type)) [
      | err x ↦ (err x, r)
      | ok d ↦ register_domain name d r
    ]
  ]
