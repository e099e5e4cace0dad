-- ===== src/Scope/Registry/Built.antt =====
-- What the operations on types and domains keep, also when they throw (src/model/scope.cpp).
use gologpp.Prelude.{ℕ, inl, inr, String, Bool, [], lookup, Eq, text_eq, Bool-cases, Option-cases}
use gologpp.Error.{Result-cases}
use gologpp.Domain.{TypeOrder, Domain, set_type, add_elements, define}
use gologpp.Scope.Registry.{
  plain, Registry, register_type, lookup_domain, new_domain, domain_after, type_after,
  declare_domain, redefine, define_domain,
}
use gologpp.Scope.Registry.Consistent.{
  IsConsistent, register_domain-IsConsistent, register_type-IsConsistent, set-IsConsistent,
}

-- `undefined` is the type of a new element, and `as_type` a domain as a type.
module _ {T V : Type 0} (order : TypeOrder T V) ⦃e : Eq V⦄ (le : T → T → Bool) (undefined : T)
    (as_type : String → Domain T V → T) where
  -- What is built from types that are no domains, whether or not the operations throw.
  pub data Built : Registry T V → Type 0 where
    empty : Built (record { objects = []; domains = []; types = [] })
    registered :
        (n : String) (t : T) (r : Registry T V) → Built r → Built (register_type n (plain t) r).1
    declared :
        (n : String) (t : T) (r : Registry T V)
        → Built r
        → Built (declare_domain order le undefined as_type n t r).1
    defined :
        (n : String) (t : T) (input : Domain T V) (r : Registry T V)
        → Built r
        → Built (define_domain order le undefined as_type n t input r).1

  declare_domain-IsConsistent :
      (n : String) (t : T) (r : Registry T V)
      → IsConsistent r
      → IsConsistent (declare_domain order le undefined as_type n t r).1
  unfolding declare_domain
  declare_domain-IsConsistent n t r c = elim (Option-cases (lookup_domain le n t r)) [
    | inl new ↦
        rw (new, declare_domain) (register_domain-IsConsistent n (new_domain undefined t) r c)
    | inr ((i, d), there) ↦ elim (Bool-cases (le (as_type n d) t)) [
      | inl below ↦ rw (there, declare_domain, below) c
      | inr other ↦ rw (there, declare_domain, other) c
    ]
  ]

  redefine-IsConsistent :
      (i : ℕ) (t : T) (input d : Domain T V) (r : Registry T V)
      → IsConsistent r
      → IsConsistent (redefine order le undefined as_type i t input d r).1
  unfolding redefine
  redefine-IsConsistent i t input d r c = elim (Result-cases (set_type order d.type t)) [
    | inr (x, h) ↦
        rw (h, redefine) (set-IsConsistent i (record d { type = type_after order t d.type }) r c)
    | inl (type, h) ↦ elim (Result-cases (define order input (record d { type = type }))) [
      | inr (x, h') ↦
          rw (h, redefine, h')
            (set-IsConsistent i
              (domain_after order input (record d { type = type_after order t d.type })) r c)
      | inl (d', h') ↦ rw (h, redefine, h') (set-IsConsistent i d' r c)
    ]
  ]

  define_domain-IsConsistent :
      (n : String) (t : T) (input : Domain T V) (r : Registry T V)
      → IsConsistent r
      → IsConsistent (define_domain order le undefined as_type n t input r).1
  unfolding define_domain
  define_domain-IsConsistent n t input r c = elim (Option-cases (lookup_domain le n t r)) [
    | inl new ↦
        elim (Result-cases (add_elements order input (new_domain undefined input.element_type))) [
          | inr (x, h) ↦ rw (new, define_domain, h) c
          | inl (d, h) ↦ rw (new, define_domain, h) (register_domain-IsConsistent n d r c)
        ]
    | inr ((i, d), there) ↦ rw (there, define_domain) (redefine-IsConsistent i t input d r c)
  ]

  -- However types that are no domains are registered, and domains declared and defined, and whether
  -- or not exceptions are thrown: the address of a domain is that of an object, and there is a type
  -- of its name, which is the domain itself or no domain. A type that is a domain is found as a domain
  -- by its name.
  pub Built-IsConsistent : (r : Registry T V) → Built r → IsConsistent r
  unfolding lookup
  Built-IsConsistent r empty = ((λ k i h. cc), λ k i h. cc)
  Built-IsConsistent r (registered n t r' built) =
      register_type-IsConsistent n t r' (Built-IsConsistent r' built)
  Built-IsConsistent r (declared n t r' built) =
      declare_domain-IsConsistent n t r' (Built-IsConsistent r' built)
  Built-IsConsistent r (defined n t input r' built) =
      define_domain-IsConsistent n t input r' (Built-IsConsistent r' built)
