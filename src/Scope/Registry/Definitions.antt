-- ===== src/Scope/Registry/Definitions.antt =====
-- What declarations and definitions of domains leave behind (src/model/scope.cpp).
use gologpp.Prelude.{
  ℕ, ◌≡◌, refl, sym, ap, ◌∙◌, inl, inr, String, Bool, true, false, Option, none, some, some_inj,
  List, [], ◌∷◌, length, get_elem?, get_elem?-set_self, get_elem?-append_length,
  get_elem?-lt_length, set, lookup, lookup-assign, Eq, text_eq, beq_refl, Bool-cases, Option-cases,
  if◌then◌else◌,
}
use gologpp.Error.{ok, err, redefinition_error, type_error, Result-cases}
use gologpp.Domain.{TypeOrder, Domain, contains, set_type, add_elements, define}
use gologpp.Domain.Laws.{contains-add_elements}
use gologpp.Scope.Registry.{
  domain_at, Registry, exists_domain, register_domain, lookup_domain, new_domain, declare_domain,
  redefine, define_domain,
}
use gologpp.Scope.Registry.Laws.{IsLinked, register_domain_lem, with_domain}

module _ {T V : Type 0} where
  register_domain-with_domain :
      (n : String) (d d' : Domain T V) (r : Registry T V)
      → register_domain n d (with_domain n d' r) ≡ (err redefinition_error, with_domain n d' r)
  unfolding register_domain exists_domain
  register_domain-with_domain n d d' r =
      rw
        (register_domain, exists_domain, lookup-assign n n (length r.objects) r.domains, beq_refl n)
        refl

found_same :
    {A : Type 0} (b : Bool) (i j : ℕ) (x y : A)
    → if◌then◌else◌ {A = Option (ℕ × A)} b (some (i, x)) none ≡ some (j, y)
    → (i ≡ j) × (x ≡ y)
found_same true i j x y h =
    let same = some_inj (i, x) (j, y) h in (ap (λ p. p.0) same, ap (λ p. p.1) same)
found_same false i j x y h = cc

module _ {T V : Type 0} (le : T → T → Bool) where
  lookup_domain-found :
      (n : String) (t : T) (r : Registry T V) (i : ℕ) (d : Domain T V)
      → lookup_domain le n t r ≡ some (i, d)
      → (lookup n r.domains ≡ some i) × (get_elem? r.objects i ≡ some d)
  unfolding lookup_domain
  lookup_domain-found n t r i d h = elim (Option-cases (lookup n r.domains)) [
    | inl gone ↦ cc (rw (gone, lookup_domain) at h)
    | inr (j, here) ↦
        let h1 = rw (here, lookup_domain) at h in
        elim (Option-cases (get_elem? r.objects j)) [
          | inl gone ↦ cc (rw gone at h1)
          | inr (x, there) ↦
              let same = found_same (le t x.element_type) j i x d (rw there at h1) in
              (
                here ∙ ap some same.0,
                ap (get_elem? r.objects) (sym same.0) ∙ there ∙ ap some same.1,
              )
        ]
  ]

  lookup_domain-with_domain :
      (n : String) (t : T) (d : Domain T V) (r : Registry T V)
      → lookup_domain le n t (with_domain n d r)
        ≡ (if le t d.element_type then some (length r.objects, d) else none)
  unfolding lookup_domain
  lookup_domain-with_domain n t d r =
      rw
        (
          lookup_domain,
          lookup-assign n n (length r.objects) r.domains,
          beq_refl n,
          get_elem?-append_length r.objects d,
        )
        refl

module _ {T V : Type 0} (le : T → T → Bool) where
  exists_domain-lookup_domain :
      (n : String) (t : T) (r : Registry T V)
      → exists_domain n r ≡ false
      → lookup_domain le n t r ≡ none
  unfolding exists_domain lookup_domain
  exists_domain-lookup_domain n t r new = elim (Option-cases (lookup n r.domains)) [
    | inl gone ↦ rw (gone, lookup_domain) refl
    | inr (i, there) ↦ cc (rw there at new)
  ]

-- `undefined` is the type of a new element, and `as_type` a domain as a type.
module _ {T V : Type 0} (order : TypeOrder T V) ⦃e : Eq V⦄ (le : T → T → Bool) (undefined : T)
    (as_type : String → Domain T V → T) where
  define-contains :
      (v : V) (input d d' : Domain T V) (xs : List V)
      → d.elements ≡ xs
      → define order input d ≡ ok d'
      → contains v d'.elements ≡ contains v input.elements
  unfolding define contains
  define-contains v input d d' [] none_yet h =
      contains-add_elements order v input d d' (rw (none_yet, define) at h) ∙ rw none_yet refl
  define-contains v input d d' (x ∷ xs) some_there h = cc (rw (some_there, define) at h)

  added_first :
      (n : String) (t : T) (input : Domain T V) (r r' : Registry T V)
      → lookup_domain le n t r ≡ none
      → define_domain order le undefined as_type n t input r ≡ (ok tt, r')
      → (d : Domain T V) × (add_elements order input (new_domain undefined input.element_type)
          ≡ ok d)
        × (register_domain n d r ≡ (ok tt, r'))
  unfolding define_domain
  added_first n t input r r' new h =
      elim (Result-cases (add_elements order input (new_domain undefined input.element_type))) [
        | inr (x, e) ↦ let bad = rw (new, define_domain, e) at h in cc
        | inl (d, e) ↦ (d, e, rw (new, define_domain, e) at h)
      ]

  redefined :
      (i : ℕ) (t : T) (input d : Domain T V) (r r' : Registry T V)
      → redefine order le undefined as_type i t input d r ≡ (ok tt, r')
      → (u : T) × (d' : Domain T V) × (set_type order d.type t ≡ ok u)
        × (define order input (record d { type = u }) ≡ ok d')
        × (record r { objects = set r.objects i d' } ≡ r')
  unfolding redefine
  redefined i t input d r r' h = elim (Result-cases (set_type order d.type t)) [
    | inr (x, e) ↦ let bad = rw (e, redefine) at h in cc
    | inl (u, e) ↦ elim (Result-cases (define order input (record d { type = u }))) [
      | inr (x, e') ↦ let bad = rw (e, redefine, e') at h in cc
      | inl (d', e') ↦ (u, d', e, e', ap (λ x. x.1) (rw (e, redefine, e') at h))
    ]
  ]

  -- A domain that is defined is registered under its name, also as a type, if this held for the
  -- domains before, and its elements are those of the definition.
  pub define_domain_lem :
      (n : String) (t : T) (input : Domain T V) (r r' : Registry T V) (v : V)
      → IsLinked r
      → define_domain order le undefined as_type n t input r ≡ (ok tt, r')
      → (i : ℕ) × (d : Domain T V) × (lookup n r'.domains ≡ some i)
        × (lookup n r'.types ≡ some (domain_at i))
        × (get_elem? r'.objects i ≡ some d)
        × (contains v d.elements ≡ contains v input.elements)
  unfolding define_domain contains
  define_domain_lem n t input r r' v linked h = elim (Option-cases (lookup_domain le n t r)) [
    | inl new ↦
        let (d, added, h') = added_first n t input r r' new h in
        let same = (register_domain_lem n d r r' h').1 in
        rw (← same) (
          length r.objects,
          d,
          lookup-assign n n (length r.objects) r.domains ∙ rw (beq_refl n) refl,
          lookup-assign n n (domain_at (length r.objects)) r.types ∙ rw (beq_refl n) refl,
          get_elem?-append_length r.objects d,
          contains-add_elements order v input (new_domain undefined input.element_type) d added,
        )
    | inr ((i, d), there) ↦
        let (u, d', is_set, is_defined, same) =
          redefined i t input d r r' (rw (there, define_domain) at h) in
        let (at_i, stored) = lookup_domain-found le n t r i d there in
        rw (← same) (
          i,
          d',
          at_i,
          (linked n i at_i).0,
          get_elem?-set_self r.objects i d' (get_elem?-lt_length r.objects i d stored),
          define-contains v input (record d { type = u }) d' d.elements refl is_defined,
        )
  ]

  declare_domain-with_domain :
      (n : String) (t u : T) (r : Registry T V)
      → declare_domain order le undefined as_type n u (with_domain n (new_domain undefined t) r) ≡ (
          if le u t
          then (if le (as_type n (new_domain undefined t)) u
              then (ok tt, with_domain n (new_domain undefined t) r)
              else (err type_error, with_domain n (new_domain undefined t) r))
          else (err redefinition_error, with_domain n (new_domain undefined t) r))
  unfolding declare_domain
  declare_domain-with_domain n t u r = elim (Bool-cases (le u t)) [
    | inl below ↦
        rw (declare_domain, lookup_domain-with_domain le n u (new_domain undefined t) r, below) refl
    | inr other ↦
        rw (declare_domain, lookup_domain-with_domain le n u (new_domain undefined t) r, other)
          (register_domain-with_domain n (new_domain undefined u) (new_domain undefined t) r)
  ]

  -- After a first declaration of a domain that did not throw, a second one with any type changes
  -- nothing. It succeeds if that type is `<=` the first one and the domain is `<=` it, throws a
  -- TypeError if only the former holds, and a RedefinitionError if the former does not.
  pub declare_domain-again :
      (n : String) (t u : T) (r r' : Registry T V)
      → exists_domain n r ≡ false
      → declare_domain order le undefined as_type n t r ≡ (ok tt, r')
      → declare_domain order le undefined as_type n u r' ≡ (
          if le u t
          then (if le (as_type n (new_domain undefined t)) u
              then (ok tt, r')
              else (err type_error, r'))
          else (err redefinition_error, r'))
  unfolding declare_domain
  declare_domain-again n t u r r' new h =
      let added = rw (exists_domain-lookup_domain le n t r new, declare_domain) at h in
      let same = (register_domain_lem n (new_domain undefined t) r r' added).1 in
      rw (← same) (declare_domain-with_domain n t u r)
