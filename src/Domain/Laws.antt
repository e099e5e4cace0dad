-- ===== src/Domain/Laws.antt =====
-- The elements of domains after the operations on them (src/model/domain.cpp).
use gologpp.Prelude.{
  ◌≡◌, refl, sym, ap, ◌∙◌, inl, inr, true, not, ◌&&◌, ◌||◌, List, [], ◌∷◌, ◌++◌, Eq, ◌==◌,
  if◌then◌else◌, Bool-cases, arith, All,
}
use gologpp.Error.{ok, bind-ok, ok_inj}
use gologpp.Domain.{
  TypeOrder, Domain, contains, emplace, erase_element, erase_all, ensure_type, emplace_all,
  add_elements, copy, remove, domain_union, domain_difference, domain_intersection,
}

module _ {V : Type 0} ⦃e : Eq V⦄ where
  contains-append : (v x : V) (xs : List V) → contains v (xs ++ x ∷ []) ≡ (contains v xs || x == v)
  unfolding contains
  contains-append v x [] = ground arith
  contains-append v x (y ∷ xs) = ground (arith, contains-append v x xs)

  contains-cong : (v x : V) (xs : List V) → (x == v) ≡ true → contains v xs ≡ contains x xs
  contains-cong v x xs h = ap (λ y. contains y xs) (sym ((e.beq_iff x v).0 h))

  contains-emplace : (v x : V) (xs : List V) → contains v (emplace x xs) ≡ (contains v xs || x == v)
  unfolding emplace
  contains-emplace v x xs = elim (Bool-cases (contains x xs)) [
    | inl y ↦ elim (Bool-cases (x == v)) [
      | inl same ↦ ground (arith, y, same, contains-cong v x xs same)
      | inr ne ↦ ground (arith, y, ne)
    ]
    | inr n ↦ rw n (contains-append v x xs)
  ]

  contains-erase_element :
      (v x : V) (xs : List V) → contains v (erase_element x xs) ≡ (contains v xs && not (x == v))
  unfolding contains erase_element
  contains-erase_element v x [] = refl
  contains-erase_element v x (y ∷ xs) =
      ground (arith, contains-erase_element v x xs, e.beq_iff y x, e.beq_iff y v, e.beq_iff x v)

  contains-erase_all :
      (v : V) (vs xs : List V)
      → contains v (erase_all vs xs) ≡ (contains v xs && not (contains v vs))
  unfolding contains erase_all
  contains-erase_all v [] xs = ground arith
  contains-erase_all v (x ∷ vs) xs =
      ground (arith, contains-erase_all v vs (erase_element x xs), contains-erase_element v x xs)

module _ {T V : Type 0} (order : TypeOrder T V) ⦃e : Eq V⦄ where
  contains-emplace_all :
      (t : T) (v : V) (vs xs ys : List V)
      → emplace_all order t vs xs ≡ ok ys
      → contains v ys ≡ (contains v xs || contains v vs)
  unfolding emplace_all contains
  contains-emplace_all t v [] xs ys h = ap (contains v) (sym (ok_inj _ ys h)) ∙ ground arith
  contains-emplace_all t v (x ∷ vs) xs ys h =
      let h' : emplace_all order t vs (emplace x xs) ≡ ok ys = ground arith in
      contains-emplace_all t v vs (emplace x xs) ys h' ∙ ground (arith, contains-emplace v x xs)

  pub contains-add_elements :
      (v : V) (other d d' : Domain T V)
      → add_elements order other d ≡ ok d'
      → contains v d'.elements ≡ (contains v d.elements || contains v other.elements)
  unfolding add_elements
  contains-add_elements v other d d' h =
      let (new, _, h1) = bind-ok (ensure_type order other.type d.type) _ d' h in
      let (xs, ex, h2) =
        bind-ok (emplace_all order d.element_type other.elements d.elements) _ d' h1 in
      ap (λ x. contains v x.elements) (sym (ok_inj _ d' h2))
      ∙ contains-emplace_all d.element_type v other.elements d.elements xs ex

  contains-copy :
      (v : V) (u : T) (other d : Domain T V)
      → copy order u other ≡ ok d
      → contains v d.elements ≡ contains v other.elements
  unfolding copy contains
  contains-copy v u other d h =
      contains-add_elements v other
        (record {
          type = u;
          element_type = other.element_type;
          elements = [];
          implicit = other.implicit;
        })
        d h

  contains-remove :
      (v : V) (other d d' : Domain T V)
      → remove order other d ≡ ok d'
      → contains v d'.elements ≡ (contains v d.elements && not (contains v other.elements))
  unfolding remove
  contains-remove v other d d' h =
      let (new, _, h1) = bind-ok (ensure_type order other.type d.type) _ d' h in
      ap (λ x. contains v x.elements) (sym (ok_inj _ d' h1))
      ∙ contains-erase_all v other.elements d.elements

  -- The union has the elements of both domains and no other.
  pub contains-domain_union :
      (v : V) (u : T) (lhs rhs d : Domain T V)
      → domain_union order u lhs rhs ≡ ok d
      → contains v d.elements ≡ (contains v lhs.elements || contains v rhs.elements)
  unfolding domain_union
  contains-domain_union v u lhs rhs d h =
      let (rv, er, h1) = bind-ok (copy order u lhs) _ d h in
      contains-add_elements v rhs rv d h1
      ∙ ap (λ b. b || contains v rhs.elements) (contains-copy v u lhs rv er)

  -- The difference has the elements of the first domain that are not in the second.
  pub contains-domain_difference :
      (v : V) (u : T) (lhs rhs d : Domain T V)
      → domain_difference order u lhs rhs ≡ ok d
      → contains v d.elements ≡ (contains v lhs.elements && not (contains v rhs.elements))
  unfolding domain_difference
  contains-domain_difference v u lhs rhs d h =
      let (rv, er, h1) = bind-ok (copy order u lhs) _ d h in
      contains-remove v rhs rv d h1
      ∙ ap (λ b. b && not (contains v rhs.elements)) (contains-copy v u lhs rv er)

  -- The intersection, which is computed by two differences, has the elements that are in both.
  pub contains-domain_intersection :
      (v : V) (u : T) (lhs rhs d : Domain T V)
      → domain_intersection order u lhs rhs ≡ ok d
      → contains v d.elements ≡ (contains v lhs.elements && contains v rhs.elements)
  unfolding domain_intersection
  contains-domain_intersection v u lhs rhs d h =
      let (rv, er, h1) = bind-ok (copy order u lhs) _ d h in
      let (left, el, h2) = bind-ok (domain_difference order u lhs rhs) _ d h1 in
      let (rv', er', h3) = bind-ok (remove order left rv) _ d h2 in
      let (right, eq, h4) = bind-ok (domain_difference order u rhs lhs) _ d h3 in
      ground (
        arith,
        contains-copy v u lhs rv er,
        contains-domain_difference v u lhs rhs left el,
        contains-remove v left rv rv' er',
        contains-domain_difference v u rhs lhs right eq,
        contains-remove v right rv' d h4,
      )

module _ {T V : Type 0} (order : TypeOrder T V) where
  -- `ensure_type` accepts every type, where `>=` is reflexive: what it compares is the type with
  -- itself. A type that is defined stays, whatever is asked for.
  pub ensure_type_lem :
      ((t : T) → order.ge t t ≡ true)
      → (t type : T) → ensure_type order t type ≡ ok (if order.is_defined type then type else t)
  unfolding ensure_type
  ensure_type_lem r t type = rw (r (if order.is_defined type then type else t)) refl

module _ {T V : Type 0} (order : TypeOrder T V) ⦃e : Eq V⦄ where
  -- Every element suits the element type.
  abbrev pub Suits : T → List V → Type 0
  Suits t vs = All (λ v. order.ge_value t v ≡ true) vs

  emplace_all-Suits :
      (t : T) (vs xs : List V) → Suits t vs → (ys : List V) × (emplace_all order t vs xs ≡ ok ys)
  unfolding emplace_all
  emplace_all-Suits t [] xs s = (xs, refl)
  emplace_all-Suits t (v ∷ vs) xs s = rw s.0 (emplace_all-Suits t vs (emplace v xs) s.1)

  add_elements-Suits :
      (other d : Domain T V)
      → ((t : T) → order.ge t t ≡ true)
      → Suits d.element_type other.elements
      → (x : Domain T V) × (add_elements order other d ≡ ok x) × (x.element_type ≡ d.element_type)
  unfolding add_elements
  add_elements-Suits other d r s =
      let (ys, ey) = emplace_all-Suits d.element_type other.elements d.elements s in
      let x : Domain T V = record d {
        type = if order.is_defined d.type then d.type else other.type;
        elements = ys;
      } in
      (x, rw (ensure_type_lem order r other.type d.type, ey) refl, refl)

  copy-Suits :
      (u : T) (other : Domain T V)
      → ((t : T) → order.ge t t ≡ true)
      → Suits other.element_type other.elements
      → (x : Domain T V) × (copy order u other ≡ ok x) × (x.element_type ≡ other.element_type)
  unfolding copy
  copy-Suits u other r s =
      add_elements-Suits other
        (record {
          type = u;
          element_type = other.element_type;
          elements = [];
          implicit = other.implicit;
        })
        r s

  union-steps :
      (u : T) (lhs rhs rv d : Domain T V)
      → copy order u lhs ≡ ok rv
      → add_elements order rhs rv ≡ ok d
      → domain_union order u lhs rhs ≡ ok d
  unfolding domain_union
  union-steps u lhs rhs rv d er ed = rw er ed

  -- The union of two domains exists, if the elements of both suit the first one's element type and
  -- `>=` is reflexive; the types of the domains are not compared.
  pub domain_union-Suits :
      (u : T) (lhs rhs : Domain T V)
      → ((t : T) → order.ge t t ≡ true)
      → Suits lhs.element_type lhs.elements
      → Suits lhs.element_type rhs.elements
      → (d : Domain T V) × (domain_union order u lhs rhs ≡ ok d)
        × ((v : V) → contains v d.elements ≡ (contains v lhs.elements || contains v rhs.elements))
  domain_union-Suits u lhs rhs r sl sr =
      let (rv, er, et) = copy-Suits u lhs r sl in
      let (d, ed, _) = add_elements-Suits rhs rv r (rw et sr) in
      let ok_d = union-steps u lhs rhs rv d er ed in
      (d, ok_d, λ v. contains-domain_union order v u lhs rhs d ok_d)
