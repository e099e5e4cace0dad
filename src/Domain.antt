-- ===== src/Domain.antt =====
-- Domains (src/model/domain.cpp): sets of values with an element type, and the type of a language
-- element, which they check (src/model/language.cpp).
pub mod Laws
pub mod Tests
use gologpp.Prelude.{Bool, true, false, ◌||◌, List, [], ◌∷◌, ◌++◌, Eq, ◌==◌, if◌then◌else◌}
use gologpp.Error.{Result, ok, err, type_error, redefinition_error, ◌>>=◌}

-- What types give: whether one is not the undefined type, `>=` on types, and `>=` of a type and a
-- value.
pub record TypeOrder (T V : Type 0) : Type 0 where
  pub is_defined : T → Bool
  pub ge : T → T → Bool
  pub ge_value : T → V → Bool

pub record Domain (T V : Type 0) : Type 0 where
  pub type : T
  pub element_type : T
  pub elements : List V
  pub implicit : Bool

module _ {V : Type 0} ⦃e : Eq V⦄ where
  unfoldable pub contains : V → List V → Bool
  contains v [] = false
  contains v (x ∷ xs) = x == v || contains v xs

  -- ElementSet::emplace
  unfoldable pub emplace : V → List V → List V
  unfolding contains
  emplace v xs = if contains v xs then xs else xs ++ v ∷ []

  -- ElementSet::erase
  unfoldable pub erase_element : V → List V → List V
  erase_element v [] = []
  erase_element v (x ∷ xs) = if x == v then erase_element v xs else x ∷ erase_element v xs

  -- The loop of `remove`.
  unfoldable pub erase_all : List V → List V → List V
  unfolding erase_element
  erase_all [] xs = xs
  erase_all (v ∷ vs) xs = erase_all vs (erase_element v xs)

module _ {T V : Type 0} (order : TypeOrder T V) where
  -- AbstractLanguageElement::set_type and ensure_type, on the type of the element. What
  -- `ensure_type` compares is the type with itself.
  unfoldable pub set_type : T → T → Result T
  set_type t type =
      let new = if order.is_defined type then type else t in
      if order.ge new t then ok new else err type_error

  unfoldable pub ensure_type : T → T → Result T
  ensure_type t type =
      let new = if order.is_defined type then type else t in
      if order.ge new new then ok new else err type_error

module _ {T V : Type 0} (order : TypeOrder T V) ⦃e : Eq V⦄ where
  -- The loop of `add_elements`, over the elements to add.
  unfoldable pub emplace_all : T → List V → List V → Result (List V)
  unfolding emplace
  emplace_all element_type [] xs = ok xs
  emplace_all element_type (v ∷ vs) xs =
      if order.ge_value element_type v
      then emplace_all element_type vs (emplace v xs)
      else err type_error

  -- Domain::add_elements(const Domain &)
  unfoldable pub add_elements : Domain T V → Domain T V → Result (Domain T V)
  unfolding ensure_type emplace_all
  add_elements other d = do
    new ← ensure_type order other.type d.type
    xs ← emplace_all d.element_type other.elements d.elements
    ok (record d { type = new; elements = xs })

  -- The copy constructor; `undefined` is the type of a new element.
  unfoldable pub copy : T → Domain T V → Result (Domain T V)
  unfolding add_elements
  copy undefined other = add_elements other (record {
    type = undefined;
    element_type = other.element_type;
    elements = [];
    implicit = other.implicit;
  })

  unfoldable pub remove : Domain T V → Domain T V → Result (Domain T V)
  unfolding ensure_type erase_all
  remove other d = do
    new ← ensure_type order other.type d.type
    ok (record d { type = new; elements = erase_all other.elements d.elements })

  unfoldable pub define : Domain T V → Domain T V → Result (Domain T V)
  unfolding add_elements
  define other d = elim d.elements [ [] ↦ add_elements other d | v ∷ vs ↦ err redefinition_error ]

  unfoldable pub domain_union : T → Domain T V → Domain T V → Result (Domain T V)
  unfolding copy add_elements
  domain_union undefined lhs rhs = do rv ← copy undefined lhs; add_elements rhs rv

  unfoldable pub domain_difference : T → Domain T V → Domain T V → Result (Domain T V)
  unfolding copy remove
  domain_difference undefined lhs rhs = do rv ← copy undefined lhs; remove rhs rv

  unfoldable pub domain_intersection : T → Domain T V → Domain T V → Result (Domain T V)
  unfolding copy remove domain_difference
  domain_intersection undefined lhs rhs = do
    rv ← copy undefined lhs
    left ← domain_difference undefined lhs rhs
    rv ← remove left rv
    right ← domain_difference undefined rhs lhs
    remove right rv
