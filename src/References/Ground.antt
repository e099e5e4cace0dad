-- ===== src/References/Ground.antt =====
-- What ground_args makes of a reference (src/model/reference.h).
use gologpp.Prelude.{
  ℕ, ◌≡◌, refl, sym, ap, ◌∙◌, Bool, Bool-cases, Option, none, some, some_inj, List, [], ◌∷◌,
  get_elem?, lookup, eqb, eqb_iff, inl, inr, nat_eq, arith,
}
use gologpp.Error.{Result, ok, bind-ok, ok_inj}
use gologpp.Types.{ValueType}
use gologpp.References.{
  Parameter, Target, Expression, plain, bind, get, Reference, evaluate_all, get_all, from_binding,
  ground_args,
}
use gologpp.References.Bindings.{
  lookup-bind_self, lookup-bind_kept, lookup-bind_ne, get-found, found-get, get_all-at,
}
use gologpp.References.Construction.{ensure_consistent-ok}

module _ {E S : Type 0} (evaluate : Expression E S → Result E) where
  evaluate_all-kept :
      (m gb gb' : List (ℕ × Expression E S)) (k : ℕ) (x : Expression E S)
      → evaluate_all evaluate m gb ≡ ok gb'
      → lookup k gb ≡ some x
      → lookup k gb' ≡ some x
  unfolding evaluate_all
  evaluate_all-kept [] gb gb' k x h found = rw (← ok_inj gb gb' h) found
  evaluate_all-kept ((j, e) ∷ m) gb gb' k x h found =
      let (v, is_v, h') = bind-ok (evaluate e) _ gb' h in
      evaluate_all-kept m (bind j (plain v) gb) gb' k x h'
        (lookup-bind_kept k j (plain v) x gb found)

  evaluate_all-value :
      (m gb gb' : List (ℕ × Expression E S)) (k : ℕ) (e : Expression E S)
      → evaluate_all evaluate m gb ≡ ok gb'
      → lookup k gb ≡ none
      → lookup k m ≡ some e
      → (v : E) × (evaluate e ≡ ok v) × (lookup k gb' ≡ some (plain v))
  unfolding evaluate_all lookup
  evaluate_all-value [] gb gb' k e h new found = cc
  evaluate_all-value ((j, x) ∷ m) gb gb' k e h new found =
      let (v, is_v, h') = bind-ok (evaluate x) _ gb' h in
      elim (Bool-cases (eqb j k)) [
        | inl same ↦
            let j≡k = (eqb_iff j k).0 same in
            let x≡e : x ≡ e = some_inj x e (rw same at found) in
            (
              v,
              ap evaluate (sym x≡e) ∙ is_v,
              evaluate_all-kept m (bind j (plain v) gb) gb' k (plain v) h'
                  (rw j≡k (lookup-bind_self k (plain v) gb new)),
            )
        | inr other ↦
            evaluate_all-value m (bind j (plain v) gb) gb' k e h'
              (lookup-bind_ne k j (plain v) gb (λ j≡k. ground (arith, j≡k)) new) (rw other at found)
      ]

module _ {E S : Type 0} (type_of : E → ValueType S)
    (suits : ValueType S → Expression E S → Result Bool) where
  from_binding-ok :
      (target : Option (Target S)) (t : Target S) (m : List (ℕ × Expression E S))
      (r : Reference E S)
      → target ≡ some t
      → from_binding type_of suits target m ≡ ok r
      → (get_all t.params m ≡ ok r.args) × (r.binding ≡ m) × (r.target ≡ some t)
  unfolding from_binding
  from_binding-ok none t m r e h = cc
  from_binding-ok (some u) t m r e h =
      let (es, got, h') = bind-ok (get_all u.params m) _ r h in
      let (fine, same) =
        ensure_consistent-ok type_of suits (record { target = some u; args = es; binding = m }) r
          h' in
      rw (← same, ← some_inj u t e) (got, refl, refl)

  -- A reference that is grounded has the same target, and for each parameter that was bound, the
  -- value of its argument, as the argument in its position and in the binding.
  pub ground_args_lem :
      (evaluate : Expression E S → Result E) (t : Target S) (r r' : Reference E S) (i : ℕ)
      (p : Parameter S) (e : Expression E S)
      → ground_args type_of suits evaluate r ≡ ok r'
      → r.target ≡ some t
      → get_elem? t.params i ≡ some p
      → get p.address r.binding ≡ ok e
      → (r'.target ≡ some t)
        × ((v : E) × (evaluate e ≡ ok v)
            × (get_elem? r'.args i ≡ some (plain v))
            × (get p.address r'.binding ≡ ok (plain v)))
  unfolding ground_args
  ground_args_lem evaluate t r r' i p e h target at found =
      let (gb, values, h') = bind-ok (evaluate_all evaluate r.binding []) _ r' h in
      let (got, binding, target') = from_binding-ok r.target t gb r' target h' in
      let (v, is_v, there) =
        evaluate_all-value evaluate r.binding [] gb p.address e values refl
          (found-get p.address r.binding e found) in
      let (x, is_x, got_x) = get_all-at t.params gb r'.args i p got at in
      let x≡v = ok_inj x (plain v) (sym got_x ∙ get-found p.address gb (plain v) there) in
      (target', (v, is_v, is_x ∙ ap some x≡v, rw binding (get-found p.address gb (plain v) there)))
