-- ===== src/References/Construction.antt =====
-- What the constructors of references accept, and what they bind (src/model/reference.h).
use gologpp.Prelude.{
  ℕ, suc, ◌≡◌, ◌≢◌, ◌↔◌, refl, sym, ap, ◌∙◌, Bool, true, false, ◌||◌, some, List, [], ◌∷◌, length,
  get_elem?, lookup, eqb_iff, nat_eq, All, if◌then◌else◌, arith,
}
use gologpp.Error.{Error, user_error, Result, ok, err, bug, bind-ok}
use gologpp.Types.{ValueType}
use gologpp.References.{
  Parameter, Target, Expression, Arguments, argument, pack, size, arg_type, symbol_for_string, bind,
  get, Reference, check_args, is_consistent, consistent, ensure_consistent, bind_args, from_args,
  get_all, from_binding,
}
use gologpp.References.Bindings.{
  made, AreDistinct, get-missing, get_all-bind_args, get_all-at, get_elem?-bind_args,
  bind_args-others, size-pack, All-IsFresh,
}

module _ {E S : Type 0} (type_of : E → ValueType S)
    (suits : ValueType S → Expression E S → Result Bool) where
  -- An argument that passes for a parameter: it suits the type, or is a symbol for a string, and a
  -- reference is consistent itself.
  abbrev pub Passes : Parameter S → Expression E S → Type 0
  Passes p e =
      (t : ValueType S) × (arg_type type_of e ≡ ok t)
      × (b : Bool) × (suits p.type e ≡ ok b)
      × ((b || symbol_for_string t p.type) ≡ true)
      × (is_consistent type_of suits e ≡ ok true)

  -- There is an argument that passes for every parameter; there may be more.
  abbrev pub ArePassed : List (Parameter S) → List (Expression E S) → Type 0
  ArePassed [] es = Unit
  ArePassed (p ∷ ps) [] = ⊥
  ArePassed (p ∷ ps) (e ∷ es) = Passes p e × ArePassed ps es

  Passes-check_args :
      (p : Parameter S) (ps : List (Parameter S)) (e : Expression E S) (es : Arguments E S)
      → check_args type_of suits ps es ≡ ok true
      → Passes p e
      → check_args type_of suits (p ∷ ps) (argument e es) ≡ ok true
  unfolding check_args
  Passes-check_args p ps e es rest (t, is_t, b, is_b, good, fine) = rw (is_t, is_b, good, fine) rest

  if_true :
      (b : Bool) (r : Result Bool)
      → (if b then r else ok false) ≡ ok true
      → (b ≡ true) × (r ≡ ok true)
  if_true b r h = ground arith

  check_args-Passes :
      (p : Parameter S) (ps : List (Parameter S)) (e : Expression E S) (es : Arguments E S)
      → check_args type_of suits (p ∷ ps) (argument e es) ≡ ok true
      → Passes p e × (check_args type_of suits ps es ≡ ok true)
  unfolding check_args
  check_args-Passes p ps e es h =
      let (t, is_t, h1) = bind-ok (arg_type type_of e) _ true h in
      let (b, is_b, h2) = bind-ok (suits p.type e) _ true h1 in
      let (good, h3) = if_true (b || symbol_for_string t p.type) _ h2 in
      let (fine, is_fine, h4) = bind-ok (is_consistent type_of suits e) _ true h3 in
      let (same, rest) = if_true fine _ h4 in ((t, is_t, b, is_b, good, is_fine ∙ ap ok same), rest)

  bind_args-passed :
      (ps : List (Parameter S)) (es : List (Expression E S)) (m : List (ℕ × Expression E S))
      → ArePassed ps es
      → (length (bind_args ps es m).0 ≡ length ps)
        × (check_args type_of suits ps (pack (bind_args ps es m).0) ≡ ok true)
  unfolding bind_args pack check_args
  bind_args-passed [] es m passed = (refl, refl)
  bind_args-passed (p ∷ ps) [] m passed = elim passed [ ]
  bind_args-passed (p ∷ ps) (e ∷ es) m (passes, passed) =
      let (n, rest) = bind_args-passed ps es (bind p.address e m) passed in
      (
        ap suc n,
        Passes-check_args p ps e (pack (bind_args ps es (bind p.address e m)).0) rest passes,
      )

  passed-bind_args :
      (ps : List (Parameter S)) (es : List (Expression E S)) (m : List (ℕ × Expression E S))
      → length (bind_args ps es m).0 ≡ length ps
      → check_args type_of suits ps (pack (bind_args ps es m).0) ≡ ok true
      → ArePassed ps es
  unfolding bind_args pack
  passed-bind_args [] es m n h = tt
  passed-bind_args (p ∷ ps) [] m n h = cc
  passed-bind_args (p ∷ ps) (e ∷ es) m n h =
      let (passes, rest) =
        check_args-Passes p ps e (pack (bind_args ps es (bind p.address e m)).0) h in
      (passes, passed-bind_args ps es (bind p.address e m) (omega arith) rest)

  if_ok :
      (b : Bool) (r r' : Reference E S) (x : Error)
      → (if b then ok r else err x) ≡ ok r'
      → (b ≡ true) × (r ≡ r')
  if_ok b r r' x h = ground arith

  pub ensure_consistent-ok :
      (r r' : Reference E S)
      → ensure_consistent type_of suits r ≡ ok r'
      → (consistent type_of suits r ≡ ok true) × (r ≡ r')
  unfolding ensure_consistent
  ensure_consistent-ok r r' h =
      let (fine, is_fine, h') = bind-ok (consistent type_of suits r) _ r' h in
      let (same, made) = if_ok fine r r' user_error h' in (is_fine ∙ ap ok same, made)

  ok-ensure_consistent :
      (r : Reference E S)
      → consistent type_of suits r ≡ ok true
      → ensure_consistent type_of suits r ≡ ok r
  unfolding ensure_consistent
  ok-ensure_consistent r h = rw h refl

  consistent_lem :
      (t : Target S) (es : List (Expression E S)) (m : List (ℕ × Expression E S))
      → (consistent type_of suits (record { target = some t; args = es; binding = m }) ≡ ok true)
        ↔ ((length es ≡ length t.params) × (check_args type_of suits t.params (pack es) ≡ ok true))
  unfolding consistent is_consistent
  consistent_lem t es m = ground (arith, size-pack es, eqb_iff (size (pack es)) (length t.params))

  -- A reference to a target is constructed exactly from arguments of which the first ones pass for
  -- its parameters; those beyond the parameters are dropped, whatever they are.
  pub from_args_lem :
      (t : Target S) (es : List (Expression E S)) (r : Reference E S)
      → (from_args type_of suits (some t) es ≡ ok r) ↔ (ArePassed t.params es × (r ≡ made t es))
  unfolding from_args
  from_args_lem t es r = (
    (λ h.
        let (fine, same) = ensure_consistent-ok (made t es) r h in
        let (n, checked) = (consistent_lem t (made t es).args (made t es).binding).0 fine in
        (passed-bind_args t.params es [] n checked, sym same)),
    λ (passed, same). rw same (
        ok-ensure_consistent (made t es) (
          (consistent_lem t (made t es).args (made t es).binding).1
            (bind_args-passed t.params es [] passed))),
  )

  made-get_all :
      (t : Target S) (es : List (Expression E S)) (r : Reference E S)
      → from_args type_of suits (some t) es ≡ ok r
      → AreDistinct t.params
      → get_all t.params (made t es).binding ≡ ok (made t es).args
  made-get_all t es r h d =
      let (passed, same) = (from_args_lem t es r).0 h in
      get_all-bind_args t.params es [] d (All-IsFresh E t.params)
        (bind_args-passed t.params es [] passed).0

  -- The binding of a constructed reference is the map from the parameters to the arguments, by
  -- position, and has no other variable, if the parameters are different variables.
  pub from_args-get :
      (t : Target S) (es : List (Expression E S)) (r : Reference E S) (i : ℕ) (p : Parameter S)
      (j : ℕ)
      → from_args type_of suits (some t) es ≡ ok r
      → AreDistinct t.params
      → get_elem? t.params i ≡ some p
      → All (λ q. q.address ≢ j) t.params
      → ((e : Expression E S) × (get_elem? es i ≡ some e)
          × (get_elem? r.args i ≡ some e)
          × (get p.address r.binding ≡ ok e))
        × (get j r.binding ≡ err bug)
  unfolding lookup
  from_args-get t es r i p j h d at out =
      let (passed, same) = (from_args_lem t es r).0 h in
      let (e, there, found) =
        get_all-at t.params (made t es).binding (made t es).args i p (made-get_all t es r h d) at in
      rw same (
        (e, get_elem?-bind_args t.params es [] i e there, there, found),
        get-missing j (made t es).binding (bind_args-others t.params es [] j out refl),
      )

  -- The constructor from a binding, given the binding of a reference that was constructed from
  -- arguments, makes the same reference, if the parameters are different variables.
  pub from_binding-from_args :
      (t : Target S) (es : List (Expression E S)) (r : Reference E S)
      → from_args type_of suits (some t) es ≡ ok r
      → AreDistinct t.params
      → from_binding type_of suits (some t) r.binding ≡ ok r
  unfolding from_binding
  from_binding-from_args t es r h d =
      let (passed, same) = (from_args_lem t es r).0 h in
      rw (same, made-get_all t es r h d)
        (ok-ensure_consistent (made t es) (
          (consistent_lem t (made t es).args (made t es).binding).1
            (bind_args-passed t.params es [] passed)))
