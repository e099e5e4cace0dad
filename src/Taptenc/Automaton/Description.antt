-- ===== src/Taptenc/Automaton/Description.antt =====
-- What the automaton of a component is, written out (src/semantics/platform/taptenc).
use Prim.Native.String.{◌++◌ as push_str}
use gologpp.Prelude.{
  String, ◌≡◌, ◌↔◌, ◌⊎◌, refl, sym, ap, ◌∙◌, inl, inr, true, Bool-cases, Option, none, some, List,
  [], ◌∷◌, map, ◌==◌, text_eq,
}
use gologpp.Error.{Result, ok, bind-ok, ok_inj}
use gologpp.Platform.Component.{EdgeKind, ordinary, exogenous}
use gologpp.Taptenc.Constraint.{or, and}
use gologpp.Taptenc.Automaton.{
  ClockFormula, clock_bound, operation, negation, ClockedState, ClockedEdge, ClockedComponent,
  AutomatonState, AutomatonTransition, Automaton, Constraints, qualified_name, action_of,
  compile_all, compile_formula, compile_optional, compile_state, compile_transition,
  compile_component,
}

kind-cases : (k : EdgeKind) → (k ≡ ordinary) ⊎ (k ≡ exogenous)
kind-cases ordinary = inl refl
kind-cases exogenous = inr refl

module _ {A B : Type 0} where
  -- The lists have the same length, and their elements are related one by one.
  abbrev pub Pointwise : (A → B → Type 0) → List A → List B → Type 0
  Pointwise r [] [] = Unit
  Pointwise r [] (y ∷ ys) = ⊥
  Pointwise r (x ∷ xs) [] = ⊥
  Pointwise r (x ∷ xs) (y ∷ ys) = r x y × Pointwise r xs ys

  compile_all-Pointwise :
      (f : A → Result B) (r : A → B → Type 0)
      → ((a : A) (b : B) → (f a ≡ ok b) ↔ r a b)
      → (xs : List A) (ys : List B) → (compile_all f xs ≡ ok ys) ↔ Pointwise r xs ys
  unfolding compile_all
  compile_all-Pointwise f r k [] [] = ((λ h. tt), λ h. refl)
  compile_all-Pointwise f r k [] (y ∷ ys) = ((λ h. cc), λ h. absurd h)
  compile_all-Pointwise f r k (x ∷ xs) [] = (
    (λ h.
        let (b, e, h1) = bind-ok (f x) _ [] h in
        let (bs, es, h2) = bind-ok (compile_all f xs) _ [] h1 in cc),
    λ p. absurd p,
  )
  compile_all-Pointwise f r k (x ∷ xs) (y ∷ ys) = (
    (λ h.
        let (b, e, h1) = bind-ok (f x) _ (y ∷ ys) h in
        let (bs, es, h2) = bind-ok (compile_all f xs) _ (y ∷ ys) h1 in
        let same = ok_inj (b ∷ bs) (y ∷ ys) h2 in
        let e' : b ≡ y = cc in
        let es' : bs ≡ ys = cc in
        ((k x y).0 (e ∙ ap ok e'), (compile_all-Pointwise f r k xs ys).0 (es ∙ ap ok es'))),
    λ (p, ps). rw ((k x y).1 p, (compile_all-Pointwise f r k xs ys).1 ps) refl,
  )

module _ {V X : Type 0} (t : Constraints V X) where
  -- The constraint of a formula is the conjunction of the bounds, all of which fit, on the clocks of
  -- the component. A clock's name is the component's, the letter G, and its own.
  abbrev pub Expresses : String → ClockFormula V → X → Type 0
  Expresses component (clock_bound clock op bound) x =
      (t.fits bound ≡ true) × (x ≡ t.comparison (push_str component (push_str "G" clock)) op bound)
  Expresses component (operation l and r) x =
      (y : X) × (z : X) × Expresses component l y
      × Expresses component r z
      × (x ≡ t.conjunction y z)
  Expresses component (operation l or r) x = ⊥
  Expresses component (negation s) x = ⊥

  abbrev pub ExpressesOptional : String → Option (ClockFormula V) → X → Type 0
  ExpressesOptional component none x = x ≡ t.true_cc
  ExpressesOptional component (some f) x = Expresses component f x

  abbrev pub IsStateOf : ClockedComponent V → ClockedState V → AutomatonState X → Type 0
  IsStateOf c s x =
      (x.id ≡ push_str c.name (push_str "G" s.name))
      × ExpressesOptional c.name s.clock_formula x.invariant
      × (x.initial ≡ (c.current_state == s.name))

  -- Only ordinary transitions have an action of their own.
  pub data IsActionOf (c : ClockedComponent V) (e : ClockedEdge V) (action : String) : Type 0 where
    own :
        e.kind ≡ ordinary
        → action ≡ push_str c.name (push_str "G" (push_str e.source (push_str "T" e.target)))
        → IsActionOf c e action
    no_op : e.kind ≡ exogenous → action ≡ "no_op" → IsActionOf c e action

  abbrev pub IsTransitionOf : ClockedComponent V → ClockedEdge V → AutomatonTransition X → Type 0
  IsTransitionOf c e x =
      (x.source_id ≡ push_str c.name (push_str "G" e.source))
      × (x.dest_id ≡ push_str c.name (push_str "G" e.target))
      × IsActionOf c e x.action
      × ExpressesOptional c.name e.clock_formula x.guard
      × (x.update ≡ map (λ r. push_str c.name (push_str "G" r)) e.resets)

  abbrev pub IsCompiled : ClockedComponent V → Automaton X → Type 0
  IsCompiled c a =
      Pointwise (IsStateOf c) c.states a.states
      × Pointwise (IsTransitionOf c) c.transitions a.transitions
      × (a.prefix ≡ c.name)
      × (a.clocks ≡ t.global_clock ∷ map (λ r. push_str c.name (push_str "G" r)) c.clocks)

  compile_formula-Expresses :
      (component : String) (f : ClockFormula V) (x : X)
      → (compile_formula t component f ≡ ok x) ↔ Expresses component f x
  unfolding compile_formula qualified_name
  compile_formula-Expresses component (clock_bound clock op v) x = (
    (λ h. elim (Bool-cases (t.fits v)) [
      | inl y ↦ (y, sym (ok_inj _ x (rw y at h)))
      | inr n ↦ cc (rw n at h)
    ]),
    λ (y, e). rw (y) (ap ok (sym e)),
  )
  compile_formula-Expresses component (operation l and r) x = (
    (λ h.
        let (y, el, h1) = bind-ok (compile_formula t component l) _ x h in
        let (z, er, h2) = bind-ok (compile_formula t component r) _ x h1 in
        (
          y,
          z,
          (compile_formula-Expresses component l y).0 el,
          (compile_formula-Expresses component r z).0 er,
          sym (ok_inj _ x h2),
        )),
    λ (y, z, pl, pr, e).
        rw
          (
            (compile_formula-Expresses component l y).1 pl,
            (compile_formula-Expresses component r z).1 pr,
          )
          (ap ok (sym e)),
  )
  compile_formula-Expresses component (operation l or r) x = ((λ h. cc), λ h. absurd h)
  compile_formula-Expresses component (negation s) x = ((λ h. cc), λ h. absurd h)

  compile_optional-Expresses :
      (component : String) (o : Option (ClockFormula V)) (x : X)
      → (compile_optional t component o ≡ ok x) ↔ ExpressesOptional component o x
  unfolding compile_optional
  compile_optional-Expresses component none x = ((λ h. sym (ok_inj _ x h)), λ e. ap ok (sym e))
  compile_optional-Expresses component (some f) x = compile_formula-Expresses component f x

  action_of-IsActionOf :
      (c : ClockedComponent V) (e : ClockedEdge V) (action : String)
      → (action_of c e ≡ action) ↔ IsActionOf c e action
  unfolding action_of
  action_of-IsActionOf c e action = (
    (λ h. elim (kind-cases e.kind) [
      | inl k ↦ own k (sym (rw (k, action_of) at h))
      | inr k ↦ no_op k (sym (rw (k, action_of) at h))
    ]),
    λ a. elim a [ own k h ↦ rw (k, action_of) (sym h) | no_op k h ↦ rw (k, action_of) (sym h) ],
  )

  compile_state-IsStateOf :
      (c : ClockedComponent V) (s : ClockedState V) (x : AutomatonState X)
      → (compile_state t c s ≡ ok x) ↔ IsStateOf c s x
  unfolding compile_state qualified_name
  compile_state-IsStateOf c s x = (
    (λ h.
        let (f, ef, h1) = bind-ok (compile_optional t c.name s.clock_formula) _ x h in
        let e = sym (ok_inj _ x h1) in
        (
          ap (λ y. y.id) e,
          (compile_optional-Expresses c.name s.clock_formula x.invariant).0
              (ef ∙ ap (λ y. ok y.invariant) (sym e)),
          ap (λ y. y.initial) e,
        )),
    λ (e, p, e').
        rw ((compile_optional-Expresses c.name s.clock_formula x.invariant).1 p)
          (λ j. ok (record { id = sym e j; invariant = x.invariant; initial = sym e' j })),
  )

  compile_transition-IsTransitionOf :
      (c : ClockedComponent V) (e : ClockedEdge V) (x : AutomatonTransition X)
      → (compile_transition t c e ≡ ok x) ↔ IsTransitionOf c e x
  unfolding compile_transition qualified_name
  compile_transition-IsTransitionOf c e x = (
    (λ h.
        let (f, ef, h1) = bind-ok (compile_optional t c.name e.clock_formula) _ x h in
        let eq = sym (ok_inj _ x h1) in
        (
          ap (λ y. y.source_id) eq,
          ap (λ y. y.dest_id) eq,
          (action_of-IsActionOf c e x.action).0 (ap (λ y. y.action) (sym eq)),
          (compile_optional-Expresses c.name e.clock_formula x.guard).0
              (ef ∙ ap (λ y. ok y.guard) (sym eq)),
          ap (λ y. y.update) eq,
        )),
    λ (es, et, a, p, er). rw ((compile_optional-Expresses c.name e.clock_formula x.guard).1 p) (λ j.
        ok (record {
          source_id = sym es j;
          dest_id = sym et j;
          action = (action_of-IsActionOf c e x.action).1 a j;
          guard = x.guard;
          update = sym er j;
        })),
  )

  -- A component compiles to exactly the automaton with its states and its transitions, in their order.
  -- The name of a state is the component's, the letter G, and the state's; its invariant is the
  -- constraint of its clock formula, and those with the name of the current state are initial. A
  -- transition has the names of its states, the constraint of its clock formula, the clocks it
  -- resets, and an action of its own if it is not exogenous. The clocks are the global one and those
  -- of the component.
  pub compile_component_lem :
      (c : ClockedComponent V) (a : Automaton X) → (compile_component t c ≡ ok a) ↔ IsCompiled c a
  unfolding compile_component qualified_name
  compile_component_lem c a =
      let states =
        compile_all-Pointwise (compile_state t c) (IsStateOf c) (compile_state-IsStateOf c) c.states
          a.states in
      let edges =
        compile_all-Pointwise (compile_transition t c) (IsTransitionOf c)
          (compile_transition-IsTransitionOf c) c.transitions a.transitions in
      (
        (λ h.
            let (ss, es, h1) = bind-ok (compile_all (compile_state t c) c.states) _ a h in
            let (ts, et, h2) =
              bind-ok (compile_all (compile_transition t c) c.transitions) _ a h1 in
            let e = sym (ok_inj _ a h2) in
            (
              states.0 (es ∙ ap (λ y. ok y.states) (sym e)),
              edges.0 (et ∙ ap (λ y. ok y.transitions) (sym e)),
              ap (λ y. y.prefix) e,
              ap (λ y. y.clocks) e,
            )),
        λ (hs, ht, ep, ec).
            rw (states.1 hs, edges.1 ht)
              (λ j. ok (record {
                states = a.states;
                transitions = a.transitions;
                prefix = sym ep j;
                clocks = sym ec j;
              })),
      )
