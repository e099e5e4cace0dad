-- ===== src/Taptenc/Automaton/Laws.antt =====
-- The components that compile to an automaton (src/semantics/platform/taptenc).
use gologpp.Prelude.{
  String, ◌≡◌, ◌↔◌, refl, true, Option, none, some, List, [], ◌∷◌, map, ◌==◌, text_eq, All, arith,
}
use gologpp.Error.{Result, ok, bind-ok}
use gologpp.Taptenc.Constraint.{or, and}
use gologpp.Taptenc.Automaton.{
  ClockFormula, clock_bound, operation, negation, ClockedState, ClockedEdge, ClockedComponent,
  AutomatonState, AutomatonTransition, Automaton, Constraints, qualified_name, action_of,
  compile_all, compile_formula, compile_optional, compile_state, compile_transition,
  compile_component,
}

module _ {A B : Type 0} where
  compile_all-All :
      (f : A → Result B) (P : A → Type 0)
      → ((a : A) → ((b : B) × (f a ≡ ok b)) ↔ P a)
      → (xs : List A) → ((ys : List B) × (compile_all f xs ≡ ok ys)) ↔ All P xs
  unfolding compile_all
  compile_all-All f P k [] = ((λ r. tt), λ r. ([], refl))
  compile_all-All f P k (a ∷ xs) = (
    (λ (ys, e).
        let (b, eb, e1) = bind-ok (f a) _ ys e in
        let (bs, es, _) = bind-ok (compile_all f xs) _ ys e1 in
        ((k a).0 (b, eb), (compile_all-All f P k xs).0 (bs, es))),
    λ (p, ps).
        let (b, eb) = (k a).1 p in
        let (bs, es) = (compile_all-All f P k xs).1 ps in (b ∷ bs, rw (eb, es) refl),
  )

module _ {V X : Type 0} (t : Constraints V X) where
  -- Conjunctions of bounds that fit.
  abbrev pub IsConjunction : ClockFormula V → Type 0
  IsConjunction (clock_bound c op v) = t.fits v ≡ true
  IsConjunction (operation l and r) = IsConjunction l × IsConjunction r
  IsConjunction (operation l or r) = ⊥
  IsConjunction (negation s) = ⊥

  abbrev pub IsOptional : Option (ClockFormula V) → Type 0
  IsOptional none = Unit
  IsOptional (some f) = IsConjunction f

  pub compile_formula_lem :
      (component : String) (f : ClockFormula V)
      → ((x : X) × (compile_formula t component f ≡ ok x)) ↔ IsConjunction f
  unfolding compile_formula
  compile_formula_lem component (clock_bound c op v) = (
    (λ (x, e). ground (arith, e)),
    λ h. (t.comparison (qualified_name component c) op v, rw h refl),
  )
  compile_formula_lem component (operation l and r) = (
    (λ (x, e).
        let (lhs, el, e1) = bind-ok (compile_formula t component l) _ x e in
        let (rhs, er, _) = bind-ok (compile_formula t component r) _ x e1 in
        (
          (compile_formula_lem component l).0 (lhs, el),
          (compile_formula_lem component r).0 (rhs, er),
        )),
    λ (hl, hr).
        let (lhs, el) = (compile_formula_lem component l).1 hl in
        let (rhs, er) = (compile_formula_lem component r).1 hr in
        (t.conjunction lhs rhs, rw (el, er) refl),
  )
  compile_formula_lem component (operation l or r) = ((λ (x, e). cc), λ h. absurd h)
  compile_formula_lem component (negation s) = ((λ (x, e). cc), λ h. absurd h)

  compile_optional_lem :
      (component : String) (o : Option (ClockFormula V))
      → ((x : X) × (compile_optional t component o ≡ ok x)) ↔ IsOptional o
  unfolding compile_optional
  compile_optional_lem component none = ((λ r. tt), λ r. (t.true_cc, refl))
  compile_optional_lem component (some f) = compile_formula_lem component f

  compile_state_lem :
      (c : ClockedComponent V) (s : ClockedState V)
      → ((x : AutomatonState X) × (compile_state t c s ≡ ok x)) ↔ IsOptional s.clock_formula
  unfolding compile_state
  compile_state_lem c s = (
    (λ (x, e).
        let (f, ef, _) = bind-ok (compile_optional t c.name s.clock_formula) _ x e in
        (compile_optional_lem c.name s.clock_formula).0 (f, ef)),
    λ h.
        let (f, ef) = (compile_optional_lem c.name s.clock_formula).1 h in
        let x : AutomatonState X = record {
          id = qualified_name c.name s.name;
          invariant = f;
          initial = c.current_state == s.name;
        } in
        (x, rw ef refl),
  )

  compile_transition_lem :
      (c : ClockedComponent V) (e : ClockedEdge V)
      → ((x : AutomatonTransition X) × (compile_transition t c e ≡ ok x))
        ↔ IsOptional e.clock_formula
  unfolding compile_transition
  compile_transition_lem c e = (
    (λ (x, h).
        let (f, ef, _) = bind-ok (compile_optional t c.name e.clock_formula) _ x h in
        (compile_optional_lem c.name e.clock_formula).0 (f, ef)),
    λ h.
        let (f, ef) = (compile_optional_lem c.name e.clock_formula).1 h in
        let x : AutomatonTransition X = record {
          source_id = qualified_name c.name e.source;
          dest_id = qualified_name c.name e.target;
          action = action_of c e;
          guard = f;
          update = map (qualified_name c.name) e.resets;
        } in
        (x, rw ef refl),
  )

  -- A component compiles exactly when the clock formulas of its states and transitions are
  -- conjunctions of bounds that fit.
  pub compile_component-accepts :
      (c : ClockedComponent V)
      → ((a : Automaton X) × (compile_component t c ≡ ok a)) ↔ (
          All (λ s. IsOptional s.clock_formula) c.states
          × All (λ e. IsOptional e.clock_formula) c.transitions)
  unfolding compile_component
  compile_component-accepts c =
      let states =
        compile_all-All (compile_state t c) (λ s. IsOptional s.clock_formula) (compile_state_lem c)
          c.states in
      let edges =
        compile_all-All (compile_transition t c) (λ e. IsOptional e.clock_formula)
          (compile_transition_lem c) c.transitions in
      (
        (λ (a, e).
            let (ss, es, e1) = bind-ok (compile_all (compile_state t c) c.states) _ a e in
            let (ts, et, _) = bind-ok (compile_all (compile_transition t c) c.transitions) _ a e1 in
            (states.0 (ss, es), edges.0 (ts, et))),
        λ (hs, ht).
            let (ss, es) = states.1 hs in
            let (ts, et) = edges.1 ht in
            let a : Automaton X = record {
              states = ss;
              transitions = ts;
              prefix = c.name;
              clocks = t.global_clock ∷ map (qualified_name c.name) c.clocks;
            } in
            (a, rw (es, et) refl),
      )
