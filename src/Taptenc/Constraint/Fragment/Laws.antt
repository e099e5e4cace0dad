-- ===== src/Taptenc/Constraint/Fragment/Laws.antt =====
-- The state specs that Semantics<StateSpec>::compile accepts.
use gologpp.Prelude.{String, ◌≡◌, ◌↔◌, refl, sym, ap, ◌∙◌, inl, inr, List, Eq, beq_refl, arith}
use gologpp.Error.{Error, Result, ok, err, unsupported, bind-ok, bind-err}
use gologpp.Taptenc.Constraint.{
  or, and, StateSpec, state_assertion, boolean, temporal_unary, temporal_binary,
}
use gologpp.Taptenc.Constraint.Info.{IcType, no_op, Info}
use gologpp.Taptenc.Constraint.Compile.{compile, binary_type}
use gologpp.Taptenc.Constraint.Fragment.{
  unary_type-IsUnaryKind, binary_type-IsBinaryKind, Fragment, describe, IsStates-Fragment, Accepted,
}
use gologpp.Taptenc.Constraint.Fragment.Describe.{
  ic_type_eq_refl, disjoin-describe, compile_or-describe, compile_unary-describe,
  compile_binary-describe, unary-describe, binary-describe,
}
use gologpp.Taptenc.Constraint.Fragment.Steps.{
  or-Accepted, unary-Accepted, binary-Accepted, or-unsupported, unary-unsupported,
  binary-unsupported,
}

module _ {B G C S T : Type 0} (unbounded : B) (make_bounds : T → T → B)
    (compile_state : S → G) where
  abbrev pub run : {N : Type 0} ⦃e : Eq B⦄ → String → List N → StateSpec C S T → Result (Info B N G)
  run = compile unbounded make_bounds compile_state

  pub compile-Accepted :
      {N : Type 0} ⦃e : Eq B⦄ (id : String) (a : List N) (φ : StateSpec C S T) (i : Info B N G)
      → compile unbounded make_bounds compile_state id a φ ≡ ok i
      → Accepted unbounded make_bounds compile_state id a φ i
  unfolding compile
  compile-Accepted id a (state_assertion c s) i h = (no_op, unbounded, (refl, refl), ground arith)
  compile-Accepted id a (boolean l and r) i h = cc
  compile-Accepted id a (boolean l or r) i h =
      let (tt_lhs, el, h1) = bind-ok (run id a l) _ i h in
      let (tt_rhs, er, h2) = bind-ok (run id a r) _ i h1 in
      or-Accepted unbounded make_bounds compile_state id a l r tt_lhs tt_rhs i
        (compile-Accepted id a l tt_lhs el) (compile-Accepted id a r tt_rhs er) h2
  compile-Accepted id a (temporal_unary op lo hi s) i h =
      let (tt_subj, es, h1) = bind-ok (run id a s) _ i h in
      unary-Accepted unbounded make_bounds compile_state id a op lo hi s tt_subj i
        (compile-Accepted id a s tt_subj es) h1
  compile-Accepted id a (temporal_binary l op lo hi r) i h =
      let (tt_lhs, el, h1) = bind-ok (run id a l) _ i h in
      let (tt_rhs, er, h2) = bind-ok (run id a r) _ i h1 in
      binary-Accepted unbounded make_bounds compile_state id a op lo hi l r tt_lhs tt_rhs i
        (compile-Accepted id a l tt_lhs el) (compile-Accepted id a r tt_rhs er) h2

  pub compile-Fragment :
      {N : Type 0} ⦃e : Eq B⦄ (id : String) (a : List N) (k : IcType) (b : B) (φ : StateSpec C S T)
      → Fragment unbounded make_bounds k b φ
      → compile unbounded make_bounds compile_state id a φ ≡ ok (describe compile_state id a k b φ)
  unfolding compile
  compile-Fragment id a k b (state_assertion c s) h = cc
  compile-Fragment id a k b (boolean l and r) h = absurd h
  compile-Fragment id a k b (boolean l or r) h =
      rw (compile-Fragment id a k b l h.0, compile-Fragment id a k b r h.1)
        (compile_or-describe compile_state id a k k b b l r
          ∙ rw (ic_type_eq_refl k)
              (disjoin-describe compile_state id a k b b l r ∙ rw (beq_refl b)))
  compile-Fragment id a k b (temporal_unary op lo hi s) h =
      rw (compile-Fragment id a no_op unbounded s (IsStates-Fragment unbounded make_bounds s h.0)) (
        compile_unary-describe compile_state id a op no_op unbounded (make_bounds lo hi) s
        ∙ rw ((unary_type-IsUnaryKind op k).1 h.1) (
            ap ok (
              unary-describe compile_state id op k a lo hi (make_bounds lo hi) s
                ((unary_type-IsUnaryKind op k).1 h.1)
              ∙ ap (λ d. describe compile_state id a k d (temporal_unary op lo hi s)) (sym h.2))))
  compile-Fragment id a k b (temporal_binary l op lo hi r) h =
      rw
        (
          compile-Fragment id a no_op unbounded l (IsStates-Fragment unbounded make_bounds l h.0),
          compile-Fragment id a no_op unbounded r (IsStates-Fragment unbounded make_bounds r h.1),
        )
        (compile_binary-describe compile_state id a op no_op no_op unbounded unbounded l r
          ∙ ap ok (
              binary-describe compile_state id op a lo hi unbounded l r
              ∙ ap
                  (λ d.
                    describe compile_state id a (binary_type op) d (temporal_binary l op lo hi r))
                  (sym h.3)
              ∙ ap (λ j. describe compile_state id a j b (temporal_binary l op lo hi r))
                  (sym ((binary_type-IsBinaryKind op k).1 h.2))))

  -- When the compilation of a state spec throws, it throws Unsupported: neither Bug, nor a failed
  -- cast, nor a null pointer.
  pub compile-unsupported :
      {N : Type 0} ⦃e : Eq B⦄ (id : String) (a : List N) (φ : StateSpec C S T) (x : Error)
      → compile unbounded make_bounds compile_state id a φ ≡ err x
      → x ≡ unsupported
  unfolding compile
  compile-unsupported id a (state_assertion c s) x h = cc
  compile-unsupported id a (boolean l and r) x h = cc
  compile-unsupported id a (boolean l or r) x h = elim (bind-err (run id a l) _ x h) [
    | inl el ↦ compile-unsupported id a l x el
    | inr (tt_lhs, el, h1) ↦ elim (bind-err (run id a r) _ x h1) [
      | inl er ↦ compile-unsupported id a r x er
      | inr (tt_rhs, er, h2) ↦
          or-unsupported unbounded make_bounds compile_state id a l r tt_lhs tt_rhs x
            (compile-Accepted id a l tt_lhs el) (compile-Accepted id a r tt_rhs er) h2
    ]
  ]
  compile-unsupported id a (temporal_unary op lo hi s) x h = elim (bind-err (run id a s) _ x h) [
    | inl es ↦ compile-unsupported id a s x es
    | inr (tt_subj, es, h1) ↦
        unary-unsupported unbounded make_bounds compile_state id a op (make_bounds lo hi) s tt_subj
          x (compile-Accepted id a s tt_subj es) h1
  ]
  compile-unsupported id a (temporal_binary l op lo hi r) x h = elim (bind-err (run id a l) _ x h) [
    | inl el ↦ compile-unsupported id a l x el
    | inr (tt_lhs, el, h1) ↦ elim (bind-err (run id a r) _ x h1) [
      | inl er ↦ compile-unsupported id a r x er
      | inr (tt_rhs, er, h2) ↦
          binary-unsupported unbounded make_bounds compile_state id a op l r tt_lhs tt_rhs x
            (compile-Accepted id a l tt_lhs el) (compile-Accepted id a r tt_rhs er) h2
    ]
  ]

  -- A state spec compiles exactly when it is in the fragment, for some operator and bounds, and
  -- the result is then the described one.
  pub compile_lem :
      {N : Type 0} ⦃e : Eq B⦄ (id : String) (a : List N) (φ : StateSpec C S T) (i : Info B N G)
      → (compile unbounded make_bounds compile_state id a φ ≡ ok i) ↔ (
          (k : IcType) × (b : B) × Fragment unbounded make_bounds k b φ
          × (i ≡ describe compile_state id a k b φ))
  compile_lem id a φ i =
      (compile-Accepted id a φ i, λ (k, b, f, ei). compile-Fragment id a k b φ f ∙ ap ok (sym ei))
