-- ===== src/Taptenc/Constraint/Fragment/Steps.antt =====
-- What one step of Semantics<StateSpec>::compile makes of operands of the fragment.
use mathlib.Core.Path.{subst}
use gologpp.Prelude.{String, ◌≡◌, ◌&&◌, refl, sym, ◌∙◌, inl, inr, List, Eq, ◌==◌, arith}
use gologpp.Error.{Error, ok, err, unsupported, ◌>>=◌, bind-ok, ok_inj}
use gologpp.Taptenc.Constraint.{
  or, UnaryOperator, BinaryOperator, StateSpec, boolean, temporal_unary, temporal_binary,
}
use gologpp.Taptenc.Constraint.Info.{no_op, ic_type_eq, Info, unary, binary}
use gologpp.Taptenc.Constraint.Compile.{
  compile_or, compile_unary, compile_binary, disjoin, unary_type, binary_type,
}
use gologpp.Taptenc.Constraint.Fragment.{
  unary_type-IsUnaryKind, binary_type-IsBinaryKind, targets, Fragment, describe, Fragment-no_op,
  Accepted,
}
use gologpp.Taptenc.Constraint.Fragment.Describe.{
  ic_type_eq-eq, if-ok, if-err, and-eq, disjoin-describe, compile_or-describe,
  compile_unary-describe, compile_binary-describe, unary-describe, binary-describe,
}

module _ {B G C S T : Type 0} (unbounded : B) (make_bounds : T → T → B)
    (compile_state : S → G) where
  -- The steps of `compile`, on what it makes of the operands.
  pub or-Accepted :
      {N : Type 0} ⦃e : Eq B⦄ (id : String) (a : List N) (l r : StateSpec C S T)
      (i j x : Info B N G)
      → Accepted unbounded make_bounds compile_state id a l i
      → Accepted unbounded make_bounds compile_state id a r j
      → compile_or id a i j ≡ ok x
      → Accepted unbounded make_bounds compile_state id a (boolean l or r) x
  or-Accepted ⦃e⦄ id a l r i j x (k, b, fl, el) (k', b', fr, er) h =
      let (same, h1) =
        if-ok (ic_type_eq k k')
          (disjoin id a (describe compile_state id a k b l) (describe compile_state id a k' b' r)) x
          (cc (compile_or-describe compile_state id a k k' b b' l r, el, er, h)) in
      let ek = ic_type_eq-eq k k' same in
      let (equal, h2) =
        if-ok (b == b') (ok (describe compile_state id a k b (boolean l or r))) x
          (cc (disjoin-describe compile_state id a k b b' l r, ek, h1)) in
      let eb = (e.beq_iff b b').0 equal in
      (
        k,
        b,
        (
          fl,
          subst (λ k. Fragment unbounded make_bounds k b r) (sym ek)
              (subst (λ b. Fragment unbounded make_bounds k' b r) (sym eb) fr),
        ),
        sym (ok_inj _ x h2),
      )

  pub unary-Accepted :
      {N : Type 0} (id : String) (a : List N) (op : UnaryOperator) (lo hi : T) (s : StateSpec C S T)
      (i x : Info B N G)
      → Accepted unbounded make_bounds compile_state id a s i
      → compile_unary op (make_bounds lo hi) id a i ≡ ok x
      → Accepted unbounded make_bounds compile_state id a (temporal_unary op lo hi s) x
  unary-Accepted id a op lo hi s i x (k, b, fs, es) h =
      let (plain, h1) =
        if-ok (ic_type_eq k no_op)
          (unary_type op >>= λ t. ok (
            unary id t a
              (record { bounds = make_bounds lo hi; targets = targets compile_state s })))
          x (cc (compile_unary-describe compile_state id a op k b (make_bounds lo hi) s, es, h)) in
      let (t, et, h2) = bind-ok (unary_type op) _ x h1 in
      (
        t,
        make_bounds lo hi,
        (
          (Fragment-no_op unbounded make_bounds s b (
              subst (λ k. Fragment unbounded make_bounds k b s) (ic_type_eq-eq k no_op plain)
                fs)).0,
          (unary_type-IsUnaryKind op t).0 et,
          refl,
        ),
        sym (ok_inj _ x h2) ∙ unary-describe compile_state id op t a lo hi (make_bounds lo hi) s et,
      )

  pub binary-Accepted :
      {N : Type 0} (id : String) (a : List N) (op : BinaryOperator) (lo hi : T)
      (l r : StateSpec C S T) (i j x : Info B N G)
      → Accepted unbounded make_bounds compile_state id a l i
      → Accepted unbounded make_bounds compile_state id a r j
      → compile_binary op id a i j ≡ ok x
      → Accepted unbounded make_bounds compile_state id a (temporal_binary l op lo hi r) x
  binary-Accepted id a op lo hi l r i j x (k, b, fl, el) (k', b', fr, er) h =
      let (plain, h1) =
        if-ok (ic_type_eq k no_op && ic_type_eq k' no_op)
          (ok (
            binary id (binary_type op) a (record { bounds = b'; targets = targets compile_state r })
              (targets compile_state l)))
          x (cc (compile_binary-describe compile_state id a op k k' b b' l r, el, er, h)) in
      let (pl, pr) = and-eq (ic_type_eq k no_op) (ic_type_eq k' no_op) plain in
      let (sl, _) =
        Fragment-no_op unbounded make_bounds l b
          (subst (λ k. Fragment unbounded make_bounds k b l) (ic_type_eq-eq k no_op pl) fl) in
      let (sr, eb) =
        Fragment-no_op unbounded make_bounds r b'
          (subst (λ k. Fragment unbounded make_bounds k b' r) (ic_type_eq-eq k' no_op pr) fr) in
      (
        binary_type op,
        b',
        (sl, sr, (binary_type-IsBinaryKind op (binary_type op)).0 refl, eb),
        sym (ok_inj _ x h1) ∙ binary-describe compile_state id op a lo hi b' l r,
      )

  pub or-unsupported :
      {N : Type 0} ⦃e : Eq B⦄ (id : String) (a : List N) (l r : StateSpec C S T) (i j : Info B N G)
      (x : Error)
      → Accepted unbounded make_bounds compile_state id a l i
      → Accepted unbounded make_bounds compile_state id a r j
      → compile_or id a i j ≡ err x
      → x ≡ unsupported
  or-unsupported ⦃e⦄ id a l r i j x (k, b, fl, el) (k', b', fr, er) h =
      elim (if-err (ic_type_eq k k')
        (disjoin id a (describe compile_state id a k b l) (describe compile_state id a k' b' r)) x
        (cc (compile_or-describe compile_state id a k k' b b' l r, el, er, h))) [
          | inl u ↦ u
          | inr (same, h1) ↦
              elim (if-err (b == b') (ok (describe compile_state id a k b (boolean l or r))) x (
                cc (disjoin-describe compile_state id a k b b' l r, ic_type_eq-eq k k' same, h1))) [
                  | inl u ↦ u
                  | inr (_, h2) ↦ cc
                ]
        ]

  pub unary-unsupported :
      {N : Type 0} (id : String) (a : List N) (op : UnaryOperator) (d : B) (s : StateSpec C S T)
      (i : Info B N G) (x : Error)
      → Accepted unbounded make_bounds compile_state id a s i
      → compile_unary op d id a i ≡ err x
      → x ≡ unsupported
  unfolding unary_type
  unary-unsupported id a op d s i x (k, b, fs, es) h =
      elim (if-err (ic_type_eq k no_op)
        (unary_type op >>= λ t.
          ok (unary id t a (record { bounds = d; targets = targets compile_state s })))
        x (cc (compile_unary-describe compile_state id a op k b d s, es, h))) [
          | inl u ↦ u
          | inr (_, h1) ↦ ground arith
        ]

  pub binary-unsupported :
      {N : Type 0} (id : String) (a : List N) (op : BinaryOperator) (l r : StateSpec C S T)
      (i j : Info B N G) (x : Error)
      → Accepted unbounded make_bounds compile_state id a l i
      → Accepted unbounded make_bounds compile_state id a r j
      → compile_binary op id a i j ≡ err x
      → x ≡ unsupported
  binary-unsupported id a op l r i j x (k, b, fl, el) (k', b', fr, er) h =
      elim (if-err (ic_type_eq k no_op && ic_type_eq k' no_op)
        (ok (
          binary id (binary_type op) a (record { bounds = b'; targets = targets compile_state r })
            (targets compile_state l)))
        x (cc (compile_binary-describe compile_state id a op k k' b b' l r, el, er, h))) [
          | inl u ↦ u
          | inr (_, h1) ↦ cc
        ]
