-- ===== src/Taptenc/Constraint/Fragment/Chain.antt =====
-- What Semantics<StateSpec>::compile_chain accepts, and Semantics<Constraint>::compile as a whole.
use mathlib.Core.Path.{subst}
use gologpp.Prelude.{String, ◌≡◌, ◌&&◌, ◌↔◌, refl, sym, ap, ◌∙◌, List, [], ◌∷◌, if◌then◌else◌, Eq}
use gologpp.Error.{ok, err, unsupported, bind-ok, ok_inj}
use gologpp.Taptenc.Constraint.{
  or, and, StateSpec, state_assertion, boolean, temporal_unary, temporal_binary,
}
use gologpp.Taptenc.Constraint.Info.{IcType, no_op, until_chain, ic_type_eq, Info, chain, type_of}
use gologpp.Taptenc.Constraint.Compile.{compile, compile_chain, compile_or_chain, cast_unary}
use gologpp.Taptenc.Constraint.Fragment.{
  IsStates, targets, Fragment, describe, Fragment-no_op, IsStates-Fragment, Accepted,
}
use gologpp.Taptenc.Constraint.Fragment.Describe.{ic_type_eq-eq, if-ok, and-eq}
use gologpp.Taptenc.Constraint.Fragment.Laws.{compile-Accepted, compile-Fragment}

module _ {B G C S T : Type 0} (unbounded : B) (make_bounds : T → T → B)
    (compile_state : S → G) where
  abbrev pub describe_chain : {N : Type 0} → String → List N → List N → StateSpec C S T → Info B N G
  describe_chain id a a_end φ =
      chain id until_chain a (record { bounds = unbounded; targets = targets compile_state φ } ∷ [])
        a_end

  compile_or_chain-describe :
      {N : Type 0} (id : String) (a a_end : List N) (k j : IcType) (b d : B) (l r : StateSpec C S T)
      → compile_or_chain id a a_end
          (describe compile_state id a k b l)
          (describe compile_state id a j d r)
        ≡ (if ic_type_eq k no_op && ic_type_eq j no_op
            then ok (
                chain id until_chain a
                  (record { bounds = b; targets = targets compile_state (boolean l or r) } ∷ [])
                  a_end)
            else err unsupported)
  unfolding compile_or_chain cast_unary type_of ic_type_eq
  compile_or_chain-describe id a a_end no_op no_op b d l r = refl
  compile_or_chain-describe id a a_end no_op IcType.future b d l r = refl
  compile_or_chain-describe id a a_end no_op IcType.past b d l r = refl
  compile_or_chain-describe id a a_end no_op IcType.since b d l r = refl
  compile_or_chain-describe id a a_end no_op IcType.until b d l r = refl
  compile_or_chain-describe id a a_end no_op until_chain b d l r = refl
  compile_or_chain-describe id a a_end IcType.future j b d l r = refl
  compile_or_chain-describe id a a_end IcType.past j b d l r = refl
  compile_or_chain-describe id a a_end IcType.since j b d l r = refl
  compile_or_chain-describe id a a_end IcType.until j b d l r = refl
  compile_or_chain-describe id a a_end until_chain j b d l r = refl

  or-chain :
      {N : Type 0} (id : String) (a a_end : List N) (l r : StateSpec C S T) (i j x : Info B N G)
      → Accepted unbounded make_bounds compile_state id a l i
      → Accepted unbounded make_bounds compile_state id a r j
      → compile_or_chain id a a_end i j ≡ ok x
      → IsStates l × IsStates r × (x ≡ describe_chain id a a_end (boolean l or r))
  or-chain id a a_end l r i j x (k, b, fl, el) (k', b', fr, er) h =
      let (plain, h1) =
        if-ok (ic_type_eq k no_op && ic_type_eq k' no_op)
          (ok (
            chain id until_chain a
              (record { bounds = b; targets = targets compile_state (boolean l or r) } ∷ []) a_end))
          x (cc (compile_or_chain-describe id a a_end k k' b b' l r, el, er, h)) in
      let (pl, pr) = and-eq (ic_type_eq k no_op) (ic_type_eq k' no_op) plain in
      let (sl, eb) =
        Fragment-no_op unbounded make_bounds l b
          (subst (λ k. Fragment unbounded make_bounds k b l) (ic_type_eq-eq k no_op pl) fl) in
      let (sr, _) =
        Fragment-no_op unbounded make_bounds r b'
          (subst (λ k. Fragment unbounded make_bounds k b' r) (ic_type_eq-eq k' no_op pr) fr) in
      (
        sl,
        sr,
        sym (ok_inj _ x h1)
            ∙ ap
                (λ b.
                  chain id until_chain a
                    (record { bounds = b; targets = targets compile_state (boolean l or r) } ∷ [])
                    a_end)
                eb,
      )

  compile_chain-ok :
      {N : Type 0} ⦃e : Eq B⦄ (id : String) (a a_end : List N) (φ : StateSpec C S T)
      (i : Info B N G)
      → compile_chain unbounded make_bounds compile_state id a a_end φ ≡ ok i
      → IsStates φ × (i ≡ describe_chain id a a_end φ)
  unfolding compile_chain
  compile_chain-ok id a a_end (state_assertion c s) i h = (tt, sym (ok_inj _ i h))
  compile_chain-ok id a a_end (boolean l and r) i h = cc
  compile_chain-ok id a a_end (boolean l or r) i h =
      let (tt_lhs, el, h1) = bind-ok (compile unbounded make_bounds compile_state id a l) _ i h in
      let (tt_rhs, er, h2) = bind-ok (compile unbounded make_bounds compile_state id a r) _ i h1 in
      let (sl, sr, ei) =
        or-chain id a a_end l r tt_lhs tt_rhs i
          (compile-Accepted unbounded make_bounds compile_state id a l tt_lhs el)
          (compile-Accepted unbounded make_bounds compile_state id a r tt_rhs er) h2 in
      ((sl, sr), ei)
  compile_chain-ok id a a_end (temporal_unary op lo hi s) i h = cc
  compile_chain-ok id a a_end (temporal_binary l op lo hi r) i h = cc

  compile_chain-IsStates :
      {N : Type 0} ⦃e : Eq B⦄ (id : String) (a a_end : List N) (φ : StateSpec C S T)
      → IsStates φ
      → compile_chain unbounded make_bounds compile_state id a a_end φ
        ≡ ok (describe_chain id a a_end φ)
  unfolding compile_chain
  compile_chain-IsStates id a a_end (state_assertion c s) h = refl
  compile_chain-IsStates id a a_end (boolean l and r) h = absurd h
  compile_chain-IsStates id a a_end (boolean l or r) h =
      rw
        (
          compile-Fragment unbounded make_bounds compile_state id a no_op unbounded l
              (IsStates-Fragment unbounded make_bounds l h.0),
          compile-Fragment unbounded make_bounds compile_state id a no_op unbounded r
              (IsStates-Fragment unbounded make_bounds r h.1),
        )
        (compile_or_chain-describe id a a_end no_op no_op unbounded unbounded l r)
  compile_chain-IsStates id a a_end (temporal_unary op lo hi s) h = absurd h
  compile_chain-IsStates id a a_end (temporal_binary l op lo hi r) h = absurd h

  pub compile_chain_lem :
      {N : Type 0} ⦃e : Eq B⦄ (id : String) (a a_end : List N) (φ : StateSpec C S T)
      (i : Info B N G)
      → (compile_chain unbounded make_bounds compile_state id a a_end φ ≡ ok i)
        ↔ (IsStates φ × (i ≡ describe_chain id a a_end φ))
  compile_chain_lem id a a_end φ i = (
    compile_chain-ok id a a_end φ i,
    λ (s, ei). compile_chain-IsStates id a a_end φ s ∙ ap ok (sym ei),
  )
