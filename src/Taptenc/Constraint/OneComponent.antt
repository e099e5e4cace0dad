-- ===== src/Taptenc/Constraint/OneComponent.antt =====
-- TaptencTransformation::find_component_ref (src/semantics/platform/taptenc/transformation.cpp):
-- the one component a state spec refers to.
use gologpp.Prelude.{
  All-append, ◌≡◌, ◌↔◌, ap, inl, inr, List, [], ◌∷◌, ◌++◌, if◌then◌else◌, Eq, ◌==◌, beq_refl,
  Bool-cases, All, arith,
}
use gologpp.Error.{Error, Result, ok, err, unsupported, ◌>>=◌, bind-ok, bind-err, ok_inj}
use gologpp.Taptenc.Constraint.{
  StateSpec, state_assertion, boolean, temporal_unary, temporal_binary,
}

module _ {C S T : Type 0} where
  -- The components of the state assertions, from left to right.
  abbrev pub components : StateSpec C S T → List C
  components (state_assertion c s) = c ∷ []
  components (boolean l op r) = components l ++ components r
  components (temporal_unary op lo hi s) = components s
  components (temporal_binary l op lo hi r) = components l ++ components r

module _ {C : Type 0} ⦃e : Eq C⦄ where
  unfoldable pub same_ref : C → C → Result C
  same_ref l r = if l == r then ok l else err unsupported

  same_ref-ok : (l r c : C) → same_ref l r ≡ ok c → (l ≡ c) × (r ≡ c)
  unfolding same_ref
  same_ref-ok l r c h = elim (Bool-cases (l == r)) [
    | inl b ↦ ground (arith, (e.beq_iff l r).0 b, b, h)
    | inr b ↦ ground (arith, b, h)
  ]

  same_ref-err : (l r : C) (x : Error) → same_ref l r ≡ err x → x ≡ unsupported
  unfolding same_ref
  same_ref-err l r x h = ground arith

  join-err :
      (m n : Result C) (x : Error)
      → (m >>= λ a. n >>= λ b. same_ref a b) ≡ err x
      → (m ≡ err x → x ≡ unsupported)
      → (n ≡ err x → x ≡ unsupported)
      → x ≡ unsupported
  join-err m n x h hm hn = elim (bind-err m _ x h) [
    | inl em ↦ hm em
    | inr (a, _, h1) ↦ elim (bind-err n _ x h1) [
      | inl en ↦ hn en
      | inr (b, _, h2) ↦ same_ref-err a b x h2
    ]
  ]

  same_ref_refl : (c : C) → same_ref c c ≡ ok c
  unfolding same_ref
  same_ref_refl c = rw (beq_refl c)

module _ {C S T : Type 0} ⦃e : Eq C⦄ where
  unfoldable pub find_component_ref : StateSpec C S T → Result C
  unfolding same_ref
  find_component_ref (state_assertion c s) = ok c
  find_component_ref (temporal_binary l op lo hi r) = do
    lhs_ref ← find_component_ref l
    rhs_ref ← find_component_ref r
    same_ref lhs_ref rhs_ref
  find_component_ref (boolean l op r) = do
    lhs_ref ← find_component_ref l
    rhs_ref ← find_component_ref r
    same_ref lhs_ref rhs_ref
  find_component_ref (temporal_unary op lo hi s) = find_component_ref s

module _ {C S T : Type 0} ⦃e : Eq C⦄ where
  -- Two operands of which the reference is known.
  join-ok :
      (l r : StateSpec C S T) (m n : Result C) (c : C)
      → ((d : C) → m ≡ ok d → All (λ x. x ≡ d) (components l))
      → ((d : C) → n ≡ ok d → All (λ x. x ≡ d) (components r))
      → (m >>= λ x. n >>= λ y. same_ref x y) ≡ ok c
      → All (λ x. x ≡ c) (components l ++ components r)
  join-ok l r m n c hl hr h =
      let (x, ex, h1) = bind-ok m _ c h in
      let (y, ey, h2) = bind-ok n _ c h1 in
      let (xc, yc) = same_ref-ok x y c h2 in
      (All-append _ (components l) (components r)).1 (hl c (cc), hr c (cc))

  find_component_ref-All :
      (φ : StateSpec C S T) (c : C) → find_component_ref φ ≡ ok c → All (λ x. x ≡ c) (components φ)
  unfolding find_component_ref
  find_component_ref-All (state_assertion d s) c h = (ok_inj d c h, tt)
  find_component_ref-All (temporal_unary op lo hi s) c h = find_component_ref-All s c h
  find_component_ref-All (boolean l op r) c h =
      join-ok l r (find_component_ref l) (find_component_ref r) c (find_component_ref-All l)
        (find_component_ref-All r) h
  find_component_ref-All (temporal_binary l op lo hi r) c h =
      join-ok l r (find_component_ref l) (find_component_ref r) c (find_component_ref-All l)
        (find_component_ref-All r) h

  All-find_component_ref :
      (φ : StateSpec C S T) (c : C) → All (λ x. x ≡ c) (components φ) → find_component_ref φ ≡ ok c
  unfolding find_component_ref
  All-find_component_ref (state_assertion d s) c h = ap ok h.0
  All-find_component_ref (temporal_unary op lo hi s) c h = All-find_component_ref s c h
  All-find_component_ref (boolean l op r) c h =
      let (hl, hr) = (All-append _ (components l) (components r)).0 h in
      rw (All-find_component_ref l c hl, All-find_component_ref r c hr) (same_ref_refl c)
  All-find_component_ref (temporal_binary l op lo hi r) c h =
      let (hl, hr) = (All-append _ (components l) (components r)).0 h in
      rw (All-find_component_ref l c hl, All-find_component_ref r c hr) (same_ref_refl c)

  find_component_ref-err :
      (φ : StateSpec C S T) (x : Error) → find_component_ref φ ≡ err x → x ≡ unsupported
  unfolding find_component_ref
  find_component_ref-err (state_assertion d s) x h = cc
  find_component_ref-err (temporal_unary op lo hi s) x h = find_component_ref-err s x h
  find_component_ref-err (boolean l op r) x h =
      join-err (find_component_ref l) (find_component_ref r) x h (find_component_ref-err l x)
        (find_component_ref-err r x)
  find_component_ref-err (temporal_binary l op lo hi r) x h =
      join-err (find_component_ref l) (find_component_ref r) x h (find_component_ref-err l x)
        (find_component_ref-err r x)

  -- A state spec has a component reference exactly when all its state assertions name that one
  -- component, and when it has none, `Unsupported` is thrown.
  pub find_component_ref_lem :
      (φ : StateSpec C S T) (c : C) (x : Error)
      → ((find_component_ref φ ≡ ok c) ↔ All (λ d. d ≡ c) (components φ))
        × (find_component_ref φ ≡ err x → x ≡ unsupported)
  find_component_ref_lem φ c x =
      ((find_component_ref-All φ c, All-find_component_ref φ c), find_component_ref-err φ x)
