-- ===== src/Taptenc/Constraint/Fragment.antt =====
-- The state specs that Semantics<StateSpec>::compile accepts, and what it makes of them
-- (src/semantics/platform/taptenc/constraint.cpp).
pub mod Describe
pub mod Steps
pub mod Laws
pub mod Chain
use mathlib.Core.Path.{subst}
use gologpp.Prelude.{
  ℕ, String, ◌≡◌, ◌&&◌, ◌↔◌, refl, sym, ap, ◌∙◌, Bool, true, false, inl, inr, List, [], ◌∷◌, ◌++◌,
  if◌then◌else◌, Eq, ◌==◌, beq_refl, Bool-cases, arith, ◌⊎◌,
}
use gologpp.Error.{Error, Result, ok, err, unsupported, ◌>>=◌, bind-ok, bind-err, ok_inj, err_inj}
use gologpp.Taptenc.Constraint.{
  or, and, UnaryOperator, BinaryOperator, next, previous, future, past, until, since, StateSpec,
  state_assertion, boolean, temporal_unary, temporal_binary,
}
use gologpp.Taptenc.Constraint.Info.{
  IcType, no_op, until_chain, ic_type_eq, TargetSpecs, Info, unary, binary, chain, type_of,
}
use gologpp.Taptenc.Constraint.Compile.{
  compile, compile_or, compile_unary, compile_binary, disjoin, unary_type, unary_specs, binary_type,
  cast_unary, specs_join,
}

-- Disjunctions of state assertions.
abbrev pub IsStates : {C S T : Type 0} → StateSpec C S T → Type 0
IsStates (state_assertion c s) = Unit
IsStates (boolean l or r) = IsStates l × IsStates r
IsStates (boolean l and r) = ⊥
IsStates (temporal_unary op lo hi s) = ⊥
IsStates (temporal_binary l op lo hi r) = ⊥

module _ {G C S T : Type 0} (compile_state : S → G) where
  -- The states of the right-hand sides, from left to right.
  abbrev pub targets : StateSpec C S T → List G
  targets (state_assertion c s) = compile_state s ∷ []
  targets (boolean l op r) = targets l ++ targets r
  targets (temporal_unary op lo hi s) = targets s
  targets (temporal_binary l op lo hi r) = targets r

  -- The states of the left-hand sides of temporal operators, from left to right.
  abbrev pub pre_targets : StateSpec C S T → List G
  pre_targets (state_assertion c s) = []
  pre_targets (boolean l op r) = pre_targets l ++ pre_targets r
  pre_targets (temporal_unary op lo hi s) = []
  pre_targets (temporal_binary l op lo hi r) = targets l

  -- What `compile` returns on it.
  abbrev pub describe : {B N : Type 0} → String → List N → IcType → B → StateSpec C S T → Info B N G
  describe id a IcType.since b φ =
      binary id IcType.since a (record { bounds = b; targets = targets φ }) (pre_targets φ)
  describe id a IcType.until b φ =
      binary id IcType.until a (record { bounds = b; targets = targets φ }) (pre_targets φ)
  describe id a k b φ = unary id k a (record { bounds = b; targets = targets φ })

-- The kind of constraint that an operator makes; `next` and `previous` make none.
abbrev pub IsUnaryKind : UnaryOperator → IcType → Type 0
IsUnaryKind future k = k ≡ IcType.future
IsUnaryKind past k = k ≡ IcType.past
IsUnaryKind next k = ⊥
IsUnaryKind previous k = ⊥

abbrev pub IsBinaryKind : BinaryOperator → IcType → Type 0
IsBinaryKind since k = k ≡ IcType.since
IsBinaryKind until k = k ≡ IcType.until

pub unary_type-IsUnaryKind :
    (op : UnaryOperator) (k : IcType) → (unary_type op ≡ ok k) ↔ IsUnaryKind op k
unfolding unary_type
unary_type-IsUnaryKind future k = ((λ h. sym (ok_inj _ k h)), λ h. ap ok (sym h))
unary_type-IsUnaryKind past k = ((λ h. sym (ok_inj _ k h)), λ h. ap ok (sym h))
unary_type-IsUnaryKind next k = ((λ h. cc), λ h. absurd h)
unary_type-IsUnaryKind previous k = ((λ h. cc), λ h. absurd h)

pub binary_type-IsBinaryKind :
    (op : BinaryOperator) (k : IcType) → (k ≡ binary_type op) ↔ IsBinaryKind op k
unfolding binary_type
binary_type-IsBinaryKind since k = ((λ h. h), λ h. h)
binary_type-IsBinaryKind until k = ((λ h. h), λ h. h)

module _ {B C S T : Type 0} (unbounded : B) (make_bounds : T → T → B) where
  -- `φ` is a disjunction of state assertions (no_op), or of applications of one temporal operator
  -- to such, with the bounds `b` in common.
  abbrev pub Fragment : IcType → B → StateSpec C S T → Type 0
  Fragment k b (state_assertion c s) = (k ≡ no_op) × (b ≡ unbounded)
  Fragment k b (boolean l or r) = Fragment k b l × Fragment k b r
  Fragment k b (boolean l and r) = ⊥
  Fragment k b (temporal_unary op lo hi s) = IsStates s × IsUnaryKind op k × (b ≡ make_bounds lo hi)
  Fragment k b (temporal_binary l op lo hi r) =
      IsStates l × IsStates r × IsBinaryKind op k × (b ≡ unbounded)

  pub IsStates-Fragment : (φ : StateSpec C S T) → IsStates φ → Fragment no_op unbounded φ
  IsStates-Fragment (state_assertion c s) h = (refl, refl)
  IsStates-Fragment (boolean l or r) h = (IsStates-Fragment l h.0, IsStates-Fragment r h.1)
  IsStates-Fragment (boolean l and r) h = h
  IsStates-Fragment (temporal_unary op lo hi s) h = absurd h
  IsStates-Fragment (temporal_binary l op lo hi r) h = absurd h

  pub Fragment-no_op :
      (φ : StateSpec C S T) (b : B) → Fragment no_op b φ → IsStates φ × (b ≡ unbounded)
  Fragment-no_op (state_assertion c s) b h = (tt, h.1)
  Fragment-no_op (boolean l or r) b h =
      let (hl, hr) = h in
      (((Fragment-no_op l b hl).0, (Fragment-no_op r b hr).0), (Fragment-no_op l b hl).1)
  Fragment-no_op (boolean l and r) b h = absurd h
  Fragment-no_op (temporal_unary next lo hi s) b h = ground arith
  Fragment-no_op (temporal_unary previous lo hi s) b h = ground arith
  Fragment-no_op (temporal_unary future lo hi s) b h = ground arith
  Fragment-no_op (temporal_unary past lo hi s) b h = ground arith
  Fragment-no_op (temporal_binary l until lo hi r) b h = ground arith
  Fragment-no_op (temporal_binary l since lo hi r) b h = ground arith

module _ {B G C S T : Type 0} (unbounded : B) (make_bounds : T → T → B)
    (compile_state : S → G) where
  -- The result of `compile` on an accepted spec.
  abbrev pub Accepted : {N : Type 0} → String → List N → StateSpec C S T → Info B N G → Type 0
  Accepted id a φ i =
      (k : IcType) × (b : B) × Fragment unbounded make_bounds k b φ
      × (i ≡ describe compile_state id a k b φ)
