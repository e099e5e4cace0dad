-- ===== src/Taptenc/Constraint/Fragment/Describe.antt =====
-- The steps of Semantics<StateSpec>::compile on specs of the fragment.
use gologpp.Prelude.{
  String, ◌≡◌, ◌&&◌, refl, Bool, true, false, inl, inr, List, if◌then◌else◌, Eq, ◌==◌, arith, ◌⊎◌,
}
use gologpp.Error.{Error, Result, ok, err, unsupported, ◌>>=◌}
use gologpp.Taptenc.Constraint.{
  or, UnaryOperator, BinaryOperator, next, previous, future, past, until, since, StateSpec, boolean,
  temporal_unary, temporal_binary,
}
use gologpp.Taptenc.Constraint.Info.{IcType, no_op, until_chain, ic_type_eq, unary, binary, type_of}
use gologpp.Taptenc.Constraint.Compile.{
  compile_or, compile_unary, compile_binary, disjoin, unary_type, unary_specs, binary_type,
  cast_unary,
}
use gologpp.Taptenc.Constraint.Fragment.{targets, describe}

pub ic_type_eq-eq : (k j : IcType) → ic_type_eq k j ≡ true → k ≡ j
unfolding ic_type_eq
ic_type_eq-eq k j h = grind arith

pub ic_type_eq_refl : (k : IcType) → ic_type_eq k k ≡ true
unfolding ic_type_eq
ic_type_eq_refl k = grind arith

pub if-ok {ℓ} :
    {A : Type ℓ} (b : Bool) (m : Result A) (x : A)
    → (if b then m else err unsupported) ≡ ok x
    → (b ≡ true) × (m ≡ ok x)
if-ok true m x h = (refl, h)
if-ok false m x h = cc

pub if-err {ℓ} :
    {A : Type ℓ} (b : Bool) (m : Result A) (x : Error)
    → (if b then m else err unsupported) ≡ err x
    → (x ≡ unsupported) ⊎ ((b ≡ true) × (m ≡ err x))
if-err true m x h = inr (refl, h)
if-err false m x h = inl (cc)

pub and-eq : (a b : Bool) → (a && b) ≡ true → (a ≡ true) × (b ≡ true)
and-eq a b h = ground arith

module _ {B G C S T : Type 0} (compile_state : S → G) where
  pub type_of-describe :
      {N : Type 0} (id : String) (a : List N) (k : IcType) (b : B) (φ : StateSpec C S T)
      → type_of (describe compile_state id a k b φ) ≡ k
  unfolding type_of
  type_of-describe id a no_op b φ = refl
  type_of-describe id a IcType.future b φ = refl
  type_of-describe id a IcType.past b φ = refl
  type_of-describe id a IcType.since b φ = refl
  type_of-describe id a IcType.until b φ = refl
  type_of-describe id a until_chain b φ = refl

  pub disjoin-describe :
      {N : Type 0} ⦃e : Eq B⦄ (id : String) (a : List N) (k : IcType) (b d : B)
      (l r : StateSpec C S T)
      → disjoin id a (describe compile_state id a k b l) (describe compile_state id a k d r) ≡ (
          if b == d then ok (describe compile_state id a k b (boolean l or r)) else err unsupported)
  unfolding disjoin
  disjoin-describe id a no_op b d l r = refl
  disjoin-describe id a IcType.future b d l r = refl
  disjoin-describe id a IcType.past b d l r = refl
  disjoin-describe id a IcType.since b d l r = refl
  disjoin-describe id a IcType.until b d l r = refl
  disjoin-describe id a until_chain b d l r = refl

  pub compile_or-describe :
      {N : Type 0} ⦃e : Eq B⦄ (id : String) (a : List N) (k j : IcType) (b d : B)
      (l r : StateSpec C S T)
      → compile_or id a (describe compile_state id a k b l) (describe compile_state id a j d r) ≡ (
          if ic_type_eq k j
          then disjoin id a (describe compile_state id a k b l) (describe compile_state id a j d r)
          else err unsupported)
  unfolding compile_or
  compile_or-describe id a k j b d l r =
      rw (type_of-describe id a k b l, type_of-describe id a j d r)

  pub compile_unary-describe :
      {N : Type 0} (id : String) (a : List N) (op : UnaryOperator) (k : IcType) (b d : B)
      (φ : StateSpec C S T)
      → compile_unary op d id a (describe compile_state id a k b φ) ≡ (
          if ic_type_eq k no_op
          then (unary_type op >>= λ t.
              ok (unary id t a (record { bounds = d; targets = targets compile_state φ })))
          else err unsupported)
  unfolding compile_unary unary_type unary_specs type_of ic_type_eq
  compile_unary-describe id a op no_op b d φ = refl
  compile_unary-describe id a op IcType.future b d φ = refl
  compile_unary-describe id a op IcType.past b d φ = refl
  compile_unary-describe id a op IcType.since b d φ = refl
  compile_unary-describe id a op IcType.until b d φ = refl
  compile_unary-describe id a op until_chain b d φ = refl

  pub compile_binary-describe :
      {N : Type 0} (id : String) (a : List N) (op : BinaryOperator) (k j : IcType) (b d : B)
      (l r : StateSpec C S T)
      → compile_binary op id a
          (describe compile_state id a k b l)
          (describe compile_state id a j d r)
        ≡ (if ic_type_eq k no_op && ic_type_eq j no_op
            then ok (
                binary id
                  (binary_type op)
                  a
                  (record { bounds = d; targets = targets compile_state r })
                  (targets compile_state l))
            else err unsupported)
  unfolding compile_binary cast_unary type_of ic_type_eq
  compile_binary-describe id a op no_op IcType.future b d l r = refl
  compile_binary-describe id a op no_op IcType.past b d l r = refl
  compile_binary-describe id a op no_op IcType.since b d l r = refl
  compile_binary-describe id a op no_op IcType.until b d l r = refl
  compile_binary-describe id a op no_op until_chain b d l r = refl
  compile_binary-describe id a op no_op no_op b d l r = refl
  compile_binary-describe id a op IcType.future j b d l r = refl
  compile_binary-describe id a op IcType.past j b d l r = refl
  compile_binary-describe id a op IcType.since j b d l r = refl
  compile_binary-describe id a op IcType.until j b d l r = refl
  compile_binary-describe id a op until_chain j b d l r = refl

  pub unary-describe :
      {N : Type 0} (id : String) (op : UnaryOperator) (t : IcType) (a : List N) (lo hi : T) (b : B)
      (s : StateSpec C S T)
      → unary_type op ≡ ok t
      → unary id t a (record { bounds = b; targets = targets compile_state s })
        ≡ describe compile_state id a t (b) (temporal_unary op lo hi s)
  unfolding unary_type
  unary-describe id op no_op a lo hi b s h = refl
  unary-describe id op IcType.future a lo hi b s h = refl
  unary-describe id op IcType.past a lo hi b s h = refl
  unary-describe id next IcType.since a lo hi b s h = cc
  unary-describe id previous IcType.since a lo hi b s h = cc
  unary-describe id future IcType.since a lo hi b s h = cc
  unary-describe id past IcType.since a lo hi b s h = cc
  unary-describe id next IcType.until a lo hi b s h = cc
  unary-describe id previous IcType.until a lo hi b s h = cc
  unary-describe id future IcType.until a lo hi b s h = cc
  unary-describe id past IcType.until a lo hi b s h = cc
  unary-describe id op until_chain a lo hi b s h = refl

  pub binary-describe :
      {N : Type 0} (id : String) (op : BinaryOperator) (a : List N) (lo hi : T) (b : B)
      (l r : StateSpec C S T)
      → binary id
          (binary_type op)
          a
          (record { bounds = b; targets = targets compile_state r })
          (targets compile_state l)
        ≡ describe compile_state id a (binary_type op) b (temporal_binary l op lo hi r)
  unfolding binary_type
  binary-describe id until a lo hi b l r = refl
  binary-describe id since a lo hi b l r = refl
