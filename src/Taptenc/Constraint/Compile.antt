-- ===== src/Taptenc/Constraint/Compile.antt =====
-- Semantics<StateSpec>::compile and compile_chain and Semantics<Constraint>::compile
-- (src/semantics/platform/taptenc/constraint.cpp).
use gologpp.Prelude.{ℕ, String, Bool, ◌&&◌, List, [], ◌∷◌, ◌++◌, if◌then◌else◌, Eq, ◌==◌}
use gologpp.Error.{Result, ok, err, unsupported, bug, bad_cast, null_dereference, ◌>>=◌}
use gologpp.Taptenc.Constraint.{
  or, and, UnaryOperator, next, previous, future, past, BinaryOperator, until, since, StateSpec,
  state_assertion, boolean, temporal_unary, temporal_binary, Constraint,
}
use gologpp.Taptenc.Constraint.Info.{
  IcType, no_op, until_chain, ic_type_eq, TargetSpecs, Info, unary, binary, chain, type_of,
}
use gologpp.Taptenc.Constraint.Activations.{is_chain, compile_action, compile_action_chain}

module _ {B G : Type 0} where
  abbrev pub specs_join : TargetSpecs B G → TargetSpecs B G → TargetSpecs B G
  specs_join l r = record { bounds = l.bounds; targets = l.targets ++ r.targets }

module _ {B N G : Type 0} where
  -- The two blocks of the disjunction, by the dynamic type of the left-hand side. The pointer to the
  -- right-hand side is not checked.
  unfoldable pub disjoin :
      ⦃e : Eq B⦄ → String → List N → Info B N G → Info B N G → Result (Info B N G)
  disjoin id a (binary _ k _ l p) (binary _ _ _ r q) =
      if l.bounds == r.bounds then ok (binary id k a (specs_join l r) (p ++ q)) else err unsupported
  disjoin id a (binary _ k _ l p) (unary _ _ _ r) = err null_dereference
  disjoin id a (binary _ k _ l p) (chain _ _ _ r _) = err null_dereference
  disjoin id a (unary _ k _ l) (unary _ _ _ r) =
      if l.bounds == r.bounds then ok (unary id k a (specs_join l r)) else err unsupported
  disjoin id a (unary _ k _ l) (binary _ _ _ r q) = err null_dereference
  disjoin id a (unary _ k _ l) (chain _ _ _ r _) = err null_dereference
  disjoin id a (chain _ _ _ l _) _ = err bug

  -- dynamic_cast<taptenc::UnaryInfo &>
  unfoldable pub cast_unary : Info B N G → Result (TargetSpecs B G)
  cast_unary (unary _ _ _ s) = ok s
  cast_unary (binary _ _ _ _ _) = err bad_cast
  cast_unary (chain _ _ _ _ _) = err bad_cast

  -- dynamic_cast<taptenc::UnaryInfo *>, dereferenced.
  unfoldable pub unary_specs : Info B N G → Result (TargetSpecs B G)
  unary_specs (unary _ _ _ s) = ok s
  unary_specs (binary _ _ _ _ _) = err null_dereference
  unary_specs (chain _ _ _ _ _) = err null_dereference

unfoldable pub unary_type : UnaryOperator → Result IcType
unary_type future = ok IcType.future
unary_type past = ok IcType.past
unary_type next = err unsupported
unary_type previous = err unsupported

unfoldable pub binary_type : BinaryOperator → IcType
binary_type since = IcType.since
binary_type until = IcType.until

module _ {B N G : Type 0} where
  -- The disjunction of two compiled state specs.
  unfoldable pub compile_or :
      ⦃e : Eq B⦄ → String → List N → Info B N G → Info B N G → Result (Info B N G)
  unfolding ic_type_eq type_of disjoin
  compile_or id a tt_lhs tt_rhs =
      if ic_type_eq (type_of tt_lhs) (type_of tt_rhs)
      then disjoin id a tt_lhs tt_rhs
      else err unsupported

  unfoldable pub compile_unary :
      UnaryOperator → B → String → List N → Info B N G → Result (Info B N G)
  unfolding ic_type_eq type_of unary_specs unary_type
  compile_unary op bounds id a tt_subj =
      if ic_type_eq (type_of tt_subj) no_op
      then (do
        tt_type ← unary_type op
        specs ← unary_specs tt_subj
        ok (unary id tt_type a (record specs { bounds = bounds })))
      else err unsupported

  abbrev pub both_no_op : Info B N G → Info B N G → Bool
  unfolding ic_type_eq type_of
  both_no_op l r = ic_type_eq (type_of l) no_op && ic_type_eq (type_of r) no_op

  unfoldable pub compile_binary :
      BinaryOperator → String → List N → Info B N G → Info B N G → Result (Info B N G)
  unfolding cast_unary binary_type
  compile_binary op id a tt_lhs tt_rhs =
      if both_no_op tt_lhs tt_rhs
      then (do
        tt_ui_lhs ← cast_unary tt_lhs
        tt_ui_rhs ← cast_unary tt_rhs
        ok (binary id (binary_type op) a tt_ui_rhs tt_ui_lhs.targets))
      else err unsupported

  unfoldable pub compile_or_chain :
      String → List N → List N → Info B N G → Info B N G → Result (Info B N G)
  unfolding cast_unary
  compile_or_chain id a a_end tt_lhs tt_rhs =
      if both_no_op tt_lhs tt_rhs
      then (do
        u_lhs ← cast_unary tt_lhs
        u_rhs ← cast_unary tt_rhs
        ok (chain id until_chain a (specs_join u_lhs u_rhs ∷ []) a_end))
      else err unsupported

-- taptenc::Bounds, default constructed (`unbounded`), from the operator's two durations
-- (`make_bounds`), and compared; the semantics of a state (`compile_state`).
module _ {B N G C S T : Type 0} (unbounded : B) (make_bounds : T → T → B) (compile_state : S → G)
    ⦃e : Eq B⦄ where
  unfoldable pub compile : String → List N → StateSpec C S T → Result (Info B N G)
  unfolding compile_or compile_unary compile_binary
  compile id a (state_assertion c s) =
      ok (unary id no_op a (record { bounds = unbounded; targets = compile_state s ∷ [] }))
  compile id a (boolean l or r) = do
    tt_lhs ← compile id a l
    tt_rhs ← compile id a r
    compile_or id a tt_lhs tt_rhs
  compile id a (boolean l and r) = err unsupported
  compile id a (temporal_unary op lo hi s) = do
    tt_subj ← compile id a s
    compile_unary op (make_bounds lo hi) id a tt_subj
  -- The operator's bounds are not read.
  compile id a (temporal_binary l op lo hi r) = do
    tt_lhs ← compile id a l
    tt_rhs ← compile id a r
    compile_binary op id a tt_lhs tt_rhs

  unfoldable pub compile_chain : String → List N → List N → StateSpec C S T → Result (Info B N G)
  unfolding compile compile_or_chain
  compile_chain id a a_end (state_assertion c s) = ok (
      chain id until_chain a (record { bounds = unbounded; targets = compile_state s ∷ [] } ∷ [])
        a_end)
  compile_chain id a a_end (boolean l or r) = do
    tt_lhs ← compile id a l
    tt_rhs ← compile id a r
    compile_or_chain id a a_end tt_lhs tt_rhs
  compile_chain id a a_end (boolean l and r) = err unsupported
  compile_chain id a a_end (temporal_unary op lo hi s) = err unsupported
  compile_chain id a a_end (temporal_binary l op lo hi r) = err unsupported

  -- Semantics<Constraint>::compile.
  unfoldable pub compile_constraint :
      (arg_name : ℕ → String) (action_name : String → List String → N)
      → String
      → Constraint C S T
      → Result (Info B N G)
  unfolding is_chain compile_action compile_action_chain compile compile_chain
  compile_constraint arg_name action_name id k =
      if is_chain k.lhs
      then (do
        (activations, activations_end) ← compile_action_chain arg_name action_name k.lhs
        compile_chain id activations activations_end k.rhs)
      else (do
        activations ← compile_action arg_name action_name k.lhs
        compile id activations k.rhs)
