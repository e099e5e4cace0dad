-- ===== src/Taptenc/Constraint/Activations.antt =====
-- Semantics<ActionSpec>::compile and compile_chain and is_chain
-- (src/semantics/platform/taptenc/constraint.cpp): the names of the actions that activate a
-- constraint.
use Prim.Native.String.{◌++◌ as push_str}
use gologpp.Prelude.{ℕ, suc, String, Bool, true, false, ◌&&◌, List, [], ◌∷◌, ◌++◌}
use gologpp.Error.{Result, ok, err, unsupported, bad_cast, ◌>>=◌}
use gologpp.Execution.Activity.{Hook, start, end, finish, fail, cancel}
use gologpp.Taptenc.Constraint.{
  BooleanOperator, or, and, Argument, value, expression, ActionPattern, ActionSpec, action_hook,
  during, boolean, temporal_unary, temporal_binary,
}

unfoldable pub hook_name : Hook → String
hook_name start = "start"
hook_name cancel = "cancel"
hook_name finish = "finish"
hook_name fail = "fail"
hook_name end = "end"

unfoldable pub is_or : BooleanOperator → Bool
is_or or = true
is_or and = false

-- Whether `lhs` must be compiled by `compile_chain`.
unfoldable pub is_chain : {T : Type 0} → ActionSpec T → Bool
unfolding is_or
is_chain (action_hook h a) = false
is_chain (during a) = true
is_chain (boolean l op r) = is_or op && is_chain l && is_chain r
is_chain (temporal_unary op lo hi s) = false
is_chain (temporal_binary l op lo hi r) = false

-- `arg_name i` is VAR_PREFIX + "arg" + std::to_string(i), `action_name` is taptenc::ActionName.
-- The loop over `args`, from the counter `i`.
unfoldable pub wildcard_args : (arg_name : ℕ → String) → ℕ → List Argument → Result (List String)
wildcard_args arg_name i [] = ok []
wildcard_args arg_name i (value true ∷ rest) =
    wildcard_args arg_name (suc i) rest >>= λ names. ok (arg_name i ∷ names)
wildcard_args arg_name i (value false ∷ rest) = err unsupported
wildcard_args arg_name i (expression ∷ rest) = err bad_cast

abbrev pub hook_action :
    {N : Type 0} → (String → List String → N) → String → ActionPattern → List String → N
hook_action action_name hook a names = action_name (push_str hook (push_str "G" a.name)) names

module _ {T N : Type 0} (arg_name : ℕ → String) (action_name : String → List String → N) where
  -- The constructors of the semantics of temporal action specs throw, so none of them is compiled.
  unfoldable pub compile_action : ActionSpec T → Result (List N)
  unfolding hook_name wildcard_args
  compile_action (action_hook h a) = wildcard_args arg_name 0 a.args >>= λ names.
      ok (hook_action action_name (hook_name h) a names ∷ [])
  compile_action (during a) = err unsupported
  compile_action (boolean l or r) = do rv ← compile_action l; rhs ← compile_action r; ok (rv ++ rhs)
  compile_action (boolean l and r) = err unsupported
  compile_action (temporal_unary op lo hi s) = err unsupported
  compile_action (temporal_binary l op lo hi r) = err unsupported

  unfoldable pub compile_action_chain : ActionSpec T → Result (List N × List N)
  unfolding wildcard_args
  compile_action_chain (action_hook h a) = err unsupported
  compile_action_chain (during a) = wildcard_args arg_name 0 a.args >>= λ names.
      ok (hook_action action_name "start" a names ∷ [], hook_action action_name "end" a names ∷ [])
  compile_action_chain (boolean l or r) = do
    (rv, rv_end) ← compile_action_chain l
    (rhs, rhs_end) ← compile_action_chain r
    ok (rv ++ rhs, rv_end ++ rhs_end)
  compile_action_chain (boolean l and r) = err unsupported
  compile_action_chain (temporal_unary op lo hi s) = err unsupported
  compile_action_chain (temporal_binary l op lo hi r) = err unsupported
