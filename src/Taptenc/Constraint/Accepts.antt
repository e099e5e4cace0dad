-- ===== src/Taptenc/Constraint/Accepts.antt =====
-- The constraints that Semantics<Constraint>::compile accepts
-- (src/semantics/platform/taptenc/constraint.cpp).
use gologpp.Prelude.{
  ℕ, suc, String, ◌≡◌, ◌↔◌, ◌⊎◌, refl, sym, ap, ◌∙◌, true, false, inl, inr, List, [], ◌∷◌, ◌++◌, Eq,
  Bool-cases, arith, All,
}
use gologpp.Error.{ok, bind-ok, ok_inj}
use gologpp.Execution.Activity.{Hook, start, end, finish, fail, cancel}
use gologpp.Taptenc.Constraint.{
  or, and, Argument, value, expression, ActionSpec, action_hook, during, boolean, temporal_unary,
  temporal_binary, Constraint,
}
use gologpp.Taptenc.Constraint.Info.{IcType, Info}
use gologpp.Taptenc.Constraint.Activations.{
  is_or, is_chain, compile_action, compile_action_chain, wildcard_args, hook_name, hook_action,
}
use gologpp.Taptenc.Constraint.Compile.{compile_constraint}
use gologpp.Taptenc.Constraint.Fragment.{IsStates, Fragment, describe}
use gologpp.Taptenc.Constraint.Fragment.Laws.{compile_lem}
use gologpp.Taptenc.Constraint.Fragment.Chain.{compile_chain_lem, describe_chain}

-- The argument is a wildcard.
abbrev pub IsWildcard : Argument → Type 0
IsWildcard a = a ≡ value true

-- Disjunctions of hooks, and of `during`, on actions whose arguments are all wildcards.
abbrev pub IsHooks : {T : Type 0} → ActionSpec T → Type 0
IsHooks (action_hook h a) = All IsWildcard a.args
IsHooks (boolean l or r) = IsHooks l × IsHooks r
IsHooks _ = ⊥

abbrev pub IsDurings : {T : Type 0} → ActionSpec T → Type 0
IsDurings (during a) = All IsWildcard a.args
IsDurings (boolean l or r) = IsDurings l × IsDurings r
IsDurings _ = ⊥

-- One name for each argument, by position.
abbrev pub numbered : (ℕ → String) → ℕ → List Argument → List String
numbered arg_name i [] = []
numbered arg_name i (a ∷ rest) = arg_name i ∷ numbered arg_name (suc i) rest

wildcard_args-ok :
    (arg_name : ℕ → String) (i : ℕ) (args : List Argument) (names : List String)
    → wildcard_args arg_name i args ≡ ok names
    → All IsWildcard args × (names ≡ numbered arg_name i args)
unfolding wildcard_args
wildcard_args-ok arg_name i [] names h = (tt, sym (ok_inj _ names h))
wildcard_args-ok arg_name i (value true ∷ rest) names h =
    let (tail, et, h1) = bind-ok (wildcard_args arg_name (suc i) rest) _ names h in
    let (w, e) = wildcard_args-ok arg_name (suc i) rest tail et in
    ((refl, w), sym (ok_inj _ names h1) ∙ ap (λ t. arg_name i ∷ t) e)
wildcard_args-ok arg_name i (value false ∷ rest) names h = cc
wildcard_args-ok arg_name i (expression ∷ rest) names h = cc

wildcard_args-All :
    (arg_name : ℕ → String) (i : ℕ) (args : List Argument)
    → All IsWildcard args
    → wildcard_args arg_name i args ≡ ok (numbered arg_name i args)
unfolding wildcard_args
wildcard_args-All arg_name i [] h = refl
wildcard_args-All arg_name i (value true ∷ rest) h =
    rw (wildcard_args-All arg_name (suc i) rest h.1)
wildcard_args-All arg_name i (value false ∷ rest) h = ground (arith, h.0)
wildcard_args-All arg_name i (expression ∷ rest) h = ground (arith, h.0)

-- What taptenc calls the hooks.
abbrev hook_text : Hook → String
hook_text start = "start"
hook_text cancel = "cancel"
hook_text finish = "finish"
hook_text fail = "fail"
hook_text end = "end"

hook_name-hook_text : (h : Hook) → hook_name h ≡ hook_text h
unfolding hook_name
hook_name-hook_text start = refl
hook_name-hook_text cancel = refl
hook_name-hook_text finish = refl
hook_name-hook_text fail = refl
hook_name-hook_text end = refl

module _ {T N : Type 0} (arg_name : ℕ → String) (action_name : String → List String → N) where
  abbrev pub hook_names : ActionSpec T → List N
  hook_names (action_hook h a) =
      hook_action action_name (hook_text h) a (numbered arg_name 0 a.args) ∷ []
  hook_names (boolean l op r) = hook_names l ++ hook_names r
  hook_names _ = []

  -- The names of an end of each `during`, by the hook's name.
  abbrev pub during_names : String → ActionSpec T → List N
  during_names hook (during a) = hook_action action_name hook a (numbered arg_name 0 a.args) ∷ []
  during_names hook (boolean l op r) = during_names hook l ++ during_names hook r
  during_names hook _ = []

  pub compile_action_lem :
      (s : ActionSpec T) (names : List N)
      → (compile_action arg_name action_name s ≡ ok names) ↔ (IsHooks s × (names ≡ hook_names s))
  unfolding compile_action
  compile_action_lem (action_hook h a) names =
      let same =
        ap (λ t. hook_action action_name t a (numbered arg_name 0 a.args) ∷ [])
          (hook_name-hook_text h) in
      (
        (λ e.
            let (args, ea, h1) = bind-ok (wildcard_args arg_name 0 a.args) _ names e in
            let (w, en) = wildcard_args-ok arg_name 0 a.args args ea in
            (
              w,
              sym (ok_inj _ names h1)
                  ∙ ap (λ n. hook_action action_name (hook_name h) a n ∷ []) en
                  ∙ same,
            )),
        λ (w, en). rw (wildcard_args-All arg_name 0 a.args w) (ap ok (same ∙ sym en)),
      )
  compile_action_lem (during a) names = ((λ e. cc), λ (w, en). absurd w)
  compile_action_lem (boolean l and r) names = ((λ e. cc), λ (w, en). absurd w)
  compile_action_lem (boolean l or r) names = (
    (λ e.
        let (rv, el, h1) = bind-ok (compile_action arg_name action_name l) _ names e in
        let (rhs, er, h2) = bind-ok (compile_action arg_name action_name r) _ names h1 in
        let (wl, nl) = (compile_action_lem l rv).0 el in
        let (wr, nr) = (compile_action_lem r rhs).0 er in
        ((wl, wr), sym (ok_inj _ names h2) ∙ cc (nl, nr))),
    λ (w, en).
        rw
          (
            (compile_action_lem l (hook_names l)).1 (w.0, refl),
            (compile_action_lem r (hook_names r)).1 (w.1, refl),
          )
          (ap ok (sym en)),
  )
  compile_action_lem (temporal_unary op lo hi s) names = ((λ e. cc), λ (w, en). absurd w)
  compile_action_lem (temporal_binary l op lo hi r) names = ((λ e. cc), λ (w, en). absurd w)

  pub compile_action_chain_lem :
      (s : ActionSpec T) (names names_end : List N)
      → (compile_action_chain arg_name action_name s ≡ ok (names, names_end))
        ↔ (IsDurings s × (names ≡ during_names "start" s) × (names_end ≡ during_names "end" s))
  unfolding compile_action_chain
  compile_action_chain_lem (during a) names names_end = (
    (λ e.
        let (args, ea, h1) = bind-ok (wildcard_args arg_name 0 a.args) _ (names, names_end) e in
        let (w, en) = wildcard_args-ok arg_name 0 a.args args ea in
        let p = ok_inj _ (names, names_end) h1 in
        (
          w,
          sym (ap (λ q. q.0) p) ∙ ap (λ n. hook_action action_name "start" a n ∷ []) en,
          sym (ap (λ q. q.1) p) ∙ ap (λ n. hook_action action_name "end" a n ∷ []) en,
        )),
    λ (w, es, ee). rw (wildcard_args-All arg_name 0 a.args w) (cc (es, ee)),
  )
  compile_action_chain_lem (action_hook h a) names names_end = ((λ e. cc), λ (w, es, ee). absurd w)
  compile_action_chain_lem (boolean l and r) names names_end = ((λ e. cc), λ (w, es, ee). absurd w)
  compile_action_chain_lem (boolean l or r) names names_end = (
    (λ e.
        let (rv, el, h1) =
          bind-ok (compile_action_chain arg_name action_name l) _ (names, names_end) e in
        let (rhs, er, h2) =
          bind-ok (compile_action_chain arg_name action_name r) _ (names, names_end) h1 in
        let (wl, nl, ml) = (compile_action_chain_lem l rv.0 rv.1).0 el in
        let (wr, nr, mr) = (compile_action_chain_lem r rhs.0 rhs.1).0 er in
        let p = ok_inj _ (names, names_end) h2 in
        ((wl, wr), sym (ap (λ q. q.0) p) ∙ cc (nl, nr), sym (ap (λ q. q.1) p) ∙ cc (ml, mr))),
    λ (w, es, ee).
        rw
          (
            (compile_action_chain_lem l (during_names "start" l) (during_names "end" l)).1
                (w.0, refl, refl),
            (compile_action_chain_lem r (during_names "start" r) (during_names "end" r)).1
                (w.1, refl, refl),
          )
          (cc (es, ee)),
  )
  compile_action_chain_lem (temporal_unary op lo hi s) names names_end =
      ((λ e. cc), λ (w, es, ee). absurd w)
  compile_action_chain_lem (temporal_binary l op lo hi r) names names_end =
      ((λ e. cc), λ (w, es, ee). absurd w)

module _ {T : Type 0} where
  IsHooks-is_chain : (s : ActionSpec T) → IsHooks s → is_chain s ≡ false
  unfolding is_chain is_or
  IsHooks-is_chain (action_hook h a) w = refl
  IsHooks-is_chain (during a) w = absurd w
  IsHooks-is_chain (boolean l or r) w = rw (IsHooks-is_chain l w.0)
  IsHooks-is_chain (boolean l and r) w = absurd w
  IsHooks-is_chain (temporal_unary op lo hi s) w = absurd w
  IsHooks-is_chain (temporal_binary l op lo hi r) w = absurd w

  IsDurings-is_chain : (s : ActionSpec T) → IsDurings s → is_chain s ≡ true
  unfolding is_chain is_or
  IsDurings-is_chain (action_hook h a) w = absurd w
  IsDurings-is_chain (during a) w = refl
  IsDurings-is_chain (boolean l or r) w = rw (IsDurings-is_chain l w.0, IsDurings-is_chain r w.1)
  IsDurings-is_chain (boolean l and r) w = absurd w
  IsDurings-is_chain (temporal_unary op lo hi s) w = absurd w
  IsDurings-is_chain (temporal_binary l op lo hi r) w = absurd w

module _ {B N G C S T : Type 0} (unbounded : B) (make_bounds : T → T → B) (compile_state : S → G)
    (arg_name : ℕ → String) (action_name : String → List String → N) where
  -- A constraint compiles to `i` when `during` activates it and its right-hand side is a disjunction
  -- of states, or when hooks activate it and its right-hand side is in the fragment.
  abbrev pub Accepts : String → Constraint C S T → Info B N G → Type 0
  Accepts id c i =
      (IsDurings c.lhs
        × IsStates c.rhs
        × (i
            ≡ describe_chain unbounded make_bounds compile_state id
                (during_names arg_name action_name "start" c.lhs)
                (during_names arg_name action_name "end" c.lhs) c.rhs))
      ⊎ (IsHooks c.lhs
          × ((k : IcType) × (b : B) × Fragment unbounded make_bounds k b c.rhs
              × (i ≡ describe compile_state id (hook_names arg_name action_name c.lhs) k b c.rhs)))

  compile_constraint-ok :
      ⦃e : Eq B⦄ (id : String) (c : Constraint C S T) (i : Info B N G)
      → compile_constraint unbounded make_bounds compile_state arg_name action_name id c ≡ ok i
      → Accepts id c i
  unfolding compile_constraint
  compile_constraint-ok id c i h = elim (Bool-cases (is_chain c.lhs)) [
    | inl y ↦
        let h' = rw y at h in
        let ((names, names_end), ea, h1) =
          bind-ok (compile_action_chain arg_name action_name c.lhs) _ i h' in
        let (w, es, ee) =
          (compile_action_chain_lem arg_name action_name c.lhs names names_end).0 ea in
        let (s, ei) =
          (compile_chain_lem unbounded make_bounds compile_state id names names_end c.rhs i).0 h1 in
        inl (w, s, cc (ei, es, ee))
    | inr n ↦
        let h' = rw n at h in
        let (names, ea, h1) = bind-ok (compile_action arg_name action_name c.lhs) _ i h' in
        let (w, en) = (compile_action_lem arg_name action_name c.lhs names).0 ea in
        let (k, b, f, ei) =
          (compile_lem unbounded make_bounds compile_state id names c.rhs i).0 h1 in
        inr (w, (k, b, f, ei ∙ ap (λ a. describe compile_state id a k b c.rhs) en))
  ]

  Accepts-compile_constraint :
      ⦃e : Eq B⦄ (id : String) (c : Constraint C S T) (i : Info B N G)
      → Accepts id c i
      → compile_constraint unbounded make_bounds compile_state arg_name action_name id c ≡ ok i
  unfolding compile_constraint
  Accepts-compile_constraint id c i (inl (w, s, ei)) =
      rw
        (
          IsDurings-is_chain c.lhs w,
          (compile_action_chain_lem arg_name action_name c.lhs _ _).1 (w, refl, refl),
        )
        ((compile_chain_lem unbounded make_bounds compile_state id _ _ c.rhs i).1 (s, ei))
  Accepts-compile_constraint id c i (inr (w, (k, b, f, ei))) =
      rw (IsHooks-is_chain c.lhs w, (compile_action_lem arg_name action_name c.lhs _).1 (w, refl))
        ((compile_lem unbounded make_bounds compile_state id _ c.rhs i).1 (k, b, f, ei))

  -- A constraint compiles to `i` exactly when it is accepted with the result `i`: `during` specs
  -- activate it and its right-hand side is a disjunction of states, or hooks activate it and its
  -- right-hand side is in the fragment.
  pub compile_constraint_lem :
      ⦃e : Eq B⦄ (id : String) (c : Constraint C S T) (i : Info B N G)
      → (compile_constraint unbounded make_bounds compile_state arg_name action_name id c ≡ ok i)
        ↔ Accepts id c i
  compile_constraint_lem id c i = (compile_constraint-ok id c i, Accepts-compile_constraint id c i)
