-- ===== src/Taptenc/Transformation/DomainAction.antt =====
-- The reading of an action that taptenc returns (src/semantics/platform/taptenc/transformation.cpp,
-- parse_domain_action).
use mathlib.Core.List.{append_assoc}
use gologpp.Prelude.{
  ℕ, zero, suc, ◌+◌, ◌≤◌, ◌<◌, ◌≡◌, sym, refl, ap, ◌∙◌, Bool, true, Option, some, List, [], ◌∷◌,
  ◌++◌, length, length-append, eqb, if◌then◌else◌, arith, All,
}
use gologpp.Error.{ok, ◌>>=◌}
use gologpp.Execution.Activity.{Hook, start, end, fail, cancel, finish}
use gologpp.Strings.{Bytes, npos, add_size, sub_size, find, substr, bytes_Eq, bytes_eq}
use gologpp.Strings.Laws.{
  Absent, find-append, find-none, find-split, substr-append, substr-rest, substr-split,
  substr-after, size-ne-npos,
}
use gologpp.Taptenc.Transformation.{
  Storage, Separators, retrieve_arg, hook_text, read_hook, read_args, parse_domain_action,
}
use gologpp.Taptenc.Transformation.Arguments.{Stands}

-- The symbols of arguments, with a separator between two.
unfoldable pub join : ℕ → List Bytes → Bytes
join c [] = []
join c (x ∷ []) = x
join c (x ∷ y ∷ xs) = x ++ c ∷ join c (y ∷ xs)

-- `<hook>G<name>(<arguments>)`, with taptenc's separators.
unfoldable pub action_text : Separators → Hook → Bytes → List Bytes → Bytes
unfolding join hook_text
action_text sep h name syms =
    hook_text h
    ++ b'G' ∷ (name ++ sep.open_bracket ∷ (join sep.var_sep syms ++ sep.closed_bracket ∷ []))

-- A symbol that is not empty and has no separator in it.
abbrev pub IsSymbol : ℕ → Bytes → Type 0
IsSymbol c x = (1 ≤ length x) × Absent c x

module _ {V : Type 0} (sep : Separators) (s : Storage V) where
  read_args-nil : (fuel : ℕ) → read_args sep s fuel [] ≡ ok []
  unfolding read_args
  read_args-nil zero = refl
  read_args-nil (suc fuel) = refl

  read_args-step :
      (fuel : ℕ) (argstr head rest : Bytes) (v : V)
      → 1 ≤ length argstr
      → substr 0 (find sep.var_sep 0 argstr) argstr ≡ ok head
      → retrieve_arg s head ≡ ok v
      → (if eqb (find sep.var_sep 0 argstr) npos
          then ok []
          else substr (add_size (find sep.var_sep 0 argstr) 1) npos argstr)
        ≡ ok rest
      → read_args sep s (suc fuel) argstr ≡ (read_args sep s fuel rest >>= λ vs. ok (v ∷ vs))
  unfolding read_args
  read_args-step fuel [] head rest v h p q r = absurd (omega arith)
  read_args-step fuel (c ∷ cs) head rest v h p q r = rw (p, q, r)

  read_args-join :
      (fuel : ℕ) (syms : List Bytes) (vs : List V)
      → All (IsSymbol sep.var_sep) syms
      → Stands s syms vs
      → length (join sep.var_sep syms) ≤ fuel
      → length (join sep.var_sep syms) < npos
      → read_args sep s fuel (join sep.var_sep syms) ≡ ok vs
  unfolding join
  read_args-join fuel [] [] a st f n = read_args-nil fuel
  read_args-join fuel [] (v ∷ vs) a st f n = elim st [ ]
  read_args-join fuel (x ∷ syms) [] a st f n = elim st [ ]
  read_args-join zero (x ∷ []) (v ∷ vs) a st f n = absurd (omega (arith, a.0.0))
  read_args-join zero (x ∷ y ∷ syms) (v ∷ vs) a st f n =
      absurd (omega (arith, a.0.0, length-append x (sep.var_sep ∷ join sep.var_sep (y ∷ syms))))
  read_args-join (suc fuel) (x ∷ []) (v ∷ (w ∷ vs)) a st f n = elim (st.1) [ ]
  read_args-join (suc fuel) (x ∷ []) (v ∷ []) a st f n =
      let at_end = find-none sep.var_sep x a.0.1 in
      read_args-step fuel x x [] v a.0.0 (rw at_end (substr-rest 0 npos [] x refl (omega arith)))
        st.0 (rw at_end refl)
      ∙ rw (read_args-nil fuel)
  read_args-join (suc fuel) (x ∷ y ∷ syms) (v ∷ vs) a st f n =
      let c = sep.var_sep in
      let rest = join c (y ∷ syms) in
      let whole = length-append x (c ∷ rest) in
      let at_sep = find-append c x rest a.0.1 in
      read_args-step fuel (x ++ c ∷ rest) x rest v (omega (arith, whole, a.0.0))
        (rw at_sep (substr-append 0 (length x) [] x (c ∷ rest) refl refl)) st.0
        (rw at_sep (
          rw (size-ne-npos (length x) (omega (arith, whole)))
            (substr-after (length x) c x rest refl n)))
      ∙ rw
          (read_args-join fuel (y ∷ syms) vs a.1 st.1 (omega (arith, whole)) (omega (arith, whole)))

  -- Where the parts of the text stand.
  module _ (h : Hook) (name : Bytes) (syms : List Bytes) where
    abbrev front : Bytes
    front = hook_text h

    abbrev inner : Bytes
    inner = join sep.var_sep syms

    abbrev text : Bytes
    text = action_text sep h name syms

    -- The brackets are not in what stands before them, and the text is shorter than npos.
    pub record IsReadable : Type 0 where
      pub before_open : Absent sep.open_bracket (hook_text h ++ b'G' ∷ name)
      pub before_closed :
          Absent sep.closed_bracket (hook_text h ++ b'G' ∷ (name ++ sep.open_bracket ∷ inner))
      pub symbols : All (IsSymbol sep.var_sep) syms
      pub fits : length text < npos

hook_text-Absent : (h : Hook) → Absent b'G' (hook_text h)
unfolding hook_text
hook_text-Absent start = (refl, (refl, (refl, (refl, (refl, tt)))))
hook_text-Absent cancel = (refl, (refl, (refl, (refl, (refl, (refl, tt))))))
hook_text-Absent finish = (refl, (refl, (refl, (refl, (refl, (refl, tt))))))
hook_text-Absent fail = (refl, (refl, (refl, (refl, tt))))
hook_text-Absent end = (refl, (refl, (refl, tt)))

read_hook-hook_text : (h : Hook) → read_hook (hook_text h) ≡ some h
unfolding read_hook bytes_eq
read_hook-hook_text start = refl
read_hook-hook_text cancel = refl
read_hook-hook_text finish = refl
read_hook-hook_text fail = refl
read_hook-hook_text end = refl

module _ {V : Type 0} (sep : Separators) (s : Storage V) (h : Hook) (name : Bytes)
    (syms : List Bytes) (r : IsReadable sep s h name syms) where
  abbrev H : Bytes
  H = hook_text h

  abbrev O : ℕ
  O = sep.open_bracket

  abbrev J : Bytes
  J = join sep.var_sep syms

  abbrev rest : Bytes
  rest = J ++ sep.closed_bracket ∷ []

  abbrev t : Bytes
  t = action_text sep h name syms

  at_hook : find b'G' 0 t ≡ length H
  unfolding action_text
  at_hook = find-split b'G' t H (name ++ O ∷ rest) refl (hook_text-Absent h)

  at_open : find O 0 t ≡ length (H ++ b'G' ∷ name)
  unfolding action_text
  at_open =
      find-split O t (H ++ b'G' ∷ name) rest (sym (append_assoc H (b'G' ∷ name) (O ∷ rest)))
        r.before_open

  at_closed : find sep.closed_bracket 0 t ≡ length (H ++ b'G' ∷ (name ++ O ∷ J))
  unfolding action_text
  at_closed =
      find-split sep.closed_bracket t (H ++ b'G' ∷ (name ++ O ∷ J)) []
        (ap (λ l. H ++ b'G' ∷ l) (sym (append_assoc name (O ∷ J) (sep.closed_bracket ∷ [])))
          ∙ sym (append_assoc H (b'G' ∷ (name ++ O ∷ J)) (sep.closed_bracket ∷ [])))
        r.before_closed

  -- The lengths of the parts that end at a bracket.
  to_open : length (H ++ b'G' ∷ name) ≡ length H + 1 + length name
  to_open = omega (arith, length-append H (b'G' ∷ name))

  to_closed : length (H ++ b'G' ∷ (name ++ O ∷ J)) ≡ length H + 2 + length name + length J
  to_closed = omega (arith, length-append H (b'G' ∷ (name ++ O ∷ J)), length-append name (O ∷ J))

  in_range : length H + 3 + length name + length J < npos
  unfolding action_text
  in_range = omega (
    arith,
    r.fits,
    length-append H (b'G' ∷ (name ++ O ∷ rest)),
    length-append name (O ∷ rest),
    length-append J (sep.closed_bracket ∷ []),
  )

  hook_part : substr 0 (length H) t ≡ ok H
  unfolding action_text
  hook_part = substr-split 0 (length H) t [] H (b'G' ∷ (name ++ O ∷ rest)) refl refl refl

  name_part : (n m : ℕ) → n ≡ length H + 1 → m ≡ length name → substr n m t ≡ ok name
  unfolding action_text
  name_part n m p q =
      substr-split n m t (H ++ b'G' ∷ []) name (O ∷ rest)
        (sym (append_assoc H (b'G' ∷ []) (name ++ O ∷ rest)))
        (omega (arith, length-append H (b'G' ∷ []))) q

  args_part : (n m : ℕ) → n ≡ length H + 2 + length name → m ≡ length J → substr n m t ≡ ok J
  unfolding action_text
  args_part n m p q =
      substr-split n m t (H ++ b'G' ∷ (name ++ O ∷ [])) J (sep.closed_bracket ∷ [])
        (ap (λ l. H ++ b'G' ∷ l) (sym (append_assoc name (O ∷ []) rest))
          ∙ sym (append_assoc H (b'G' ∷ (name ++ O ∷ [])) rest))
        (omega (arith, length-append H (b'G' ∷ (name ++ O ∷ [])), length-append name (O ∷ []))) q

  -- The text of an action is read back: its hook, the action of its name, and the values that its
  -- symbols stand for, if the brackets do not occur before their places, the symbols are not empty and
  -- have no separator in them, and the arguments are consistent with the action.
  pub parse_domain_action_lem :
      {A : Type 0} (action : Bytes → Option A) (consistent : A → List V → Bool) (a : A)
      (vs : List V)
      → Stands s syms vs
      → action name ≡ some a
      → consistent a vs ≡ true
      → parse_domain_action sep action consistent s t ≡ ok (h, a, vs)
  unfolding parse_domain_action
  parse_domain_action_lem action consistent a vs st named good =
      let name_at = add_size (length H) 1 in
      let name_size = sub_size (length (H ++ b'G' ∷ name)) name_at in
      let args_at = add_size (length (H ++ b'G' ∷ name)) 1 in
      let args_size = sub_size (length (H ++ b'G' ∷ (name ++ O ∷ J))) args_at in
      rw (
        at_hook,
        at_open,
        at_closed,
        hook_part,
        name_part name_at name_size (omega (arith, in_range)) (omega (arith, in_range, to_open)),
        args_part args_at args_size (omega (arith, in_range, to_open))
            (omega (arith, in_range, to_open, to_closed)),
        read_args-join sep s (length J) syms vs r.symbols st (omega arith)
            (omega (arith, in_range)),
        named,
        good,
        read_hook-hook_text h,
      )
