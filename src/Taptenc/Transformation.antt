-- ===== src/Taptenc/Transformation.antt =====
-- TaptencTransformation (src/semantics/platform/taptenc/transformation.cpp): the storage of
-- arguments, the plan that taptenc gets, and the reading of the actions that it returns. Texts are
-- lists of bytes; `V` are values, with their `==`.
pub mod Arguments
pub mod DomainAction
pub mod RoundTrip
pub mod PlatformAction
pub mod Plans
pub mod Tests
use gologpp.Prelude.{
  ℕ, zero, suc, ◌+◌, Bool, true, false, Option, none, some, is_some, List, [], ◌∷◌, ◌++◌, length,
  lookup, assign, Eq, ◌==◌, eqb, ltb, ◌||◌, if◌then◌else◌,
}
use gologpp.Error.{Result, ok, err, bug, user_error, indeterminate, out_of_fuel, unsupported, ◌>>=◌}
use gologpp.Execution.Activity.{Hook, start, end, fail, cancel, finish}
use gologpp.Strings.{Bytes, npos, add_size, sub_size, find, substr, bytes_Eq}
use gologpp.Strings.Decimal.{to_string}

-- arg_to_sym_ and sym_to_arg_.
pub record Storage (V : Type 0) : Type 0 where
  pub arg_to_sym : List (V × Bytes)
  pub sym_to_arg : List (Bytes × V)

abbrev pub arg : Bytes
arg = b'a' ∷ b'r' ∷ b'g' ∷ []

-- std::unordered_map::insert: what is there stays.
unfoldable pub insert {ℓ κ} :
    {K : Type ℓ} {A : Type κ} ⦃e : Eq K⦄ → K → A → List (K × A) → List (K × A)
unfolding lookup assign
insert k a m = if is_some (lookup k m) then m else assign k a m

module _ {V : Type 0} where
  -- TaptencTransformation::transform clears both.
  abbrev pub empty_storage : Storage V
  empty_storage = record { arg_to_sym = []; sym_to_arg = [] }

  unfoldable pub store_arg : ⦃e : Eq V⦄ → V → Storage V → Bytes × Storage V
  unfolding lookup insert to_string
  store_arg v s = elim (lookup v s.arg_to_sym) [
    | some sym ↦ (sym, s)
    | none ↦
        let rv = arg ++ to_string (length s.arg_to_sym) in
        (
          rv,
          record { arg_to_sym = insert v rv s.arg_to_sym; sym_to_arg = insert rv v s.sym_to_arg },
        )
  ]

  unfoldable pub retrieve_arg : Storage V → Bytes → Result V
  unfolding lookup
  retrieve_arg s sym = elim (lookup sym s.sym_to_arg) [ none ↦ err bug | some v ↦ ok v ]

  -- The loop over the arguments of a transition.
  unfoldable pub store_args : ⦃e : Eq V⦄ → List V → Storage V → List Bytes × Storage V
  unfolding store_arg
  store_args [] s = ([], s)
  store_args (v ∷ vs) s =
      let (sym, s') = store_arg v s in let (syms, s'') = store_args vs s' in (sym ∷ syms, s'')

-- taptenc's OPEN_BRACKET, CLOSED_BRACKET and VAR_SEP, one byte each.
pub record Separators : Type 0 where
  pub open_bracket : ℕ
  pub closed_bracket : ℕ
  pub var_sep : ℕ

unfoldable pub hook_text : Hook → Bytes
hook_text start = b's' ∷ b't' ∷ b'a' ∷ b'r' ∷ b't' ∷ []
hook_text cancel = b'c' ∷ b'a' ∷ b'n' ∷ b'c' ∷ b'e' ∷ b'l' ∷ []
hook_text finish = b'f' ∷ b'i' ∷ b'n' ∷ b'i' ∷ b's' ∷ b'h' ∷ []
hook_text fail = b'f' ∷ b'a' ∷ b'i' ∷ b'l' ∷ []
hook_text end = b'e' ∷ b'n' ∷ b'd' ∷ []

-- The hook of a text: the variable is left uninitialised when none fits.
unfoldable pub read_hook : Bytes → Option Hook
unfolding hook_text
read_hook s =
    if s == hook_text start
    then some start
    else if s == hook_text end
    then some end
    else if s == hook_text fail
    then some fail
    else if s == hook_text cancel
    then some cancel
    else if s == hook_text finish
    then some finish
    else none

module _ {V : Type 0} (sep : Separators) (s : Storage V) where
  -- The loop over the text of the arguments.
  unfoldable pub read_args : ℕ → Bytes → Result (List V)
  read_args fuel [] = ok []
  read_args zero (c ∷ argstr) = err out_of_fuel
  read_args (suc fuel) (c ∷ argstr) =
      let arg_sep = find sep.var_sep 0 (c ∷ argstr) in
      substr 0 arg_sep (c ∷ argstr) >>= λ head. retrieve_arg s head >>= λ v.
      (if eqb arg_sep npos then ok [] else substr (add_size arg_sep 1) npos (c ∷ argstr))
      >>= λ rest. read_args fuel rest >>= λ vs. ok (v ∷ vs)

-- `A` are actions, which `action` looks up by name; `consistent` is the check of a reference's
-- arguments.
module _ {V A : Type 0} (sep : Separators) (action : Bytes → Option A)
    (consistent : A → List V → Bool) where
  -- parse_domain_action, without the times. A hook that is not initialised is an error of the model.
  unfoldable pub parse_domain_action : Storage V → Bytes → Result (Hook × A × List V)
  parse_domain_action s tt_action =
      let hook_sep = find b'G' 0 tt_action in
      let brace_opn = find sep.open_bracket 0 tt_action in
      let brace_cls = find sep.closed_bracket 0 tt_action in
      let name_at = add_size hook_sep 1 in
      let args_at = add_size brace_opn 1 in
      substr 0 hook_sep tt_action >>= λ hookstr.
      substr name_at (sub_size brace_opn name_at) tt_action >>= λ act_name.
      substr args_at (sub_size brace_cls args_at) tt_action >>= λ argstr.
      read_args sep s (length argstr) argstr >>= λ args. elim (action act_name) [
        | none ↦ err bug
        | some a ↦
            if consistent a args
            then elim (read_hook hookstr) [ none ↦ err indeterminate | some h ↦ ok (h, a, args) ]
            else err user_error
      ]

-- The component and the state of `<component>G<state>`.
unfoldable pub split_name : Bytes → Result (Bytes × Bytes)
split_name s =
    let comp_idx = find b'G' 0 s in
    if eqb comp_idx npos
    then err bug
    else substr 0 comp_idx s >>= λ component.
        substr (add_size comp_idx 1) npos s >>= λ name. ok (component, name)

-- parse_platform_action, without the times: the component and the states of the switch_state action.
-- `defined` is whether there is one. `s_act` is cut out, but not read.
unfoldable pub parse_platform_action : Bool → Bytes → Result (Bytes × Bytes × Bytes)
parse_platform_action defined tt_action =
    let sp1_idx = find b' ' 0 tt_action in
    let sp2_idx = find b' ' (add_size sp1_idx 1) tt_action in
    if eqb sp1_idx npos || eqb sp2_idx npos
    then err bug
    else substr 0 sp1_idx tt_action >>= λ s_from.
        substr (add_size sp1_idx 2) (sub_size (sub_size sp2_idx 4) sp1_idx) tt_action >>= λ s_act.
        substr (add_size sp2_idx 1) npos tt_action >>= λ s_to. split_name s_from >>= λ from.
        split_name s_to >>= λ to.
        if from.0 == to.0 then (if defined then ok (from.0, from.1, to.1) else err bug) else err bug
