-- ===== src/Taptenc/Transformation/RoundTrip.antt =====
-- A transition that taptenc is given, and that it gives back, is read as the same transition
-- (src/semantics/platform/taptenc/transformation.cpp, plan_gpp_to_taptenc and parse_domain_action).
use gologpp.Prelude.{
  ℕ, ◌≤◌, ◌<◌, ◌≡◌, refl, Bool, true, false, Option, some, List, [], ◌∷◌, ◌++◌, length, Eq, eqb,
  eqb_iff, leb, ◌&&◌, ◌||◌, Bool-cases, inl, inr, arith, All,
}
use gologpp.Error.{ok}
use gologpp.Execution.Activity.{Hook, start, end, fail, cancel, finish}
use gologpp.Strings.{Bytes, npos}
use gologpp.Strings.Laws.{Absent, Absent-append}
use gologpp.Strings.Decimal.{to_string, to_string-IsDigit, IsDigit}
use gologpp.Taptenc.Transformation.{Storage, Separators, arg, hook_text, parse_domain_action}
use gologpp.Taptenc.Transformation.Arguments.{IsConsistent, Stands, retrieve_arg-lookup}
use gologpp.Taptenc.Transformation.DomainAction.{
  join, action_text, IsSymbol, IsReadable, parse_domain_action_lem,
}

-- A digit, a lowercase letter, or the `G` that ends the hook.
abbrev pub is_word : ℕ → Bool
is_word x = (leb b'0' x && leb x b'9') || ((leb b'a' x && leb x b'z') || eqb x b'G')

-- The separators are none of these, and the bracket that closes differs from the others.
pub record AreSeparators (sep : Separators) : Type 0 where
  pub open_special : is_word sep.open_bracket ≡ false
  pub closed_special : is_word sep.closed_bracket ≡ false
  pub sep_special : is_word sep.var_sep ≡ false
  pub open_closed : eqb sep.open_bracket sep.closed_bracket ≡ false
  pub sep_closed : eqb sep.var_sep sep.closed_bracket ≡ false

abbrev AreWords : Bytes → Type 0
AreWords xs = All (λ x. is_word x ≡ true) xs

word-ne : (x c : ℕ) → is_word x ≡ true → is_word c ≡ false → eqb x c ≡ false
word-ne x c h k = elim (Bool-cases (eqb x c)) [
  | inr other ↦ other
  | inl same ↦ cc (rw ((eqb_iff x c).0 same) at h, k)
]

AreWords-Absent : (c : ℕ) (xs : Bytes) → AreWords xs → is_word c ≡ false → Absent c xs
AreWords-Absent c [] a k = tt
AreWords-Absent c (x ∷ xs) (h, a) k = (word-ne x c h k, AreWords-Absent c xs a k)

digits-AreWords : (xs : Bytes) → All IsDigit xs → AreWords xs
digits-AreWords [] a = tt
digits-AreWords (x ∷ xs) (h, a) = (ground (arith, h.0, h.1), digits-AreWords xs a)

symbol-AreWords : (i : ℕ) → AreWords (arg ++ to_string i)
symbol-AreWords i = (refl, (refl, (refl, digits-AreWords (to_string i) (to_string-IsDigit i))))

hook_text-AreWords : (h : Hook) → AreWords (hook_text h)
unfolding hook_text
hook_text-AreWords start = (refl, (refl, (refl, (refl, (refl, tt)))))
hook_text-AreWords cancel = (refl, (refl, (refl, (refl, (refl, (refl, tt))))))
hook_text-AreWords finish = (refl, (refl, (refl, (refl, (refl, (refl, tt))))))
hook_text-AreWords fail = (refl, (refl, (refl, (refl, tt))))
hook_text-AreWords end = (refl, (refl, (refl, tt)))

join-Absent :
    (c k : ℕ) (syms : List Bytes)
    → All AreWords syms
    → eqb c k ≡ false
    → is_word k ≡ false
    → Absent k (join c syms)
unfolding join
join-Absent c k [] a n w = tt
join-Absent c k (x ∷ []) a n w = AreWords-Absent k x a.0 w
join-Absent c k (x ∷ y ∷ xs) a n w =
    Absent-append k x (c ∷ join c (y ∷ xs)) (AreWords-Absent k x a.0 w)
      (n, join-Absent c k (y ∷ xs) a.1 n w)

symbols-All :
    (c : ℕ) (syms : List Bytes)
    → is_word c ≡ false
    → All AreWords syms
    → All (λ x. 1 ≤ length x) syms
    → All (IsSymbol c) syms
symbols-All c [] k a b = tt
symbols-All c (x ∷ xs) k (h, a) (l, b) = ((l, AreWords-Absent c x h k), symbols-All c xs k a b)

module _ {V : Type 0} ⦃e : Eq V⦄ where
  -- Symbols that stand for values are numbered.
  Stands-AreWords :
      (s : Storage V) (syms : List Bytes) (vs : List V)
      → IsConsistent s
      → Stands s syms vs
      → All AreWords syms × All (λ x. 1 ≤ length x) syms
  Stands-AreWords s [] [] c st = (tt, tt)
  Stands-AreWords s [] (v ∷ vs) c st = elim st [ ]
  Stands-AreWords s (x ∷ xs) [] c st = elim st [ ]
  Stands-AreWords s (x ∷ xs) (v ∷ vs) c (h, st) =
      let (i, lt, same) = c.numbered x v ((retrieve_arg-lookup s x v).0 h) in
      let (words, long) = Stands-AreWords s xs vs c st in
      ((rw same (symbol-AreWords i), words), (rw same (omega arith), long))

  -- The text of a transition with symbols for its arguments is read back as the hook, the action and
  -- the arguments of this transition, if the storage is consistent and the symbols stand for the
  -- arguments in it, taptenc's separators are no digits, lowercase letters or `G` and differ, and the
  -- action's name has no bracket in it, is known, and accepts the arguments.
  pub parse_domain_action-Stands :
      {A : Type 0} (sep : Separators) (action : Bytes → Option A) (consistent : A → List V → Bool)
      (h : Hook) (name : Bytes) (a : A) (syms : List Bytes) (vs : List V) (s : Storage V)
      → IsConsistent s
      → Stands s syms vs
      → AreSeparators sep
      → Absent sep.open_bracket name
      → Absent sep.closed_bracket name
      → length (action_text sep h name syms) < npos
      → action name ≡ some a
      → consistent a vs ≡ true
      → parse_domain_action sep action consistent s (action_text sep h name syms) ≡ ok (h, a, vs)
  parse_domain_action-Stands sep action consistent h name a syms vs s c st q no_open no_closed fits
        named good =
      let (words, long) = Stands-AreWords s syms vs c st in
      let hook = hook_text-AreWords h in
      let O = sep.open_bracket in
      let C = sep.closed_bracket in
      let readable : IsReadable sep s h name syms = record {
        before_open =
            Absent-append O (hook_text h) (b'G' ∷ name)
              (AreWords-Absent O (hook_text h) hook q.open_special)
              (word-ne b'G' O refl q.open_special, no_open);
        before_closed =
            Absent-append C (hook_text h) (b'G' ∷ (name ++ O ∷ join sep.var_sep syms))
              (AreWords-Absent C (hook_text h) hook q.closed_special)
              (
                word-ne b'G' C refl q.closed_special,
                Absent-append C name (O ∷ join sep.var_sep syms) no_closed (
                  q.open_closed,
                  join-Absent sep.var_sep C syms words q.sep_closed q.closed_special,
                ),
              );
        symbols = symbols-All sep.var_sep syms q.sep_special words long;
        fits = fits;
      } in
      parse_domain_action_lem sep s h name syms readable action consistent a vs st named good
