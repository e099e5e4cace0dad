-- ===== src/Platform/Component/Laws.antt =====
-- What the operations of a component keep, and along which transitions it moves.
use gologpp.Prelude.{
  ℕ, suc, get_elem?, String, ◌≡◌, refl, ap, ◌∙◌, inl, inr, ◌⊎◌, Bool, true, ◌||◌, some, List, [],
  ◌∷◌, ◌++◌, find_if, is_some, length, eqb, ◌==◌, text_eq, Bool-cases, arith,
}
use gologpp.Error.{Result, ok}
use gologpp.Platform.Component.{
  EdgeKind, ordinary, Edge, kind_eq, Component, SwitchEvent, error_state, new_component, has_state,
  find_transition, add_state, exog_state_change, handle_missed_transition, backend_switch_state,
  switch_state,
}

-- The current, the expected and the error state are states of the component.
pub record IsWellFormed (c : Component) : Type 0 where
  pub has_error : has_state error_state c ≡ true
  pub has_current : has_state c.current_state c ≡ true
  pub has_expected : has_state c.expected_state c ≡ true

-- A transition of the component, of the kind `k`, from `s` to `t`.
abbrev pub IsEdge : EdgeKind → String → String → Component → Type 0
IsEdge k s t c =
    (i : ℕ) × (e : Edge) × (get_elem? c.transitions i ≡ some e)
    × (e.kind ≡ k)
    × (e.source ≡ s)
    × (e.target ≡ t)

kind_eq-eq : (k j : EdgeKind) → kind_eq k j ≡ true → k ≡ j
unfolding kind_eq
kind_eq-eq k j h = grind arith

find_if-get_elem? :
    (p : Edge → Bool) (es : List Edge)
    → is_some (find_if p es) ≡ true
    → (i : ℕ) × (e : Edge) × (get_elem? es i ≡ some e) × (p e ≡ true)
find_if-get_elem? p [] h = cc
find_if-get_elem? p (e ∷ es) h = elim (Bool-cases (p e)) [
  | inl y ↦ (0, e, refl, y)
  | inr n ↦ let (i, d, m, q) = find_if-get_elem? p es (ground (arith, n, h)) in (suc i, d, m, q)
]

pub find_transition-IsEdge :
    (k : EdgeKind) (s t : String) (c : Component)
    → is_some (find_transition k s t c) ≡ true
    → IsEdge k s t c
unfolding find_transition
find_transition-IsEdge k s t c h =
    let (i, e, m, q) = find_if-get_elem? _ c.transitions h in
    (
      i,
      e,
      m,
      kind_eq-eq e.kind k (ground (arith, q)),
      (text_eq.beq_iff e.source s).0 (ground (arith, q)),
      (text_eq.beq_iff e.target t).0 (ground (arith, q)),
    )

-- What `switch_state` does when it returns.
pub switch_state_lem :
    (platform : String → String → Result (Unit {0})) (s : String) (c d : Component)
    → switch_state platform s c ≡ ok d
    → IsEdge ordinary c.current_state s c
      × (has_state s c ≡ true)
      × (d.current_state ≡ s)
      × (d.expected_state ≡ s)
      × (d.states ≡ c.states)
      × (d.transitions ≡ c.transitions)
unfolding switch_state backend_switch_state
switch_state_lem platform s c d h =
    let has : has_state s c ≡ true = ground arith in
    let edge : is_some (find_transition ordinary c.current_state s c) ≡ true = ground arith in
    (
      find_transition-IsEdge ordinary c.current_state s c edge,
      has,
      ground arith,
      ground arith,
      ground arith,
      ground arith,
    )

-- `has_state` reads only the list of states.
has_state-cong :
    (s : String) (c d : Component) → c.states ≡ d.states → has_state s c ≡ has_state s d
unfolding has_state
has_state-cong s c d h = ap (λ l. is_some (find_if (λ t. t == s) l)) h

-- The value of a component's state and the list of its states.
pub IsWellFormed-cong :
    (c d : Component)
    → d.states ≡ c.states
    → has_state d.current_state c ≡ true
    → has_state d.expected_state c ≡ true
    → IsWellFormed c
    → IsWellFormed d
IsWellFormed-cong c d s hc he w = record {
  has_error = has_state-cong error_state d c s ∙ w.has_error;
  has_current = has_state-cong d.current_state d c s ∙ hc;
  has_expected = has_state-cong d.expected_state d c s ∙ he;
}

pub new_component-IsWellFormed : (n : String) (b : Bool) → IsWellFormed (new_component n b)
unfolding new_component has_state
new_component-IsWellFormed n b = record {
  has_error = refl;
  has_current = refl;
  has_expected = refl;
}

find_if-append :
    (p : String → Bool) (xs : List String) (y : String)
    → is_some (find_if p (xs ++ y ∷ [])) ≡ (is_some (find_if p xs) || p y)
find_if-append p [] y = ground arith
find_if-append p (x ∷ xs) y = ground (arith, find_if-append p xs y)

has_state-more :
    (t s : String) (c d : Component)
    → d.states ≡ c.states ++ s ∷ []
    → (has_state t c ≡ true) ⊎ (t ≡ s)
    → has_state t d ≡ true
unfolding has_state
has_state-more t s c d h (inl m) =
    ap (λ l. is_some (find_if (λ x. x == t) l)) h
    ∙ find_if-append (λ x. x == t) c.states s
    ∙ ap (λ b. b || s == t) m
has_state-more t s c d h (inr e) =
    ap (λ l. is_some (find_if (λ x. x == t) l)) h
    ∙ find_if-append (λ x. x == t) c.states s
    ∙ ground (arith, text_eq.beq_iff s t, e)

pub add_state-current :
    (s : String) (c d : Component)
    → add_state s c ≡ ok d
    → ((d.current_state ≡ s) × (d.expected_state ≡ s))
      ⊎ ((d.current_state ≡ c.current_state) × (d.expected_state ≡ c.expected_state))
unfolding add_state
add_state-current s c d h = elim (Bool-cases (eqb (length (c.states ++ s ∷ [])) 2)) [
  | inl y ↦ inl (ground (arith, y), ground (arith, y))
  | inr n ↦ inr (ground (arith, n), ground (arith, n))
]

pub add_state-IsWellFormed :
    (s : String) (c d : Component) → add_state s c ≡ ok d → IsWellFormed c → IsWellFormed d
unfolding add_state has_state
add_state-IsWellFormed s c d h w =
    let sts : d.states ≡ c.states ++ s ∷ [] = ground arith in
    elim (add_state-current s c d h) [
      | inl (cur, exp) ↦ record {
        has_error = has_state-more error_state s c d sts (inl w.has_error);
        has_current = has_state-more d.current_state s c d sts (inr cur);
        has_expected = has_state-more d.expected_state s c d sts (inr exp);
      }
      | inr (cur, exp) ↦ record {
        has_error = has_state-more error_state s c d sts (inl w.has_error);
        has_current = has_state-more d.current_state s c d sts (inl (rw cur w.has_current));
        has_expected = has_state-more d.expected_state s c d sts (inl (rw exp w.has_expected));
      }
    ]

pub switch_state-IsWellFormed :
    (platform : String → String → Result (Unit {0})) (s : String) (c d : Component)
    → switch_state platform s c ≡ ok d
    → IsWellFormed c
    → IsWellFormed d
switch_state-IsWellFormed platform s c d h w =
    let (_, has, cur, exp, sts, _) = switch_state_lem platform s c d h in
    IsWellFormed-cong c d sts (rw cur has) (rw exp has) w

pub exog_state_change-IsWellFormed :
    (s : String) (c d : Component) (e : SwitchEvent)
    → exog_state_change s c ≡ ok (d, e)
    → IsWellFormed c
    → IsWellFormed d
unfolding exog_state_change
exog_state_change-IsWellFormed s c d e h w =
    let has : has_state s c ≡ true = ground arith in
    let cur : d.current_state ≡ s = ground arith in
    let exp : d.expected_state ≡ c.expected_state = ground arith in
    IsWellFormed-cong c d (ground arith) (rw cur has) (rw exp w.has_expected) w

pub handle_missed_transition-IsWellFormed :
    (c : Component) → IsWellFormed c → IsWellFormed (handle_missed_transition c)
unfolding handle_missed_transition
handle_missed_transition-IsWellFormed c w =
    let d = handle_missed_transition c in
    let cur : d.current_state ≡ error_state = ground arith in
    let exp : d.expected_state ≡ error_state = ground arith in
    IsWellFormed-cong c d (ground arith) (rw cur w.has_error) (rw exp w.has_error) w
