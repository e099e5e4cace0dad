-- ===== src/Platform/Backends.antt =====
-- The components of a PlatformBackend (src/execution/platform_backend.cpp), in the order in which
-- the map of their backends is read.
use gologpp.Prelude.{
  ◌≡◌, refl, ap, inl, inr, arith, Bool-cases, map, text_eq, beq_refl, not, ℕ, ◌+◌, Bool, true,
  false, List, [], ◌∷◌, if◌then◌else◌,
}
use gologpp.Platform.Component.{Component, state_changed_exog, set_current_state}

-- PlatformBackend::any_component_state_changed_exog: the first changed component is reset, and no
-- other.
unfoldable pub any_component_state_changed_exog : List Component → Bool × List Component
unfolding state_changed_exog set_current_state
any_component_state_changed_exog [] = (false, [])
any_component_state_changed_exog (c ∷ cs) =
    let rest = any_component_state_changed_exog cs in
    if state_changed_exog c
    then (true, set_current_state c.current_state c ∷ cs)
    else (rest.0, c ∷ rest.1)

-- How many components have a state that is not the expected one.
abbrev pub changed : List Component → ℕ
changed [] = 0
changed (c ∷ cs) = (if state_changed_exog c then 1 else 0) + changed cs

unchanged : (c : Component) → state_changed_exog (set_current_state c.current_state c) ≡ false
unfolding state_changed_exog set_current_state
unchanged c = ap not (beq_refl c.current_state)

-- The check tells whether any component has changed; it moves none, and resets exactly one of the
-- changed ones: two changed components take two checks.
pub any_component_state_changed_exog_lem :
    (cs : List Component)
    → let (b, ds) = any_component_state_changed_exog cs in
      (changed cs ≡ (if b then 1 else 0) + changed ds)
      × (b ≡ false → changed cs ≡ 0)
      × (map (λ c. c.current_state) ds ≡ map (λ c. c.current_state) cs)
unfolding any_component_state_changed_exog set_current_state
any_component_state_changed_exog_lem [] = (refl, (λ h. refl), refl)
any_component_state_changed_exog_lem (c ∷ cs) = elim (Bool-cases (state_changed_exog c)) [
  | inl y ↦ (ground (arith, y, unchanged c), (λ h. ground (arith, y, h)), rw y refl)
  | inr n ↦
      let (count, none_left, same) = any_component_state_changed_exog_lem cs in
      (
        ground (arith, n, count),
        (λ h. ground (arith, n, none_left, h)),
        rw n (ap (λ l. c.current_state ∷ l) same),
      )
]
