-- ===== src/Plan/Windows.antt =====
-- The windows that `append` and `make_start_slack` give to the instructions of a plan.
use gologpp.Prelude.{
  ◌≡◌, refl, ap, ◌∙◌, inl, inr, true, some, List, [], ◌∷◌, map, All, find_if, if◌then◌else◌, arith,
  Option-cases, Bool-cases, find_if-All, some_inj,
}
use mathlib.Core.List.{reverse, reverse_aux}
use gologpp.Execution.Activity.{is_ending}
use gologpp.Execution.Backend.{Transition}
use gologpp.Plan.Time.{TimeModel, max_of, max_of_bounds}
use gologpp.Plan.{
  Instruction, transition, other, TimedInstruction, Durations, set_earliest, set_latest, starts,
  end_window, previous, sanitize_time_window, append, sanitize_from, make_start_slack,
}

module _ (time : TimeModel) where
  open time use {T, zero_time, le, le_trans}

  -- No action has a negative longest duration, or a longest below its shortest.
  pub record IsRange {R : Type 0} (env : Durations T R) : Type 0 where
    pub nonneg : (r : R) → le zero_time (env.duration r).max ≡ true
    pub ranged : (r : R) → le (env.duration r).min (env.duration r).max ≡ true

  max_of_mono :
      (a b c d : T) → le a c ≡ true → le b d ≡ true → le (max_of time a b) (max_of time c d) ≡ true
  unfolding max_of
  max_of_mono a b c d h k = ground (
    arith,
    max_of_bounds time c d,
    le_trans a c (max_of time c d),
    le_trans b d (max_of time c d),
  )

module _ (time : TimeModel) {R I : Type 0} where
  open time use {T, add, zero_time, le, le_refl, le_trans, le_total, add_mono, le-add}

  -- The window is not empty.
  abbrev pub IsWindow : TimedInstruction T R I → Type 0
  IsWindow i = le i.earliest i.latest ≡ true

  -- Each window begins and ends no earlier than the one before it. The last instruction is first.
  abbrev pub IsOrdered : List (TimedInstruction T R I) → Type 0
  IsOrdered [] = Unit
  IsOrdered (i ∷ []) = Unit
  IsOrdered (i ∷ p ∷ plan) =
      (le p.earliest i.earliest ≡ true) × (le p.latest i.latest ≡ true) × IsOrdered (p ∷ plan)

  module _ (env : Durations T R) where
    -- If a START for its reference is found in front of an ending transition, its window begins at
    -- the larger of the START's earliest time plus the shortest duration and the earliest time
    -- that is given, and ends at the larger of the START's latest time plus the longest duration
    -- and the latest time that is given.
    pub end_window-found :
        (before : List (TimedInstruction T R I)) (t : Transition R) (e l : T)
        (i s : TimedInstruction T R I)
        → find_if (starts time env t) before ≡ some s
        → let w = end_window time env before t e l i in
          (w.earliest ≡ max_of time (add s.earliest (env.duration t.reference).min) e)
          × (w.latest ≡ max_of time (add s.latest (env.duration t.reference).max) l)
    unfolding end_window
    end_window-found before t e l i s h = ground (arith, h)

    end_window-IsAfter :
        (before : List (TimedInstruction T R I)) (t : Transition R) (e l : T)
        (i : TimedInstruction T R I)
        → IsRange time env
        → let w = end_window time env before t e l i in
          (le e w.earliest ≡ true) × (le l w.latest ≡ true)
    unfolding end_window
    end_window-IsAfter before t e l i v = elim (Option-cases (find_if (starts time env t) before)) [
      | inl n ↦
          ground
            (arith, n, le_refl e, le-add l (env.duration t.reference).max, v.nonneg t.reference)
      | inr (s, f) ↦ ground (
        arith,
        f,
        max_of_bounds time (add s.earliest (env.duration t.reference).min) e,
        max_of_bounds time (add s.latest (env.duration t.reference).max) l,
      )
    ]

    end_window-IsWindow :
        (before : List (TimedInstruction T R I)) (t : Transition R) (e l : T)
        (i : TimedInstruction T R I)
        → IsRange time env
        → All IsWindow before
        → le e l ≡ true
        → IsWindow (end_window time env before t e l i)
    unfolding end_window
    end_window-IsWindow before t e l i v a h =
        elim (Option-cases (find_if (starts time env t) before)) [
          | inl n ↦ ground (
            arith,
            n,
            h,
            v.nonneg t.reference,
            le-add l (env.duration t.reference).max,
            le_trans e l (add l (env.duration t.reference).max),
          )
          | inr (s, f) ↦ ground (
            arith,
            f,
            max_of_mono time (add s.earliest (env.duration t.reference).min) e
                (add s.latest (env.duration t.reference).max) l
                (add_mono _ _ _ _ (find_if-All IsWindow (starts time env t) before s a f)
                  (v.ranged t.reference))
                h,
          )
        ]

    sanitize-IsAfter :
        (p i : TimedInstruction T R I) (before : List (TimedInstruction T R I)) (now now' : T)
        → IsRange time env
        → let w = sanitize_time_window time env (p ∷ before) now now' i in
          (le p.earliest w.earliest ≡ true) × (le p.latest w.latest ≡ true)
    unfolding sanitize_time_window
    sanitize-IsAfter p i before now now' v = after i.instruction
      where
        after :
            (n : Instruction R I)
            → let w =
                sanitize_time_window time env
                  (p ∷ before)
                  now
                  now'
                  (record i { instruction = n }) in
              (le p.earliest w.earliest ≡ true) × (le p.latest w.latest ≡ true)
        after (other x) = (le_refl p.earliest, le_refl p.latest)
        after (transition t) = elim (Bool-cases (is_ending t.hook)) [
          | inl e ↦ ground (
            arith,
            e,
            end_window-IsAfter (p ∷ before) t p.earliest p.latest
                (record i { instruction = transition t }) v,
          )
          | inr e ↦ ground (arith, e, le_refl p.earliest, le_refl p.latest)
        ]

    previous-IsWindow :
        (before : List (TimedInstruction T R I)) (now now' : T)
        → All IsWindow before
        → le now now' ≡ true
        → le (previous time env before now now').0 (previous time env before now now').1 ≡ true
    unfolding previous
    previous-IsWindow [] now now' a h = h
    previous-IsWindow (p ∷ before) now now' a h = a.0

    sanitize-IsWindow :
        (before : List (TimedInstruction T R I)) (i : TimedInstruction T R I) (now now' : T)
        → IsRange time env
        → All IsWindow before
        → le now now' ≡ true
        → IsWindow (sanitize_time_window time env before now now' i)
    unfolding sanitize_time_window
    sanitize-IsWindow before i now now' v a h = window i.instruction
      where
        e : T
        e = (previous time env before now now').0

        l : T
        l = (previous time env before now now').1

        window :
            (n : Instruction R I)
            → IsWindow
                (sanitize_time_window time env before now now' (record i { instruction = n }))
        window (other x) = previous-IsWindow before now now' a h
        window (transition t) = elim (Bool-cases (is_ending t.hook)) [
          | inl y ↦ ground (
            arith,
            y,
            end_window-IsWindow before t e l (record i { instruction = transition t }) v a
                (previous-IsWindow before now now' a h),
          )
          | inr y ↦ ground (arith, y, previous-IsWindow before now now' a h)
        ]

    sanitize-instruction :
        (before : List (TimedInstruction T R I)) (i : TimedInstruction T R I) (now now' : T)
        → (sanitize_time_window time env before now now' i).instruction ≡ i.instruction
    unfolding sanitize_time_window
    sanitize-instruction before i now now' = ground arith

    sanitize_from-IsOrdered :
        (before : List (TimedInstruction T R I)) (p : TimedInstruction T R I) (now now' : T)
        (rest : List (TimedInstruction T R I))
        → IsRange time env
        → le now now' ≡ true
        → IsOrdered (p ∷ before)
        → All IsWindow (p ∷ before)
        → IsOrdered (sanitize_from time env (p ∷ before) now now' rest)
          × All IsWindow (sanitize_from time env (p ∷ before) now now' rest)
    unfolding sanitize_from
    sanitize_from-IsOrdered before p now now' [] v h o a = (o, a)
    sanitize_from-IsOrdered before p now now' (i ∷ rest) v h o a =
        let (x, y) = sanitize-IsAfter p i before now now' v in
        sanitize_from-IsOrdered (p ∷ before) (sanitize_time_window time env (p ∷ before) now now' i)
          now now' rest v h (x, y, o) (sanitize-IsWindow (p ∷ before) i now now' v a h, a)

    sanitize_from-instructions :
        (before rest : List (TimedInstruction T R I)) (now now' : T)
        → map (λ j. j.instruction) (sanitize_from time env before now now' rest)
          ≡ reverse_aux (map (λ j. j.instruction) rest) (map (λ j. j.instruction) before)
    unfolding sanitize_from
    sanitize_from-instructions before [] now now' = refl
    sanitize_from-instructions before (i ∷ rest) now now' =
        sanitize_from-instructions (sanitize_time_window time env before now now' i ∷ before) rest
          now now'
        ∙ ap
            (λ n. reverse_aux (map (λ j. j.instruction) rest) (n ∷ map (λ j. j.instruction) before))
            (sanitize-instruction before i now now')

    -- `make_start_slack` keeps the instructions and their order, and gives them windows that are
    -- not empty and are in order, if the clock does not run backwards, the slack is not negative
    -- and the durations are ranges that are not negative.
    pub make_start_slack_lem :
        (slack now now' : T) (plan after : List (TimedInstruction T R I))
        → IsRange time env
        → le now now' ≡ true
        → le zero_time slack ≡ true
        → make_start_slack time env slack now now' plan ≡ some after
        → IsOrdered after
          × All IsWindow after
          × (map (λ j. j.instruction) after ≡ reverse (map (λ j. j.instruction) plan))
    unfolding make_start_slack set_earliest set_latest
    make_start_slack_lem slack now now' [] after v h s e = cc
    make_start_slack_lem slack now now' (i ∷ rest) after v h s e =
        let front : TimedInstruction T R I =
          set_latest time (add now' slack) (set_earliest time now i) in
        let (o, w) =
          sanitize_from-IsOrdered [] front now now' rest v h tt
            (le_trans now now' (add now' slack) h (le-add now' slack s), tt) in
        rw (← some_inj _ _ e) (o, w, sanitize_from-instructions (front ∷ []) rest now now')

    append-default :
        (i : TimedInstruction T R I) (now now' : T) (plan : List (TimedInstruction T R I))
        → i.timepoints_default ≡ true
        → append time env i now now' plan ≡ sanitize_time_window time env plan now now' i ∷ plan
    unfolding append
    append-default i now now' plan d =
        ap (λ b. (if b then sanitize_time_window time env plan now now' i else i) ∷ plan) d

    -- An instruction with a default window that is appended to a plan of windows that are not
    -- empty and in order begins and ends no earlier than the last one, and its window is not
    -- empty, if the clock does not run backwards and the durations are ranges that are not
    -- negative.
    pub append_lem :
        (i : TimedInstruction T R I) (now now' : T) (plan : List (TimedInstruction T R I))
        → IsRange time env
        → le now now' ≡ true
        → i.timepoints_default ≡ true
        → IsOrdered plan
        → All IsWindow plan
        → IsOrdered (append time env i now now' plan)
          × All IsWindow (append time env i now now' plan)
    append_lem i now now' plan v h d o a =
        rw (append-default i now now' plan d)
          (ordered plan o, (sanitize-IsWindow plan i now now' v a h, a))
      where
        ordered :
            (plan : List (TimedInstruction T R I))
            → IsOrdered plan
            → IsOrdered (sanitize_time_window time env plan now now' i ∷ plan)
        ordered [] o = tt
        ordered (p ∷ before) o = let (x, y) = sanitize-IsAfter p i before now now' v in (x, y, o)
