-- ===== src/Taptenc/Transformation/PlatformAction.antt =====
-- The reading of a platform transition (src/semantics/platform/taptenc/transformation.cpp,
-- parse_platform_action).
use mathlib.Core.List.{append_assoc}
use gologpp.Prelude.{
  ℕ, ◌+◌, ◌<◌, ◌≡◌, sym, refl, ap, ◌∙◌, true, [], ◌∷◌, ◌++◌, length, length-append, beq_refl, arith,
}
use gologpp.Error.{ok}
use gologpp.Strings.{Bytes, npos, add_size, sub_size, find, substr, take, drop, bytes_Eq}
use gologpp.Strings.Laws.{
  Absent, find-append, index-append, drop-append, substr-append, substr-after, size-ne-npos,
}
use gologpp.Taptenc.Transformation.{split_name, parse_platform_action}

-- Component and state, as uppaal_qualified_name puts them together.
abbrev pub qualified : Bytes → Bytes → Bytes
qualified component name = component ++ b'G' ∷ name

split_name-qualified :
    (component name : Bytes)
    → Absent b'G' component
    → length (qualified component name) < npos
    → split_name (qualified component name) ≡ ok (component, name)
unfolding split_name
split_name-qualified component name a h =
    let at_sep = find-append b'G' component name a in
    let whole = length-append component (b'G' ∷ name) in
    rw (
      at_sep,
      size-ne-npos (length component) (omega (arith, whole)),
      substr-append 0 (length component) [] component (b'G' ∷ name) refl refl,
      substr-after (length component) b'G' component name refl h,
    )

-- `find` from a position on.
find-after :
    (c n : ℕ) (xs ys zs : Bytes)
    → n ≡ length xs
    → Absent c ys
    → find c n (xs ++ (ys ++ c ∷ zs)) ≡ n + length ys
unfolding find
find-after c n xs ys zs e a =
    rw e (ground (arith, drop-append xs (ys ++ c ∷ zs), index-append c ys zs a))

-- `<from> -><action>-> <to>`: what stands between the blanks is not read.
abbrev pub transition_text : Bytes → Bytes → Bytes → Bytes
transition_text from act to = from ++ b' ' ∷ (act ++ b' ' ∷ to)

module _ (component from to act : Bytes) (no_blank : Absent b' ' (qualified component from))
    (no_blank' : Absent b' ' act) (no_sep : Absent b'G' component)
    (fits : length (transition_text (qualified component from) act (qualified component to))
      < npos) where
  abbrev F : Bytes
  F = qualified component from

  abbrev T : Bytes
  T = qualified component to

  abbrev t : Bytes
  t = transition_text F act T

  whole : length t ≡ length F + 2 + length act + length T
  whole = omega (arith, length-append F (b' ' ∷ (act ++ b' ' ∷ T)), length-append act (b' ' ∷ T))

  first_blank : find b' ' 0 t ≡ length F
  first_blank = find-append b' ' F (act ++ b' ' ∷ T) no_blank

  split_first : t ≡ (F ++ b' ' ∷ []) ++ (act ++ b' ' ∷ T)
  split_first = sym (append_assoc F (b' ' ∷ []) (act ++ b' ' ∷ T))

  second_blank : find b' ' (add_size (length F) 1) t ≡ length F + 1 + length act
  second_blank =
      ap (find b' ' (add_size (length F) 1)) split_first
      ∙ find-after b' ' (add_size (length F) 1) (F ++ b' ' ∷ []) act T
          (omega (arith, length-append F (b' ' ∷ []), whole, fits)) no_blank'
      ∙ omega (arith, whole, fits)

  from_part : substr 0 (length F) t ≡ ok F
  from_part = substr-append 0 (length F) [] F (b' ' ∷ (act ++ b' ' ∷ T)) refl refl

  split_second : t ≡ (F ++ b' ' ∷ act) ++ b' ' ∷ T
  split_second = sym (append_assoc F (b' ' ∷ act) (b' ' ∷ T))

  to_part : substr (add_size (length F + 1 + length act) 1) npos t ≡ ok T
  to_part =
      ap (substr (add_size (length F + 1 + length act) 1) npos) split_second
      ∙ substr-after (length F + 1 + length act) b' ' (F ++ b' ' ∷ act) T
          (omega (arith, length-append F (b' ' ∷ act)))
          (omega (arith, ap length split_second, fits))

  -- The action's text is cut out too: the position is in range, whatever the length.
  act_part : (m : ℕ) → (s : Bytes) × (substr (add_size (length F) 2) m t ≡ ok s)
  unfolding substr
  act_part m = (take m (drop (add_size (length F) 2) t), ground (arith, whole, fits))

  -- A platform transition, written with the qualified names of two states of a component, is read as the
  -- switch_state action of this component between these states, if no blank and no `G` stands where one
  -- is looked for, and a switch_state action is defined.
  pub parse_platform_action_lem : parse_platform_action true t ≡ ok (component, from, to)
  unfolding parse_platform_action
  parse_platform_action_lem =
      let (s_act, e) = act_part (sub_size (sub_size (length F + 1 + length act) 4) (length F)) in
      rw (
        first_blank,
        second_blank,
        size-ne-npos (length F) (omega (arith, whole, fits)),
        size-ne-npos (length F + 1 + length act) (omega (arith, whole, fits)),
        from_part,
        e,
        to_part,
        split_name-qualified component from no_sep (omega (arith, whole, fits)),
        split_name-qualified component to no_sep (omega (arith, whole, fits)),
        beq_refl component,
      )
