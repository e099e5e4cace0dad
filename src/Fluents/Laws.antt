-- ===== src/Fluents/Laws.antt =====
-- What the initial values of a fluent are (src/model/fluent.cpp).
use Prim.Native.Nat.{◌%◌}
use gologpp.Prelude.{take, ◌≡◌, Bool, true, List, [], ◌∷◌, ◌++◌, length}
use gologpp.Error.{Error, Result, ok}
use gologpp.Fluents.{Param, Argument, constant, InitialValue, Fluent, is_allowed}

module _ {V T O : Type 0} (suits : T → Argument V T O → Result Bool) where
  abbrev pub AreArgs : List (Param T) → List (Argument V T O) → Type 0
  AreArgs [] [] = Unit
  AreArgs [] (a ∷ args) = ⊥
  AreArgs (p ∷ ps) [] = ⊥
  AreArgs (p ∷ ps) (a ∷ args) =
      (suits p.type a ≡ ok true) × (is_allowed p a ≡ true) × AreArgs ps args

  -- The value suits the fluent, and each argument the parameter in its position, which it is or a
  -- value. Of the parameters only so many count as their number is modulo 256.
  abbrev pub IsInitial : Fluent V T O → InitialValue V T O → Type 0
  IsInitial f iv =
      (suits f.type (constant iv.value) ≡ ok true)
      × AreArgs (take (length f.params % 256) f.params) iv.args

  -- The fluent with more initial values.
  abbrev with_values : Fluent V T O → List (InitialValue V T O) → Fluent V T O
  with_values f vs = record f { initial_values = f.initial_values ++ vs }
