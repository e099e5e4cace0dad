-- ===== src/Plan/Time.antt =====
-- Time points and durations. The source has `double` for both (src/execution/clock.h): what the
-- plans rely on are the order and the monotonicity of addition, which rounding keeps. NaN is
-- excluded.
use gologpp.Prelude.{ℕ, ◌≡◌, ◌+◌, ◌⊎◌, Bool, true, leb, arith, if◌then◌else◌, inl, inr}

pub record TimeModel : Type 1 where
  pub T : Type 0
  pub zero_time : T
  pub add : T → T → T
  -- The literal `n`, in seconds.
  pub seconds : ℕ → T
  pub le : T → T → Bool
  pub le_refl : (a : T) → le a a ≡ true
  pub le_trans : (a b c : T) → le a b ≡ true → le b c ≡ true → le a c ≡ true
  pub le_total : (a b : T) → (le a b ≡ true) ⊎ (le b a ≡ true)
  pub add_mono : (a b c d : T) → le a b ≡ true → le c d ≡ true → le (add a c) (add b d) ≡ true
  pub le-add : (a d : T) → le zero_time d ≡ true → le a (add a d) ≡ true
  pub seconds_nonneg : (n : ℕ) → le zero_time (seconds n) ≡ true

module _ (time : TimeModel) where
  open time use {T, le, le_refl, le_total}

  -- std::max: the second, only if the first is less.
  unfoldable pub max_of : T → T → T
  max_of a b = if le b a then a else b

  pub max_of_bounds : (a b : T) → (le a (max_of a b) ≡ true) × (le b (max_of a b) ≡ true)
  unfolding max_of
  max_of_bounds a b = elim (le_total a b) [
    | inl h ↦ ground (arith, h, le_refl a, le_refl b)
    | inr h ↦ ground (arith, h, le_refl a, le_refl b)
  ]

pub leb_refl : (a : ℕ) → leb a a ≡ true
leb_refl a = ground arith

pub leb_trans : (a b c : ℕ) → leb a b ≡ true → leb b c ≡ true → leb a c ≡ true
leb_trans a b c h k = ground arith

pub leb_total : (a b : ℕ) → (leb a b ≡ true) ⊎ (leb b a ≡ true)
leb_total a b = ground arith

pub leb_add : (a b c d : ℕ) → leb a b ≡ true → leb c d ≡ true → leb (a + c) (b + d) ≡ true
leb_add a b c d h k = ground arith

pub leb-add : (a d : ℕ) → leb 0 d ≡ true → leb a (a + d) ≡ true
leb-add a d h = ground arith

pub leb_zero : (n : ℕ) → leb 0 n ≡ true
leb_zero n = ground arith

-- Whole seconds.
abbrev pub whole_seconds : TimeModel
whole_seconds = record {
  T = ℕ;
  zero_time = 0;
  add = λ a b. a + b;
  seconds = λ n. n;
  le = leb;
  le_refl = leb_refl;
  le_trans = leb_trans;
  le_total = leb_total;
  add_mono = leb_add;
  le-add = leb-add;
  seconds_nonneg = leb_zero;
}
