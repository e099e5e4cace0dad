-- ===== src/Strings/Decimal.antt =====
-- std::to_string of a size_t: the decimal digits of a number.
use Prim.Native.Nat.{◌%◌, ◌/◌, ◌*◌}
use mathlib.Core.List.{foldl, foldl-append}
use gologpp.Prelude.{
  ℕ, zero, suc, ◌+◌, ◌-◌, ◌≤◌, ◌<◌, ◌≡◌, sym, ap, ◌∙◌, inl, inr, [], ◌∷◌, ◌++◌, ltb, if◌then◌else◌,
  Bool-cases, arith, All,
}
use gologpp.Strings.{Bytes}

-- The fuel bounds the number of digits.
unfoldable pub digits : ℕ → ℕ → Bytes
digits zero n = []
digits (suc fuel) n =
    let front = digits fuel (n / 10) in
    if ltb n 10 then (b'0' + n) ∷ [] else front ++ (b'0' + n % 10) ∷ []

unfoldable pub to_string : ℕ → Bytes
unfolding digits
to_string n = digits (suc n) n

abbrev read_digit : ℕ → ℕ → ℕ
read_digit acc c = acc * 10 + (c - b'0')

-- The number that digits stand for.
read : Bytes → ℕ
read = foldl read_digit 0

read-digits : (fuel n : ℕ) → n < fuel → read (digits fuel n) ≡ n
unfolding digits read
read-digits zero n h = absurd (omega arith)
read-digits (suc fuel) n h = elim (Bool-cases (ltb n 10)) [
  | inl small ↦ rw small (omega arith)
  | inr large ↦ rw large (
      foldl-append read_digit 0 (digits fuel (n / 10)) ((b'0' + n % 10) ∷ [])
      ∙ rw (read-digits fuel (n / 10) (ground arith)) (omega arith))
]

-- Different numbers have different digits.
pub to_string_inj : (n m : ℕ) → to_string n ≡ to_string m → n ≡ m
unfolding to_string
to_string_inj n m h =
    sym (read-digits (suc n) n (omega arith)) ∙ ap read h ∙ read-digits (suc m) m (omega arith)

abbrev pub IsDigit : ℕ → Type 0
IsDigit c = (b'0' ≤ c) × (c ≤ b'9')

All-snoc : (xs : Bytes) (c : ℕ) → All IsDigit xs → IsDigit c → All IsDigit (xs ++ c ∷ [])
All-snoc [] c a h = (h, tt)
All-snoc (x ∷ xs) c (a, as') h = (a, All-snoc xs c as' h)

digits-IsDigit : (fuel n : ℕ) → All IsDigit (digits fuel n)
unfolding digits
digits-IsDigit zero n = tt
digits-IsDigit (suc fuel) n = elim (Bool-cases (ltb n 10)) [
  | inl small ↦ rw small ((ground arith, ground arith), tt)
  | inr large ↦ rw large (
      All-snoc (digits fuel (n / 10)) (b'0' + n % 10) (digits-IsDigit fuel (n / 10))
        (omega arith, omega arith))
]

pub to_string-IsDigit : (n : ℕ) → All IsDigit (to_string n)
unfolding to_string
to_string-IsDigit n = digits-IsDigit (suc n) n
