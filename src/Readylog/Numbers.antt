-- ===== src/Readylog/Numbers.antt =====
-- The numbers of a value (src/model/value.h, the alternatives of its representation for NumberType),
-- and the C++ integers that they are converted to. A long has 64 bits.
use Prim.Native.Nat.{◌^◌}
use gologpp.Prelude.{ℕ, ◌-◌, ◌<◌, ◌≡◌, Bool, true, ltb, if◌then◌else◌, arith}

-- `negsuc n` is -(n + 1).
pub data ℤ : Type 0 where
  pos : ℕ → ℤ
  negsuc : ℕ → ℤ

pub data Number (D : Type 0) : Type 0 where
  unsigned_int : ℕ → Number D
  int : ℤ → Number D
  unsigned_long : ℕ → Number D
  long : ℤ → Number D
  floating : D → Number D

-- static_cast<long long> of an unsigned long.
unfoldable pub as_signed : ℕ → ℤ
as_signed n = if ltb n (2 ^ 63) then pos n else negsuc (2 ^ 64 - n - 1)

-- Whether an integer fits into a long.
unfoldable pub fits_long : ℤ → Bool
fits_long (pos n) = ltb n (2 ^ 63)
fits_long (negsuc n) = ltb n (2 ^ 63)

-- The number is one that its alternative can hold; an int has 32 bits.
abbrev pub InRange : {D : Type 0} → Number D → Type 0
InRange (unsigned_int n) = n < 2 ^ 32
InRange (int (pos n)) = n < 2 ^ 31
InRange (int (negsuc n)) = n < 2 ^ 31
InRange (unsigned_long n) = n < 2 ^ 64
InRange (long (pos n)) = n < 2 ^ 63
InRange (long (negsuc n)) = n < 2 ^ 63
InRange (floating d) = Unit

pub as_signed-fits_long : (n : ℕ) → n < 2 ^ 64 → fits_long (as_signed n) ≡ true
unfolding as_signed fits_long
as_signed-fits_long n h = ground arith
