-- ===== src/Strings.antt =====
-- std::string, as far as the modelled code takes texts apart: find, substr and std::to_string, on the
-- list of the bytes. A size_t has 64 bits, and its operations wrap around.
pub mod Laws
pub mod Decimal
use Prim.Native.Nat.{◌%◌, ◌/◌, ◌^◌}
use gologpp.Prelude.{
  ℕ, zero, suc, ◌+◌, ◌-◌, ◌≡◌, refl, ◌↔◌, ap, Bool, true, false, ◌&&◌, Option, none, some, List, [],
  ◌∷◌, ◌++◌, Eq, eqb, ltb, eqb_iff, length, if◌then◌else◌, arith,
}
use gologpp.Error.{Result, ok, err, out_of_range}

abbrev pub Bytes : Type 0
Bytes = List ℕ

-- std::string::npos, the largest size_t.
abbrev pub npos : ℕ
npos = 2 ^ 64 - 1

abbrev pub add_size : ℕ → ℕ → ℕ
add_size a b = (a + b) % 2 ^ 64

abbrev pub sub_size : ℕ → ℕ → ℕ
sub_size a b = (a + 2 ^ 64 - b) % 2 ^ 64

module _ {ℓ} {A : Type ℓ} where
  unfoldable pub take : ℕ → List A → List A
  take n [] = []
  take zero (x ∷ xs) = []
  take (suc n) (x ∷ xs) = x ∷ take n xs

  unfoldable pub drop : ℕ → List A → List A
  drop n [] = []
  drop zero (x ∷ xs) = x ∷ xs
  drop (suc n) (x ∷ xs) = drop n xs

-- The position of the first `c`.
unfoldable pub index : ℕ → Bytes → Option ℕ
index c [] = none
index c (x ∷ xs) =
    if eqb x c then some 0 else elim (index c xs) [ none ↦ none | some i ↦ some (suc i) ]

-- `s.find(c, pos)`
unfoldable pub find : ℕ → ℕ → Bytes → ℕ
unfolding drop index
find c pos s = elim (index c (drop pos s)) [ none ↦ npos | some i ↦ pos + i ]

-- `s.substr(pos, count)`
unfoldable pub substr : ℕ → ℕ → Bytes → Result Bytes
unfolding take drop
substr pos count s = if ltb (length s) pos then err out_of_range else ok (take count (drop pos s))

unfoldable pub bytes_eq : Bytes → Bytes → Bool
bytes_eq [] [] = true
bytes_eq [] (y ∷ ys) = false
bytes_eq (x ∷ xs) [] = false
bytes_eq (x ∷ xs) (y ∷ ys) = eqb x y && bytes_eq xs ys

pub bytes_eq_iff : (xs ys : Bytes) → (bytes_eq xs ys ≡ true) ↔ (xs ≡ ys)
unfolding bytes_eq
bytes_eq_iff [] [] = ground arith
bytes_eq_iff [] (y ∷ ys) = ground arith
bytes_eq_iff (x ∷ xs) [] = ground arith
bytes_eq_iff (x ∷ xs) (y ∷ ys) = ground (arith, eqb_iff x y, bytes_eq_iff xs ys)

instance abbrev pub bytes_Eq : Eq Bytes
bytes_Eq = record { beq = bytes_eq; beq_iff = bytes_eq_iff }
