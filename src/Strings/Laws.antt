-- ===== src/Strings/Laws.antt =====
-- Where the first byte of a kind stands in a text that is put together, and what substr cuts out.
use mathlib.Core.List.{append_assoc}
use gologpp.Prelude.{
  ℕ, zero, suc, ◌≤◌, ◌<◌, ◌≡◌, refl, ap, false, none, some, List, [], ◌∷◌, ◌++◌, eqb, length,
  length-append, arith, All,
}
use gologpp.Error.{ok}
use gologpp.Strings.{Bytes, npos, add_size, take, drop, index, find, substr}

-- The byte does not occur in the text.
abbrev pub Absent : ℕ → Bytes → Type 0
Absent c xs = All (λ x. eqb x c ≡ false) xs

pub Absent-append : (c : ℕ) (xs ys : Bytes) → Absent c xs → Absent c ys → Absent c (xs ++ ys)
Absent-append c [] ys a b = b
Absent-append c (x ∷ xs) ys (h, a) b = (h, Absent-append c xs ys a b)

pub index-append : (c : ℕ) (xs ys : Bytes) → Absent c xs → index c (xs ++ c ∷ ys) ≡ some (length xs)
unfolding index
index-append c [] ys a = ground arith
index-append c (x ∷ xs) ys (h, a) = rw h (rw (index-append c xs ys a))

pub index-none : (c : ℕ) (xs : Bytes) → Absent c xs → index c xs ≡ none
unfolding index
index-none c [] a = refl
index-none c (x ∷ xs) (h, a) = rw h (rw (index-none c xs a))

module _ {A : Type 0} where
  pub drop-append : (xs ys : List A) → drop (length xs) (xs ++ ys) ≡ ys
  unfolding drop
  drop-append [] [] = refl
  drop-append [] (y ∷ ys) = refl
  drop-append (x ∷ xs) ys = drop-append xs ys

  pub take-append : (xs ys : List A) → take (length xs) (xs ++ ys) ≡ xs
  unfolding take
  take-append [] [] = refl
  take-append [] (y ∷ ys) = refl
  take-append (x ∷ xs) ys = ap (λ l. x ∷ l) (take-append xs ys)

  pub take-all : (n : ℕ) (xs : List A) → length xs ≤ n → take n xs ≡ xs
  unfolding take
  take-all n [] h = refl
  take-all zero (x ∷ xs) h = absurd (omega arith)
  take-all (suc n) (x ∷ xs) h = ap (λ l. x ∷ l) (take-all n xs (omega arith))

  drop_zero : (xs : List A) → drop 0 xs ≡ xs
  unfolding drop
  drop_zero [] = refl
  drop_zero (x ∷ xs) = refl

-- A text that begins with `xs` and goes on with `c`.
pub find-append : (c : ℕ) (xs ys : Bytes) → Absent c xs → find c 0 (xs ++ c ∷ ys) ≡ length xs
unfolding find
find-append c xs ys a = ground (arith, drop_zero (xs ++ c ∷ ys), index-append c xs ys a)

pub find-none : (c : ℕ) (xs : Bytes) → Absent c xs → find c 0 xs ≡ npos
unfolding find
find-none c xs a = ground (arith, drop_zero xs, index-none c xs a)

-- What stands between two parts of a text.
pub substr-append :
    (n m : ℕ) (xs ys zs : Bytes)
    → n ≡ length xs
    → m ≡ length ys
    → substr n m (xs ++ (ys ++ zs)) ≡ ok ys
unfolding substr
substr-append n m xs ys zs p q =
    rw (p, q, drop-append xs (ys ++ zs), take-append ys zs)
      (ground (arith, length-append xs (ys ++ zs)))

pub substr-rest :
    (n m : ℕ) (xs ys : Bytes) → n ≡ length xs → length ys ≤ m → substr n m (xs ++ ys) ≡ ok ys
unfolding substr
substr-rest n m xs ys p q =
    rw (p, drop-append xs ys, take-all m ys q) (ground (arith, length-append xs ys))

-- The same, for a text that is given with the way it is put together.
pub find-split : (c : ℕ) (s xs ys : Bytes) → s ≡ xs ++ c ∷ ys → Absent c xs → find c 0 s ≡ length xs
find-split c s xs ys e a = rw e (find-append c xs ys a)

pub substr-split :
    (n m : ℕ) (s xs ys zs : Bytes)
    → s ≡ xs ++ (ys ++ zs)
    → n ≡ length xs
    → m ≡ length ys
    → substr n m s ≡ ok ys
substr-split n m s xs ys zs e p q = rw e (substr-append n m xs ys zs p q)

-- What follows the byte at the end of `xs`.
pub substr-after :
    (n : ℕ) (c : ℕ) (xs ys : Bytes)
    → n ≡ length xs
    → length (xs ++ c ∷ ys) < npos
    → substr (add_size n 1) npos (xs ++ c ∷ ys) ≡ ok ys
substr-after n c xs ys e h =
    let whole = length-append xs (c ∷ ys) in
    let front = length-append xs (c ∷ []) in
    rw (← append_assoc xs (c ∷ []) ys) (
      substr-rest (add_size n 1) npos (xs ++ c ∷ []) ys (omega (arith, whole, front))
        (omega (arith, whole)))

pub size-ne-npos : (n : ℕ) → n < npos → eqb n npos ≡ false
size-ne-npos n h = ground arith
