-- ===== src/Error.antt =====
-- src/model/error.h and the exceptions that src/execution/controller.h and
-- src/model/platform/component.h add. A thrown exception is `err`; its message is dropped.
use gologpp.Prelude.{◌≡◌, refl, ◌⊎◌, inl, inr}

pub data Error : Type 0 where
  lost_transition inconsistent_transition unsupported component_error : Error
  bug user_error type_error redefinition_error no_such_field name_not_mapped : Error
  terminate exog_timeout expression_type_mismatch out_of_range runtime_error : Error
  -- What the source does not check for: a failed cast, a failed boost::get, and a null pointer.
  bad_cast bad_get null_dereference : Error
  -- Not in the source: a recursion that has not ended, with the fuel that it was given.
  out_of_fuel : Error
  -- What the source leaves undefined: a variable that is read before it is initialised.
  indeterminate : Error

pub data Result {ℓ} (A : Type ℓ) : Type ℓ where
  ok : A → Result A
  err : Error → Result A

infixl 5 ◌>>◌ ◌>>=◌
abbrev pub ◌>>=◌ {κ ℓ} : {S : Type κ} {T : Type ℓ} → Result S → (S → Result T) → Result T
err x >>= next = err x
ok s >>= next = next s

abbrev pub ◌>>◌ {κ} : {T : Type κ} → Result (Unit {0}) → Result T → Result T
r >> next = r >>= λ done. next

-- To take apart a sequence that succeeded, or that threw.
pub bind-ok {ℓ κ} :
    {A : Type ℓ} {B : Type κ} (r : Result A) (f : A → Result B) (b : B)
    → (r >>= f) ≡ ok b
    → (a : A) × (r ≡ ok a) × (f a ≡ ok b)
bind-ok (ok a) f b h = (a, refl, h)
bind-ok (err e) f b h = cc

pub bind-err {ℓ κ} :
    {A : Type ℓ} {B : Type κ} (r : Result A) (f : A → Result B) (x : Error)
    → (r >>= f) ≡ err x
    → (r ≡ err x) ⊎ ((a : A) × (r ≡ ok a) × (f a ≡ err x))
bind-err (ok a) f x h = inr (a, refl, h)
bind-err (err e) f x h = inl (cc)

pub ok_inj {ℓ} : {A : Type ℓ} (a b : A) → ok a ≡ ok b → a ≡ b
ok_inj a b h = cc

pub err_inj {ℓ} : (A : Type ℓ) (a b : Error) → ◌≡◌ {A = Result A} (err a) (err b) → a ≡ b
err_inj A a b h = cc

-- To split on a computed result and keep the equation.
pub Result-cases {ℓ} :
    {A : Type ℓ} (r : Result A) → ((a : A) × (r ≡ ok a)) ⊎ ((x : Error) × (r ≡ err x))
Result-cases (ok a) = inl (a, refl)
Result-cases (err x) = inr (x, refl)
