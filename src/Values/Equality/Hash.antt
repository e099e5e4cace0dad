-- ===== src/Values/Equality/Hash.antt =====
-- What `==` on values says of their hash (src/model/value.cpp).
use mathlib.Core.Path.{subst}
use gologpp.Prelude.{
  ℕ, ◌≡◌, refl, ap, ◌∙◌, String, Bool, true, false, none, some, text_eq, eqb, eqb_iff,
  if◌then◌else◌, arith, nat_eq,
}
use gologpp.Error.{Result, ok, bind-ok, ok_inj, ◌>>=◌}
use gologpp.Types.{ge}
use gologpp.Values.{
  Value, value, Representation, atomic, compound_repr, list_repr, Values, no_values, more,
  FieldValues, no_field_values, assigned,
}
use gologpp.Values.Equality.{
  type_le, representation, count_fields, count, find_field, value_eq, repr_eq, fields_eq,
  elements_eq, hash, repr_hash, fields_hash, elements_hash,
}

module _ {A S : Type 0} where
  -- Each entry is the one that is found under its name.
  abbrev pub AreFound : FieldValues A S → FieldValues A S → Type 0
  AreFound no_field_values whole = Unit
  AreFound (assigned f v fs) whole = (find_field f whole ≡ some v) × AreFound fs whole

-- Values that are built alike, and list the fields of a compound value in the same order. A map has
-- one value for a name.
abbrev mutual
  pub AreAligned : {A S : Type 0} → Value A S → Value A S → Type 0
  AreAligned (value t r) (value u s) = AreReprsAligned r s

  pub AreReprsAligned : {A S : Type 0} → Representation A S → Representation A S → Type 0
  AreReprsAligned (atomic a) (atomic b) = Unit
  AreReprsAligned (atomic a) (compound_repr gs) = Unit
  AreReprsAligned (atomic a) (list_repr ws) = Unit
  AreReprsAligned (compound_repr fs) (compound_repr gs) = AreFieldsAligned fs gs × AreFound gs gs
  AreReprsAligned (compound_repr fs) (atomic b) = Unit
  AreReprsAligned (compound_repr fs) (list_repr ws) = Unit
  AreReprsAligned (list_repr vs) (list_repr ws) = AreValuesAligned vs ws
  AreReprsAligned (list_repr vs) (atomic b) = Unit
  AreReprsAligned (list_repr vs) (compound_repr gs) = Unit

  pub AreFieldsAligned : {A S : Type 0} → FieldValues A S → FieldValues A S → Type 0
  AreFieldsAligned no_field_values gs = Unit
  AreFieldsAligned (assigned f v fs) no_field_values = Unit
  AreFieldsAligned (assigned f v fs) (assigned g w gs) =
      (f ≡ g) × AreAligned v w × AreFieldsAligned fs gs

  pub AreValuesAligned : {A S : Type 0} → Values A S → Values A S → Type 0
  AreValuesAligned no_values ws = Unit
  AreValuesAligned (more v vs) no_values = Unit
  AreValuesAligned (more v vs) (more w ws) = AreAligned v w × AreValuesAligned vs ws

if_ok_true :
    (b : Bool) (r : Result Bool)
    → (if b then r else ok false) ≡ ok true
    → (b ≡ true) × (r ≡ ok true)
if_ok_true b r h = ground arith

fields_eq-found :
    {A S : Type 0} (subset : S → S → Bool) (eq_atom : A → A → Bool) (f : String) (v w : Value A S)
    (fs whole : FieldValues A S)
    → find_field f whole ≡ some w
    → fields_eq subset eq_atom (assigned f v fs) whole ≡ ok true
    → (value_eq subset eq_atom v w ≡ ok true) × (fields_eq subset eq_atom fs whole ≡ ok true)
unfolding fields_eq
fields_eq-found subset eq_atom f v w fs whole there h =
    let (same, is_same, h1) =
      bind-ok (value_eq subset eq_atom v w)
        (λ same. if same then fields_eq subset eq_atom fs whole else ok false) true
        (subst
          (λ o.
            elim o [
              | none ↦ ok false
              | some w' ↦ value_eq subset eq_atom v w' >>= λ same.
                  if same then fields_eq subset eq_atom fs whole else ok false
            ]
            ≡ ok true)
          there h) in
    let (good, rest) = if_ok_true same _ h1 in (is_same ∙ ap ok good, rest)

module _ {A S : Type 0} (subset : S → S → Bool) (eq_atom : A → A → Bool) (hash_atom : A → ℕ)
    (combine : ℕ → ℕ → ℕ) (agree : (a b : A) → eq_atom a b ≡ true → hash_atom a ≡ hash_atom b) where
  mutual
    unfolding value_eq hash representation count_fields count

    hash_lem :
        (v w : Value A S)
        → value_eq subset eq_atom v w ≡ ok true
        → AreAligned v w
        → hash hash_atom combine v ≡ hash hash_atom combine w
    hash_lem (value t r) (value u s) h aligned =
        let (above, is_above, h1) = bind-ok (ge subset t u) _ true h in
        let (up, h2) = if_ok_true above _ h1 in
        let (below, is_below, h3) = bind-ok (type_le subset t u) _ true h2 in
        let (down, h4) = if_ok_true below _ h3 in repr_hash_lem r s h4 aligned

    repr_hash_lem :
        (r s : Representation A S)
        → repr_eq subset eq_atom r s ≡ ok true
        → AreReprsAligned r s
        → repr_hash hash_atom combine r ≡ repr_hash hash_atom combine s
    repr_hash_lem (atomic a) (atomic b) h aligned = agree a b (ok_inj (eq_atom a b) true h)
    repr_hash_lem (atomic a) (compound_repr gs) h aligned = cc
    repr_hash_lem (atomic a) (list_repr ws) h aligned = cc
    repr_hash_lem (compound_repr fs) (atomic b) h aligned = cc
    repr_hash_lem (compound_repr fs) (list_repr ws) h aligned = cc
    repr_hash_lem (list_repr vs) (atomic b) h aligned = cc
    repr_hash_lem (list_repr vs) (compound_repr gs) h aligned = cc
    repr_hash_lem (compound_repr fs) (compound_repr gs) h (aligned, found) =
        let (n, h') = if_ok_true (eqb (count_fields fs) (count_fields gs)) _ h in
        fields_hash_lem fs gs gs 0 ((eqb_iff (count_fields fs) (count_fields gs)).0 n) h' aligned
          found
    repr_hash_lem (list_repr vs) (list_repr ws) h aligned =
        let (n, h') = if_ok_true (eqb (count vs) (count ws)) _ h in
        elements_hash_lem vs ws 0 ((eqb_iff (count vs) (count ws)).0 n) h' aligned

    fields_hash_lem :
        (fs gs whole : FieldValues A S) (rv : ℕ)
        → count_fields fs ≡ count_fields gs
        → fields_eq subset eq_atom fs whole ≡ ok true
        → AreFieldsAligned fs gs
        → AreFound gs whole
        → fields_hash hash_atom combine fs rv ≡ fields_hash hash_atom combine gs rv
    fields_hash_lem no_field_values no_field_values whole rv n h aligned found = refl
    fields_hash_lem no_field_values (assigned g w gs) whole rv n h aligned found = ground arith
    fields_hash_lem (assigned f v fs) no_field_values whole rv n h aligned found = ground arith
    fields_hash_lem (assigned f v fs) (assigned g w gs) whole rv n h (f≡g, same_v, aligned)
          (there, found) =
        let (same, rest) = fields_eq-found subset eq_atom f v w fs whole (rw f≡g there) h in
        rw (hash_lem v w same same_v) (
          fields_hash_lem fs gs whole (combine rv (hash hash_atom combine w)) (omega arith) rest
            aligned found)

    elements_hash_lem :
        (vs ws : Values A S) (rv : ℕ)
        → count vs ≡ count ws
        → elements_eq subset eq_atom vs ws ≡ ok true
        → AreValuesAligned vs ws
        → elements_hash hash_atom combine vs rv ≡ elements_hash hash_atom combine ws rv
    elements_hash_lem no_values no_values rv n h aligned = refl
    elements_hash_lem no_values (more w ws) rv n h aligned = ground arith
    elements_hash_lem (more v vs) no_values rv n h aligned = ground arith
    elements_hash_lem (more v vs) (more w ws) rv n h (same_v, aligned) =
        let (same, is_same, h1) = bind-ok (value_eq subset eq_atom v w) _ true h in
        let (good, rest) = if_ok_true same _ h1 in
        rw (hash_lem v w (is_same ∙ ap ok good) same_v) (
          elements_hash_lem vs ws (combine rv (hash hash_atom combine w)) (omega arith) rest
            aligned)

  -- Values that are equal have the same hash, if they list the fields of compound values in the same
  -- order, and the hashes of what is in them agree with their equality.
  pub hash-value_eq :
      (v w : Value A S)
      → value_eq subset eq_atom v w ≡ ok true
      → AreAligned v w
      → hash hash_atom combine v ≡ hash hash_atom combine w
  hash-value_eq v w h aligned = hash_lem v w h aligned
