-- ===== src/Types/Termination.antt =====
-- The recursion of `>=` on types ends: the fuel that `ge` gives is enough.
use gologpp.Prelude.{ℕ, zero, suc, ◌+◌, ◌≤◌, String, ◌≡◌, ◌≢◌, refl, Bool, text_eq, arith, inl, inr}
use gologpp.Error.{ok, err, out_of_fuel, Result-cases}
use gologpp.Types.{
  ValueType, undefined_type, predefined, compound_type, list_type, domain_type, Fields, no_fields,
  field, field_type, base_ge, fields_ge, compound_ge, list_ge, type_ge, rank, rank_fields, ge,
}

module _ {S : Type 0} where
  pub rank-pos : (t : ValueType S) → 1 ≤ rank t
  unfolding rank
  rank-pos undefined_type = omega arith
  rank-pos (predefined p) = omega arith
  rank-pos (compound_type c fs) = omega arith
  rank-pos (list_type e) = omega arith
  rank-pos (domain_type d e s) = omega arith

  pub rank-field_type :
      (f : String) (fs : Fields S) (t : ValueType S)
      → field_type f fs ≡ ok t
      → rank t ≤ rank_fields fs
  unfolding field_type rank
  rank-field_type f no_fields t h = cc
  rank-field_type f (field g u fs) t h = ground (arith, rank-field_type f fs t)

module _ {S : Type 0} (subset : S → S → Bool) where
  -- With enough fuel for both, two calls are equal.
  abbrev Agree : ℕ → ℕ → Type 0
  Agree n m =
      (a b : ValueType S)
      → rank a + rank b ≤ n
      → rank a + rank b ≤ m
      → type_ge subset n a b ≡ type_ge subset m a b

  base_ge-Agree :
      (n m : ℕ) (this other : ValueType S)
      → Agree n m
      → rank this + rank other ≤ suc n
      → rank this + rank other ≤ suc m
      → base_ge (type_ge subset n) this other ≡ base_ge (type_ge subset m) this other
  unfolding base_ge rank
  base_ge-Agree n m this undefined_type ih h k = refl
  base_ge-Agree n m this (predefined p) ih h k = refl
  base_ge-Agree n m this (compound_type c fs) ih h k = refl
  base_ge-Agree n m this (list_type e) ih h k = refl
  base_ge-Agree n m this (domain_type d e s) ih h k = ih this e (omega arith) (omega arith)

  fields_ge-Agree :
      (n m : ℕ) (fs os : Fields S)
      → Agree n m
      → rank_fields fs + rank_fields os ≤ n
      → rank_fields fs + rank_fields os ≤ m
      → fields_ge (type_ge subset n) fs os ≡ fields_ge (type_ge subset m) fs os
  unfolding fields_ge rank
  fields_ge-Agree n m no_fields os ih h k = refl
  fields_ge-Agree n m (field f t fs) os ih h k = elim (Result-cases (field_type f os)) [
    | inl (u, e) ↦
        let small = rank-field_type f os u e in
        rw e (
          rw (ih u t (omega (arith, small)) (omega (arith, small)))
            (rw (fields_ge-Agree n m fs os ih (omega arith) (omega arith))))
    | inr (x, e) ↦ rw e
  ]

  pub type_ge-Agree : (n m : ℕ) → Agree n m
  unfolding type_ge compound_ge list_ge rank
  type_ge-Agree zero m a b h k = absurd (omega (arith, rank-pos a))
  type_ge-Agree (suc n) zero a b h k = absurd (omega (arith, rank-pos a))
  type_ge-Agree (suc n) (suc m) undefined_type b h k = refl
  type_ge-Agree (suc n) (suc m) (predefined p) b h k =
      base_ge-Agree n m (predefined p) b (type_ge-Agree n m) h k
  type_ge-Agree (suc n) (suc m) (domain_type d e s) b h k =
      rw (base_ge-Agree n m (domain_type d e s) b (type_ge-Agree n m) h k)
  type_ge-Agree (suc n) (suc m) (list_type e) (list_type e') h k =
      type_ge-Agree n m e e' (omega arith) (omega arith)
  type_ge-Agree (suc n) (suc m) (list_type e) undefined_type h k = refl
  type_ge-Agree (suc n) (suc m) (list_type e) (predefined p) h k = refl
  type_ge-Agree (suc n) (suc m) (list_type e) (compound_type c fs) h k = refl
  type_ge-Agree (suc n) (suc m) (list_type e) (domain_type d e' s) h k = refl
  type_ge-Agree (suc n) (suc m) (compound_type c fs) (compound_type d os) h k =
      fields_ge-Agree n m fs os (type_ge-Agree n m) (omega arith) (omega arith)
  type_ge-Agree (suc n) (suc m) (compound_type c fs) undefined_type h k = refl
  type_ge-Agree (suc n) (suc m) (compound_type c fs) (predefined p) h k = refl
  type_ge-Agree (suc n) (suc m) (compound_type c fs) (list_type e) h k = refl
  type_ge-Agree (suc n) (suc m) (compound_type c fs) (domain_type d e s) h k = refl

  -- It does not end with the fuel used up.
  abbrev Ends : ℕ → Type 0
  Ends n = (a b : ValueType S) → rank a + rank b ≤ n → type_ge subset n a b ≢ err out_of_fuel

  base_ge-Ends :
      (n : ℕ) (this other : ValueType S)
      → Ends n
      → rank this + rank other ≤ suc n
      → base_ge (type_ge subset n) this other ≢ err out_of_fuel
  unfolding base_ge rank
  base_ge-Ends n this undefined_type ih h = cc
  base_ge-Ends n this (predefined p) ih h = cc
  base_ge-Ends n this (compound_type c fs) ih h = cc
  base_ge-Ends n this (list_type e) ih h = cc
  base_ge-Ends n this (domain_type d e s) ih h = ih this e (omega arith)

  field_type-ends : (f : String) (fs : Fields S) → field_type f fs ≢ err out_of_fuel
  unfolding field_type
  field_type-ends f no_fields = cc
  field_type-ends f (field g t fs) = ground (arith, field_type-ends f fs)

  fields_ge-Ends :
      (n : ℕ) (fs os : Fields S)
      → Ends n
      → rank_fields fs + rank_fields os ≤ n
      → fields_ge (type_ge subset n) fs os ≢ err out_of_fuel
  unfolding fields_ge rank
  fields_ge-Ends n no_fields os ih h = cc
  fields_ge-Ends n (field f t fs) os ih h = elim (Result-cases (field_type f os)) [
    | inl (u, e) ↦
        let small = rank-field_type f os u e in
        let first = ih u t (omega (arith, small)) in
        let rest = fields_ge-Ends n fs os ih (omega arith) in rw e (ground (arith, first, rest))
    | inr (x, e) ↦ rw e (ground (arith, field_type-ends f os, e))
  ]

  type_ge-Ends : (n : ℕ) → Ends n
  unfolding type_ge compound_ge list_ge rank
  type_ge-Ends zero a b h = absurd (omega (arith, rank-pos a))
  type_ge-Ends (suc n) undefined_type b h = cc
  type_ge-Ends (suc n) (predefined p) b h = base_ge-Ends n (predefined p) b (type_ge-Ends n) h
  type_ge-Ends (suc n) (domain_type d e s) b h =
      ground (arith, base_ge-Ends n (domain_type d e s) b (type_ge-Ends n) h)
  type_ge-Ends (suc n) (list_type e) (list_type e') h = type_ge-Ends n e e' (omega arith)
  type_ge-Ends (suc n) (list_type e) undefined_type h = cc
  type_ge-Ends (suc n) (list_type e) (predefined p) h = cc
  type_ge-Ends (suc n) (list_type e) (compound_type c fs) h = cc
  type_ge-Ends (suc n) (list_type e) (domain_type d e' s) h = cc
  type_ge-Ends (suc n) (compound_type c fs) (compound_type d os) h =
      fields_ge-Ends n fs os (type_ge-Ends n) (omega arith)
  type_ge-Ends (suc n) (compound_type c fs) undefined_type h = cc
  type_ge-Ends (suc n) (compound_type c fs) (predefined p) h = cc
  type_ge-Ends (suc n) (compound_type c fs) (list_type e) h = cc
  type_ge-Ends (suc n) (compound_type c fs) (domain_type d e s) h = cc

  -- The comparison of two types ends: its fuel is not used up, and more fuel gives the same result.
  pub type_ge-total :
      (n : ℕ) (a b : ValueType S)
      → rank a + rank b ≤ n
      → (type_ge subset n a b ≡ ge subset a b) × (ge subset a b ≢ err out_of_fuel)
  unfolding ge
  type_ge-total n a b h =
      (type_ge-Agree n _ a b h (omega arith), type_ge-Ends (rank a + rank b) a b (omega arith))
