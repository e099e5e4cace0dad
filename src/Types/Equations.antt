-- ===== src/Types/Equations.antt =====
-- What `>=` does on each pair of classes, with no fuel in sight (src/model/types.cpp,
-- src/model/domain.cpp).
use gologpp.Prelude.{
  ℕ, suc, ◌+◌, ◌≤◌, String, ◌≡◌, sym, refl, ◌∙◌, ◌↔◌, Bool, true, ◌||◌, text_eq, arith, inl, inr,
  Bool-cases,
}
use gologpp.Error.{ok, Result-cases, ◌>>=◌}
use gologpp.Types.{
  Predefined, ValueType, undefined_type, predefined, compound_type, list_type, domain_type, Fields,
  no_fields, field, field_type, base_ge, fields_ge, compound_ge, list_ge, elements_ge, type_ge,
  rank, rank_fields, ge,
}
use gologpp.Types.Termination.{rank-field_type, type_ge-total}

module _ {S : Type 0} (subset : S → S → Bool) where
  base_ge-fuel :
      (n : ℕ) (this other : ValueType S)
      → rank this + rank other ≤ suc n
      → base_ge (type_ge subset n) this other ≡ base_ge (ge subset) this other
  unfolding base_ge rank
  base_ge-fuel n this undefined_type h = refl
  base_ge-fuel n this (predefined p) h = refl
  base_ge-fuel n this (compound_type c fs) h = refl
  base_ge-fuel n this (list_type e) h = refl
  base_ge-fuel n this (domain_type d e s) h = (type_ge-total subset n this e (omega arith)).0

  fields_ge-fuel :
      (n : ℕ) (fs os : Fields S)
      → rank_fields fs + rank_fields os ≤ n
      → fields_ge (type_ge subset n) fs os ≡ fields_ge (ge subset) fs os
  unfolding fields_ge rank
  fields_ge-fuel n no_fields os h = refl
  fields_ge-fuel n (field f t fs) os h = elim (Result-cases (field_type f os)) [
    | inl (u, e) ↦
        let small = rank-field_type f os u e in
        rw e (
          rw (type_ge-total subset n u t (omega (arith, small))).0
            (rw (fields_ge-fuel n fs os (omega arith))))
    | inr (x, e) ↦ rw e
  ]

  by_step :
      (n : ℕ) (this other : ValueType S)
      → rank this + rank other ≤ suc n
      → ge subset this other ≡ type_ge subset (suc n) this other
  by_step n this other h = sym (type_ge-total subset (suc n) this other h).0

  -- One step of `>=` for each class.
  pub ge-predefined :
      (p : Predefined) (o : ValueType S)
      → ge subset (predefined p) o ≡ base_ge (ge subset) (predefined p) o
  unfolding rank type_ge
  ge-predefined p o =
      by_step (rank o) (predefined p) o (omega arith)
      ∙ base_ge-fuel (rank o) (predefined p) o (omega arith)

  pub ge-domain :
      (d : String) (e : ValueType S) (s : S) (o : ValueType S)
      → ge subset (domain_type d e s) o ≡ (
          base_ge (ge subset) (domain_type d e s) o >>= λ suits.
          ok (suits || elements_ge subset s o))
  unfolding rank type_ge
  ge-domain d e s o =
      by_step (rank e + rank o) (domain_type d e s) o (omega arith)
      ∙ rw (base_ge-fuel (rank e + rank o) (domain_type d e s) o (omega arith))

  pub ge-list : (e o : ValueType S) → ge subset (list_type e) o ≡ list_ge (ge subset) e o
  unfolding rank type_ge list_ge
  ge-list e (list_type e') =
      sym
        (type_ge-total subset (suc (suc (rank e + rank e'))) (list_type e) (list_type e')
          (omega arith)).0
      ∙ (type_ge-total subset (suc (rank e + rank e')) e e' (omega arith)).0
  ge-list e undefined_type = by_step (rank e + 1) (list_type e) undefined_type (omega arith)
  ge-list e (predefined p) = by_step (rank e + 1) (list_type e) (predefined p) (omega arith)
  ge-list e (compound_type c fs) =
      by_step (rank e + suc (rank_fields fs)) (list_type e) (compound_type c fs) (omega arith)
  ge-list e (domain_type d u s) =
      by_step (rank e + suc (rank u)) (list_type e) (domain_type d u s) (omega arith)

  pub ge-compound :
      (c : String) (fs : Fields S) (o : ValueType S)
      → ge subset (compound_type c fs) o ≡ compound_ge (ge subset) fs o
  unfolding rank type_ge compound_ge
  ge-compound c fs (compound_type d os) =
      let n = suc (rank_fields fs + rank_fields os) in
      by_step n (compound_type c fs) (compound_type d os) (omega arith)
      ∙ fields_ge-fuel n fs os (omega arith)
  ge-compound c fs undefined_type =
      by_step (suc (rank_fields fs)) (compound_type c fs) undefined_type (omega arith)
  ge-compound c fs (predefined p) =
      by_step (suc (rank_fields fs)) (compound_type c fs) (predefined p) (omega arith)
  ge-compound c fs (list_type e) =
      by_step (suc (rank_fields fs + rank e)) (compound_type c fs) (list_type e) (omega arith)
  ge-compound c fs (domain_type d e s) =
      by_step (suc (rank_fields fs + rank e)) (compound_type c fs) (domain_type d e s) (omega arith)

  -- Every field of the first has one of its name in the second, of a type that is the larger one.
  abbrev pub FieldsSuit : Fields S → Fields S → Type 0
  FieldsSuit no_fields os = Unit
  FieldsSuit (field f t fs) os =
      ((u : ValueType S) × (field_type f os ≡ ok u) × (ge subset u t ≡ ok true)) × FieldsSuit fs os

  fields_ge→ : (fs os : Fields S) → fields_ge (ge subset) fs os ≡ ok true → FieldsSuit fs os
  unfolding fields_ge
  fields_ge→ no_fields os h = tt
  fields_ge→ (field f t fs) os h = elim (Result-cases (field_type f os)) [
    | inr (x, e) ↦ cc (rw e at h)
    | inl (u, e) ↦
        let rest = rw e at h in
        elim (Result-cases (ge subset u t)) [
          | inr (x, e') ↦ cc (rw e' at rest)
          | inl (b, e') ↦
              let last = rw e' at rest in
              elim (Bool-cases b) [
                | inl yes' ↦ ((u, e, rw e' (rw yes')), fields_ge→ fs os (rw yes' at last))
                | inr no' ↦ cc (rw no' at last)
              ]
        ]
  ]

  →fields_ge : (fs os : Fields S) → FieldsSuit fs os → fields_ge (ge subset) fs os ≡ ok true
  unfolding fields_ge
  →fields_ge no_fields os h = refl
  →fields_ge (field f t fs) os ((u, e, e'), h) = rw e (rw e' (→fields_ge fs os h))

  -- A compound type is `>=` another exactly when each of its fields is a field of the other one too,
  -- whose type there is `>=` its own. The names of the two types do not matter.
  pub compound-ge-FieldsSuit :
      (c d : String) (fs os : Fields S)
      → (ge subset (compound_type c fs) (compound_type d os) ≡ ok true) ↔ FieldsSuit fs os
  unfolding compound_ge
  compound-ge-FieldsSuit c d fs os =
      rw (ge-compound c fs (compound_type d os)) (fields_ge→ fs os, →fields_ge fs os)
