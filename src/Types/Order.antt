-- ===== src/Types/Order.antt =====
-- The order `>=` on types (src/model/types.cpp) as an order: reflexive on the types that `add_field`
-- builds, and transitive away from the undefined type.
use gologpp.Prelude.{
  suc, String, ◌≡◌, sym, ◌∙◌, Bool, true, false, ◌||◌, ◌==◌, text_eq, arith, beq_refl,
}
use gologpp.Error.{Result, ok, err, Result-cases, ok_inj, ◌>>=◌}
use gologpp.Types.{
  ValueType, undefined_type, predefined, compound_type, list_type, domain_type, Fields, no_fields,
  field, field_type, has_field, add_field, base_ge, list_ge, elements_ge, type_ge, rank, ge, name,
  static_name,
}
use gologpp.Types.Termination.{type_ge-total}
use gologpp.Types.Equations.{ge-predefined, ge-domain, ge-list, FieldsSuit, compound-ge-FieldsSuit}

-- The fields of a compound type have different names.
abbrev mutual
  pub IsWellFormed : {S : Type 0} → ValueType S → Type 0
  IsWellFormed undefined_type = Unit
  IsWellFormed (predefined p) = Unit
  IsWellFormed (compound_type c fs) = AreWellFormed fs
  IsWellFormed (list_type e) = IsWellFormed e
  IsWellFormed (domain_type d e s) = IsWellFormed e

  pub AreWellFormed : {S : Type 0} → Fields S → Type 0
  AreWellFormed no_fields = Unit
  AreWellFormed (field f t fs) = (has_field f fs ≡ false) × IsWellFormed t × AreWellFormed fs

module _ {S : Type 0} where
  -- `add_field` keeps the names of the fields different, throws exactly when the name is taken, and
  -- the field that it adds is found, like those that there were.
  pub add_field_lem :
      (f : String) (t : ValueType S) (fs : Fields S)
      → IsWellFormed t
      → AreWellFormed fs
      → (has_field f fs ≡ true → add_field f t fs ≡ err gologpp.Error.user_error)
        × (has_field f fs ≡ false
            → (gs : Fields S) × (add_field f t fs ≡ ok gs)
              × AreWellFormed gs
              × (field_type f gs ≡ ok t)
              × ((g : String) → (f == g) ≡ false → field_type g gs ≡ field_type g fs))
  unfolding add_field field_type
  add_field_lem f t fs w ws =
      (λ h. rw h, λ h. (field f t fs, rw h, (h, w, ws), rw (beq_refl f), λ g n. rw n))

  field_type-has_field :
      (g f : String) (fs : Fields S) (t : ValueType S)
      → has_field g fs ≡ false
      → field_type f fs ≡ ok t
      → (g == f) ≡ false
  unfolding field_type has_field
  field_type-has_field g f no_fields t n h = cc
  field_type-has_field g f (field j u fs) t n h = ground (
    arith,
    field_type-has_field g f fs t,
    text_eq.beq_iff j f,
    text_eq.beq_iff j g,
    text_eq.beq_iff g f,
  )

module _ {S : Type 0} (subset : S → S → Bool) where
  pub ge-undefined : (o : ValueType S) → ge subset undefined_type o ≡ ok true
  unfolding type_ge rank
  ge-undefined o = sym (type_ge-total subset (suc (rank o)) undefined_type o (omega arith)).0

  pub domain-ge-ok :
      (d : String) (e : ValueType S) (s : S) (o : ValueType S)
      → (b : Bool) × (ge subset (domain_type d e s) o ≡ ok b)
  unfolding base_ge elements_ge
  domain-ge-ok d e s undefined_type = (_, ge-domain subset d e s undefined_type)
  domain-ge-ok d e s (predefined p) = (_, ge-domain subset d e s (predefined p))
  domain-ge-ok d e s (compound_type c fs) = (_, ge-domain subset d e s (compound_type c fs))
  domain-ge-ok d e s (list_type u) = (_, ge-domain subset d e s (list_type u))
  domain-ge-ok d e s (domain_type d' u s') =
      let (b, h) = domain-ge-ok d e s u in
      (b || subset s' s, ge-domain subset d e s (domain_type d' u s') ∙ rw h)

module _ {S : Type 0} (subset : S → S → Bool) (subset_refl : (s : S) → subset s s ≡ true) where
  FieldsSuit-weaken :
      (f : String) (t : ValueType S) (fs os : Fields S)
      → has_field f os ≡ false
      → FieldsSuit subset fs os
      → FieldsSuit subset fs (field f t os)
  unfolding field_type
  FieldsSuit-weaken f t no_fields os n h = tt
  FieldsSuit-weaken f t (field g u fs) os n ((v, e, e'), h) =
      ((v, rw (field_type-has_field f g os v n e) e, e'), FieldsSuit-weaken f t fs os n h)

  mutual
    unfolding base_ge elements_ge list_ge field_type name

    refl-lem : (t : ValueType S) → IsWellFormed t → ge subset t t ≡ ok true
    refl-lem undefined_type w = ge-undefined subset undefined_type
    refl-lem (predefined p) w =
        ge-predefined subset p (predefined p) ∙ rw (beq_refl (static_name p))
    refl-lem (compound_type c fs) w = (compound-ge-FieldsSuit subset c c fs fs).1 (refl-fields fs w)
    refl-lem (list_type e) w = ge-list subset e (list_type e) ∙ refl-lem e w
    refl-lem (domain_type d e s) w =
        let (b, h) = domain-ge-ok subset d e s e in
        ge-domain subset d e s (domain_type d e s) ∙ rw h (ground (arith, subset_refl s))

    refl-fields : (fs : Fields S) → AreWellFormed fs → FieldsSuit subset fs fs
    refl-fields no_fields w = tt
    refl-fields (field f t fs) (n, w, ws) =
        ((t, rw (beq_refl f), refl-lem t w), FieldsSuit-weaken f t fs fs n (refl-fields fs ws))

  -- `>=` is reflexive on types whose fields have different names, if a set is a subset of itself.
  pub ge_refl : (t : ValueType S) → IsWellFormed t → ge subset t t ≡ ok true
  ge_refl t w = refl-lem t w
