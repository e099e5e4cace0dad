-- ===== src/Types/Transitivity.antt =====
-- The order `>=` on types (src/model/types.cpp) is transitive on types with no undefined type and no
-- domain in them.
use Prim.Native.String.{◌++◌, count}
use mathlib.Core.Path.{subst}
use text.Mathlib.TextLemmas.{append_inj, append_assoc}
use gologpp.Prelude.{
  ℕ, zero, suc, ◌+◌, ◌≤◌, String, ◌≡◌, sym, refl, ◌∙◌, Bool, true, false, ◌==◌, text_eq, arith, inl,
  inr, Bool-cases, beq_refl,
}
use gologpp.Error.{ok, ok_inj}
use gologpp.Types.{
  Predefined, bool, number, string, symbol, void, ValueType, undefined_type, predefined,
  compound_type, list_type, domain_type, Fields, no_fields, field, field_type, base_ge, list_ge,
  compound_ge, rank, rank_fields, ge, name, static_name,
}
use gologpp.Types.Termination.{rank-field_type, rank-pos}
use gologpp.Types.Equations.{
  ge-predefined, ge-list, ge-compound, FieldsSuit, compound-ge-FieldsSuit,
}

-- Neither undefined nor a domain, nor is one inside, and no compound type has a predefined name.
abbrev mutual
  pub IsPlain : {S : Type 0} → ValueType S → Type 0
  IsPlain undefined_type = ⊥
  IsPlain (predefined p) = Unit
  IsPlain (compound_type c fs) = ((p : Predefined) → (static_name p == c) ≡ false) × ArePlain fs
  IsPlain (list_type e) = IsPlain e
  IsPlain (domain_type d e s) = ⊥

  pub ArePlain : {S : Type 0} → Fields S → Type 0
  ArePlain no_fields = Unit
  ArePlain (field f t fs) = IsPlain t × ArePlain fs

append-ne-append :
    (x y t s : String) → count x ≡ count y → (x == y) ≡ false → ((x ++ t) == (y ++ s)) ≡ false
append-ne-append x y t s h n = elim (Bool-cases ((x ++ t) == (y ++ s))) [
  | inr e ↦ e
  | inl e ↦
      let same = (append_inj ((text_eq.beq_iff (x ++ t) (y ++ s)).0 e) h).0 in
      cc ((text_eq.beq_iff x y).1 same, n)
]

static_name-ne-list : (p : Predefined) (s : String) → (static_name p == "list[" ++ s) ≡ false
unfolding static_name
static_name-ne-list bool s =
    rw (append_assoc "l" "ist[" s) (append-ne-append "b" "l" "ool" _ refl refl)
static_name-ne-list number s =
    rw (append_assoc "l" "ist[" s) (append-ne-append "n" "l" "umber" _ refl refl)
static_name-ne-list string s =
    rw (append_assoc "l" "ist[" s) (append-ne-append "s" "l" "tring" _ refl refl)
static_name-ne-list symbol s =
    rw (append_assoc "l" "ist[" s) (append-ne-append "s" "l" "ymbol" _ refl refl)
static_name-ne-list void s =
    rw (append_assoc "l" "ist[" s) (append-ne-append "v" "l" "oid" _ refl refl)

module _ {S : Type 0} where
  field_type-IsPlain :
      (f : String) (fs : Fields S) (t : ValueType S)
      → field_type f fs ≡ ok t
      → ArePlain fs
      → IsPlain t
  unfolding field_type
  field_type-IsPlain f no_fields t h a = cc
  field_type-IsPlain f (field g u fs) t h (a, as') = elim (Bool-cases (g == f)) [
    | inl e ↦ subst IsPlain (ok_inj u t (rw e at h)) a
    | inr e ↦ field_type-IsPlain f fs t (rw e at h) as'
  ]

module _ {S : Type 0} (subset : S → S → Bool) where
  -- What is below a predefined type, of the plain ones, is that type.
  predefined-ge :
      (p : Predefined) (b : ValueType S)
      → IsPlain b
      → ge subset (predefined p) b ≡ ok true
      → (q : Predefined) × (b ≡ predefined q) × (static_name p ≡ static_name q)
  unfolding base_ge name
  predefined-ge p undefined_type w h = elim w [ ]
  predefined-ge p (domain_type d e s) w h = elim w [ ]
  predefined-ge p (predefined q) w h = (
    q,
    refl,
    (text_eq.beq_iff (static_name p) (static_name q)).0
        (ground (arith, sym (ge-predefined subset p (predefined q)) ∙ h)),
  )
  predefined-ge p (compound_type c fs) w h =
      let e = rw (w.0 p) at (sym (ge-predefined subset p (compound_type c fs)) ∙ h) in cc e
  predefined-ge p (list_type e) w h =
      let n = static_name-ne-list p (name e ++ "]") in
      let g = rw n at (sym (ge-predefined subset p (list_type e)) ∙ h) in cc g

  list-ge-inv :
      (e b : ValueType S)
      → IsPlain b
      → ge subset (list_type e) b ≡ ok true
      → (u : ValueType S) × (b ≡ list_type u) × (ge subset e u ≡ ok true)
  unfolding list_ge
  list-ge-inv e undefined_type w h = elim w [ ]
  list-ge-inv e (domain_type d u s) w h = elim w [ ]
  list-ge-inv e (predefined q) w h = cc (sym (ge-list subset e (predefined q)) ∙ h)
  list-ge-inv e (compound_type c fs) w h = cc (sym (ge-list subset e (compound_type c fs)) ∙ h)
  list-ge-inv e (list_type u) w h = (u, refl, sym (ge-list subset e (list_type u)) ∙ h)

  compound-ge-inv :
      (c : String) (fs : Fields S) (b : ValueType S)
      → IsPlain b
      → ge subset (compound_type c fs) b ≡ ok true
      → (d : String) × (os : Fields S) × (b ≡ compound_type d os) × FieldsSuit subset fs os
  unfolding compound_ge
  compound-ge-inv c fs undefined_type w h = elim w [ ]
  compound-ge-inv c fs (domain_type d u s) w h = elim w [ ]
  compound-ge-inv c fs (predefined q) w h = cc (sym (ge-compound subset c fs (predefined q)) ∙ h)
  compound-ge-inv c fs (list_type u) w h = cc (sym (ge-compound subset c fs (list_type u)) ∙ h)
  compound-ge-inv c fs (compound_type d os) w h =
      (d, os, refl, (compound-ge-FieldsSuit subset c d fs os).0 h)

  -- The field that answers a field of the first type.
  FieldsSuit-field_type :
      (f : String) (fs os : Fields S) (t : ValueType S)
      → FieldsSuit subset fs os
      → field_type f fs ≡ ok t
      → (u : ValueType S) × (field_type f os ≡ ok u) × (ge subset u t ≡ ok true)
  unfolding field_type
  FieldsSuit-field_type f no_fields os t h e = cc
  FieldsSuit-field_type f (field g v fs) os t ((u, e, e'), h) k = elim (Bool-cases (g == f)) [
    | inl same ↦
        let same' = (text_eq.beq_iff g f).0 same in
        let v' = ok_inj v t (rw same at k) in (u, rw (← same') e, rw (← v') e')
    | inr other ↦ FieldsSuit-field_type f fs os t h (rw other at k)
  ]

  abbrev Transitive : ℕ → Type 0
  Transitive n =
      (a b c : ValueType S)
      → rank a + rank b + rank c ≤ n
      → IsPlain a
      → IsPlain b
      → IsPlain c
      → ge subset a b ≡ ok true
      → ge subset b c ≡ ok true
      → ge subset a c ≡ ok true

  FieldsSuit-trans :
      (n : ℕ) (fs gs hs : Fields S)
      → Transitive n
      → rank_fields fs + rank_fields gs + rank_fields hs ≤ n
      → ArePlain fs
      → ArePlain gs
      → ArePlain hs
      → FieldsSuit subset fs gs
      → FieldsSuit subset gs hs
      → FieldsSuit subset fs hs
  unfolding rank
  FieldsSuit-trans n no_fields gs hs ih r pf pg ph h k = tt
  FieldsSuit-trans n (field f t fs) gs hs ih r (pt, pf) pg ph ((u, e, e'), h) k =
      let (v, i, i') = FieldsSuit-field_type f gs hs u k e in
      let small = rank-field_type f gs u e in
      let small' = rank-field_type f hs v i in
      (
        (
          v,
          i,
          ih v u t (omega (arith, small, small')) (field_type-IsPlain f hs v i ph)
              (field_type-IsPlain f gs u e pg) pt i' e',
        ),
        FieldsSuit-trans n fs gs hs ih (omega arith) pf pg ph h k,
      )

  ge-Transitive : (n : ℕ) → Transitive n
  unfolding base_ge name list_ge rank
  ge-Transitive zero a b c r pa pb pc h k = absurd (omega (arith, rank-pos a))
  ge-Transitive (suc n) undefined_type b c r pa pb pc h k = elim pa [ ]
  ge-Transitive (suc n) (domain_type d e s) b c r pa pb pc h k = elim pa [ ]
  ge-Transitive (suc n) (predefined p) b c r pa pb pc h k =
      let (q, e, e') = predefined-ge p b pb h in
      let (q', i, i') = predefined-ge q c pc (rw e at k) in
      rw i (
        rw (ge-predefined subset p (predefined q')) (rw (e' ∙ i') (rw (beq_refl (static_name q')))))
  ge-Transitive (suc n) (list_type t) b c r pa pb pc h k =
      let (u, e, e') = list-ge-inv t b pb h in
      let (v, i, i') = list-ge-inv u c pc (rw e at k) in
      let r' = rw (e, i) at r in
      rw i (
        ge-list subset t (list_type v)
        ∙ ge-Transitive n t u v (omega arith) pa (rw e at pb) (rw i at pc) e' i')
  ge-Transitive (suc n) (compound_type x fs) b c r pa pb pc h k =
      let (y, gs, e, e') = compound-ge-inv x fs b pb h in
      let (z, hs, i, i') = compound-ge-inv y gs c pc (rw e at k) in
      let pb' = rw e at pb in
      let pc' = rw i at pc in
      let r' = rw (e, i) at r in
      rw i (
        (compound-ge-FieldsSuit subset x z fs hs).1
          (FieldsSuit-trans n fs gs hs (ge-Transitive n) (omega arith) pa.1 pb'.1 pc'.1 e' i'))

  -- `>=` is transitive on plain types: those with neither the undefined type nor a domain in them, whose
  -- compound types do not have the name of a predefined type.
  pub ge_trans :
      (a b c : ValueType S)
      → IsPlain a
      → IsPlain b
      → IsPlain c
      → ge subset a b ≡ ok true
      → ge subset b c ≡ ok true
      → ge subset a c ≡ ok true
  ge_trans a b c = ge-Transitive (rank a + rank b + rank c) a b c (omega arith)
