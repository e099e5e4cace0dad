-- ===== src/Mapping/Identity.antt =====
-- The mapping that an action has from the start (src/model/mapping.cpp).
use gologpp.Prelude.{
  ◌≡◌, refl, sym, ◌∙◌, inl, inr, String, true, false, Bool-cases, none, List, [], ◌∷◌, ◌++◌, lookup,
  eqb, eqb_iff, ◌==◌, text_eq, All, append_one, append_nil,
}
use gologpp.Error.{ok}
use gologpp.Mapping.{
  Param, Mapped, variable_ref, emplace_all, new_mapping, references, identity, is_covered,
  set_mapping,
}
use gologpp.Mapping.Laws.{lookup-append, missing-none}

-- The parameters have different names.
abbrev pub AreDistinct : List Param → Type 0
AreDistinct [] = Unit
AreDistinct (p ∷ ps) = All (λ q. (p.name == q.name) ≡ false) ps × AreDistinct ps

module _ (O : Type 0) where
  abbrev IsNew : List (String × Mapped O) → Param → Type 0
  IsNew m p = lookup p.name m ≡ none

  IsNew-append :
      (p : Param) (ps : List Param) (m : List (String × Mapped O))
      → All (λ q. (p.name == q.name) ≡ false) ps
      → All (IsNew m) ps
      → All (IsNew (m ++ (p.name, variable_ref p.address) ∷ [])) ps
  IsNew-append p [] m ne all = tt
  IsNew-append p (q ∷ ps) m (n, ne) (one, all) = (
    lookup-append q.name p.name (variable_ref p.address) m ∙ rw (one, n) refl,
    IsNew-append p ps m ne all,
  )

  emplace_all-references :
      (ps : List Param) (m : List (String × Mapped O))
      → AreDistinct ps
      → All (IsNew m) ps
      → emplace_all (references ps) m ≡ m ++ references ps
  unfolding emplace_all references
  emplace_all-references [] m d all = sym (append_nil m)
  emplace_all-references (p ∷ ps) m (ne, d) (one, all) =
      rw (emplace_all, one)
        (emplace_all-references ps (m ++ (p.name, variable_ref p.address) ∷ []) d
            (IsNew-append p ps m ne all)
          ∙ append_one m (p.name, variable_ref p.address) (references ps))

  covered_more :
      (p : Param) (ps qs : List Param)
      → All (λ q. is_covered {O = O} q.address (references ps) ≡ ok true) qs
      → All (λ q. is_covered {O = O} q.address (references (p ∷ ps)) ≡ ok true) qs
  unfolding is_covered references
  covered_more p ps [] all = tt
  covered_more p ps (q ∷ qs) (one, all) = elim (Bool-cases (eqb p.address q.address)) [
    | inl same ↦ (rw same refl, covered_more p ps qs all)
    | inr differ ↦ (rw differ one, covered_more p ps qs all)
  ]

  every_covered :
      (ps : List Param) → All (λ q. is_covered {O = O} q.address (references ps) ≡ ok true) ps
  unfolding is_covered references
  every_covered [] = tt
  every_covered (p ∷ ps) = (
    rw (is_covered, (eqb_iff p.address p.address).1 refl) refl,
    covered_more p ps ps (every_covered ps),
  )

  All-IsNew : (ps : List Param) → All (IsNew []) ps
  unfolding lookup
  All-IsNew [] = tt
  All-IsNew (p ∷ ps) = (refl, All-IsNew ps)

  -- The mapping that an action has from the start is accepted by `set_mapping`, if its parameters
  -- have different names.
  pub set_mapping-identity :
      (name : String) (ps : List Param)
      → AreDistinct ps
      → set_mapping {O = O} ps (identity name ps) ≡ ok (identity name ps)
  unfolding set_mapping identity new_mapping
  set_mapping-identity name ps d =
      rw
        ((missing-none {O = O} ps (emplace_all (references ps) [])).1
          (rw (emplace_all-references ps [] d (All-IsNew ps)) (every_covered ps)))
        refl
