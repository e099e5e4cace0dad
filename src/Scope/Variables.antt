-- ===== src/Scope/Variables.antt =====
-- What `get_var` and `register_identifier` find and define (src/model/scope.cpp,
-- src/model/scope.h).
use gologpp.Prelude.{
  String, ◌≡◌, ◌≢◌, refl, sym, ap, ◌∙◌, ◌⊎◌, inl, inr, Bool, true, Option, none, some, List, [],
  ◌∷◌, lookup, assign, lookup-assign, text_eq, if◌then◌else◌, Option-cases, arith, beq_refl,
}
use gologpp.Error.{ok}
use gologpp.Scope.{
  lookup_identifier, register_identifier, Variable, Identifier, variable, other, VarDefinitionMode,
  deny, allow, force, as_variable, lookup_var, get_var, define_var,
}

module _ {I G : Type 0} (cast : I → Option G) where
  lookup_identifier-assign_self :
      (name : String) (i : I) (m : List (String × I)) (parents : List (List (String × I)))
      → lookup_identifier cast name (assign name i m ∷ parents) ≡ cast i
  unfolding lookup_identifier
  lookup_identifier-assign_self name i m parents =
      ground (arith, lookup-assign name name i m, beq_refl name)

  lookup_identifier-assign_ne :
      (name j : String) (i : I) (m : List (String × I)) (parents : List (List (String × I)))
      → name ≢ j
      → lookup_identifier cast j (assign name i m ∷ parents)
        ≡ lookup_identifier cast j (m ∷ parents)
  unfolding lookup_identifier
  lookup_identifier-assign_ne name j i m parents n =
      ground (arith, lookup-assign name j i m, text_eq.beq_iff name j, n)

-- If an identifier is registered, none of its kind was found before; it is found then, under every
-- cast, so one of another kind that had the name is lost; other names are as they were.
pub register_identifier_lem :
    {I G H : Type 0} (cast : I → Option G) (cast' : I → Option H) (name : String) (i : I)
    (m : List (String × I)) (parents s : List (List (String × I)))
    → register_identifier cast name i (m ∷ parents) ≡ ok s
    → (lookup_identifier cast name (m ∷ parents) ≡ none)
      × (lookup_identifier cast' name s ≡ cast' i)
      × ((j : String)
          → name ≢ j
          → lookup_identifier cast' j s ≡ lookup_identifier cast' j (m ∷ parents))
unfolding register_identifier
register_identifier_lem cast cast' name i m parents s h =
    let e : s ≡ assign name i m ∷ parents = ground arith in
    (
      ground arith,
      rw e (lookup_identifier-assign_self cast' name i m parents),
      λ j n. rw e (lookup_identifier-assign_ne cast' name j i m parents n),
    )

-- The variable, if its type is below the one that is asked for.
abbrev pub suited : {T : Type 0} → (T → T → Bool) → T → Option (Variable T) → Option (Variable T)
suited le type none = none
suited le type (some v) = if le v.type type then some v else none

module _ {T O : Type 0} where
  -- The first variable of the name from here to the root, whatever hides it.
  abbrev pub first_var : String → List (List (String × Identifier T O)) → Option (Variable T)
  first_var name [] = none
  first_var name (m ∷ parents) = elim (lookup name m) [
    | none ↦ first_var name parents
    | some (other o) ↦ first_var name parents
    | some (variable v) ↦ some v
  ]

  lookup_var-first :
      (name : String) (s : List (List (String × Identifier T O))) (v : Variable T)
      → lookup_var name s ≡ some v
      → first_var name s ≡ some v
  unfolding lookup_identifier as_variable
  lookup_var-first name [] v h = h
  lookup_var-first name (m ∷ parents) v h = ground (arith, lookup_var-first name parents v)

  lookup_var-hidden :
      (name : String) (m : List (String × Identifier T O))
      (parents : List (List (String × Identifier T O)))
      → lookup_var name (m ∷ parents) ≡ none
      → first_var name (m ∷ parents) ≡ first_var name parents
  unfolding lookup_identifier as_variable
  lookup_var-hidden name m parents h = ground arith

module _ {T O : Type 0} where
  define_var-first :
      (type : T) (name : String) (m : List (String × Identifier T O))
      (parents : List (List (String × Identifier T O)))
      → first_var name (define_var type name m parents).1 ≡ (define_var type name m parents).0
  unfolding define_var
  define_var-first type name m parents = ground (
    arith,
    lookup-assign name name (variable (record { name = name; type = type })) m,
    beq_refl name,
  )

module _ {T O : Type 0} (le : T → T → Bool) where
  -- In mode DENY nothing is defined, and the result is the first variable of the name, if its type
  -- is suited; other identifiers do not hide it.
  pub get_var-deny :
      (type : T) (name : String) (s : List (List (String × Identifier T O)))
      → get_var le deny type name s ≡ (suited le type (first_var name s), s)
  unfolding get_var
  get_var-deny type name [] = refl
  get_var-deny type name (m ∷ parents) = elim (Option-cases (lookup_var name (m ∷ parents))) [
    | inl n ↦ ground (arith, n, lookup_var-hidden name m parents n, get_var-deny type name parents)
    | inr (v, e) ↦ ground (arith, e, lookup_var-first name (m ∷ parents) v e)
  ]

  -- `get_var` finds what it finds in mode DENY, or defines the variable.
  get_var-scopes :
      (mode : VarDefinitionMode) (type : T) (name : String) (m : List (String × Identifier T O))
      (parents : List (List (String × Identifier T O)))
      → (get_var le mode type name (m ∷ parents) ≡ get_var le deny type name (m ∷ parents))
        ⊎ (get_var le mode type name (m ∷ parents) ≡ define_var type name m parents)
  unfolding get_var
  get_var-scopes deny type name m parents = inl refl
  get_var-scopes allow type name m parents = elim (Option-cases (lookup_var name (m ∷ parents))) [
    | inr (v, e) ↦ inl (ground (arith, e))
    | inl n ↦ elim (Option-cases (get_var le deny type name parents).0) [
      | inl n' ↦ inr (ground (arith, n, n'))
      | inr (v, e) ↦ inl (ground (arith, n, e))
    ]
  ]
  get_var-scopes force type name m parents = elim (Option-cases (lookup_var name (m ∷ parents))) [
    | inr (v, e) ↦ inl (ground (arith, e))
    | inl n ↦ inr (ground (arith, n))
  ]

  -- In every mode, `get_var` leaves the identifiers of other names as they were, in all scopes.
  pub get_var-others :
      {G : Type 0} (cast : Identifier T O → Option G) (mode : VarDefinitionMode) (type : T)
      (name j : String) (m : List (String × Identifier T O))
      (parents : List (List (String × Identifier T O)))
      → name ≢ j
      → lookup_identifier cast j (get_var le mode type name (m ∷ parents)).1
        ≡ lookup_identifier cast j (m ∷ parents)
  unfolding define_var
  get_var-others cast mode type name j m parents n =
      elim (get_var-scopes mode type name m parents) [
        | inl e ↦ ap (λ r. lookup_identifier cast j r.1) (e ∙ get_var-deny type name (m ∷ parents))
        | inr e ↦
            ap (λ r. lookup_identifier cast j r.1) e
            ∙ lookup_identifier-assign_ne cast name j
                (variable (record { name = name; type = type })) m parents n
      ]

  define_var-suited :
      (type : T) (name : String) (m : List (String × Identifier T O))
      (parents : List (List (String × Identifier T O)))
      → le type type ≡ true
      → suited le type (define_var type name m parents).0 ≡ (define_var type name m parents).0
  unfolding define_var
  define_var-suited type name m parents r = ground (arith, r)

  -- The variable that `get_var` returns, found or defined, is the one that it returns when it is
  -- asked again in mode DENY, where `<=` is reflexive.
  pub get_var-again :
      (mode : VarDefinitionMode) (type : T) (name : String) (m : List (String × Identifier T O))
      (parents : List (List (String × Identifier T O))) (v : Variable T)
      → le type type ≡ true
      → (get_var le mode type name (m ∷ parents)).0 ≡ some v
      → get_var le deny type name (get_var le mode type name (m ∷ parents)).1
        ≡ (some v, (get_var le mode type name (m ∷ parents)).1)
  get_var-again mode type name m parents v r h = elim (get_var-scopes mode type name m parents) [
    | inl e ↦
        let d = get_var-deny type name (m ∷ parents) in
        let same = ap (λ p. p.1) (e ∙ d) in
        let found : suited le type (first_var name (m ∷ parents)) ≡ some v =
          sym (ap (λ p. p.0) (e ∙ d)) ∙ h in
        get_var-deny type name (get_var le mode type name (m ∷ parents)).1 ∙ cc (same, found)
    | inr e ↦
        get_var-deny type name (get_var le mode type name (m ∷ parents)).1
        ∙ (let same = ap (λ p. p.1) e in
            let defined : (define_var type name m parents).0 ≡ some v = sym (ap (λ p. p.0) e) ∙ h in
            let found : suited le type (first_var name (define_var type name m parents).1)
                ≡ some v =
              ap (suited le type) (define_var-first type name m parents)
              ∙ define_var-suited type name m parents r
              ∙ defined in
            cc (same, found))
  ]
