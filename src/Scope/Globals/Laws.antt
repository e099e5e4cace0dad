-- ===== src/Scope/Globals/Laws.antt =====
-- What is declared and defined in the globals (src/model/scope.h).
use gologpp.Prelude.{
  String, ◌≡◌, refl, sym, ap, ◌∙◌, inl, inr, Bool, true, none, some, List, lookup, assign,
  lookup-assign, Eq, ◌==◌, text_eq, if◌then◌else◌, Bool-cases, Option-cases, arith, beq_refl,
}
use gologpp.Error.{Result, ok, err, redefinition_error, type_error, ◌>>=◌}
use gologpp.Scope.Globals.{
  Global, lookup_global, check_global, declare_global, set_definition, define_global,
}

module _ {K T A B : Type 0} where
  -- A global that is declared and not yet defined.
  abbrev pub declared : K → T → A → Global K T A B
  declared kind type params = record {
    kind = kind;
    type = type;
    params = params;
    definition = none;
  }

  declare_global-fresh :
      ⦃e : Eq K⦄ (le : T → T → Bool) (kind : K) (type : T) (name : String) (params : A)
      (gs : List (String × Global K T A B))
      → lookup name gs ≡ none
      → declare_global le kind type name params gs ≡ ok (assign name (declared kind type params) gs)
  unfolding declare_global
  declare_global-fresh le kind type name params gs n = rw n refl

  lookup-declared :
      (kind : K) (type : T) (name : String) (params : A) (gs : List (String × Global K T A B))
      → lookup name (assign name (declared kind type params) gs) ≡ some (declared kind type params)
  lookup-declared kind type name params gs =
      lookup-assign name name (declared kind type params) gs
      ∙ ap (λ b. if b then some (declared kind type params) else lookup name gs) (beq_refl name)

  lookup_global-found :
      ⦃e : Eq K⦄ (kind : K) (name : String) (gs : List (String × Global K T A B))
      (g : Global K T A B)
      → lookup name gs ≡ some g
      → lookup_global kind name gs ≡ (if g.kind == kind then some g else none)
  unfolding lookup_global
  lookup_global-found kind name gs g s = ground (arith, s)

  lookup_global-declared :
      ⦃e : Eq K⦄ (kind : K) (type : T) (name : String) (params : A)
      (gs : List (String × Global K T A B))
      → lookup_global kind name (assign name (declared kind type params) gs)
        ≡ some (declared kind type params)
  lookup_global-declared kind type name params gs =
      lookup_global-found kind name _ (declared kind type params)
        (lookup-declared kind type name params gs)
      ∙ rw (beq_refl kind) refl

  check_global-found :
      ⦃e : Eq K⦄ (le : T → T → Bool) (kind : K) (type : T) (name : String)
      (gs : List (String × Global K T A B)) (g : Global K T A B)
      → lookup name gs ≡ some g
      → check_global le kind type name gs ≡ (
          if g.kind == kind
          then (if le g.type type then ok g else err type_error)
          else err redefinition_error)
  unfolding check_global
  check_global-found le kind type name gs g s = ground (arith, lookup_global-found kind name gs g s)

  define_global-exists :
      ⦃e : Eq K⦄ (define : B → Global K T A B → Result (Global K T A B)) (le : T → T → Bool)
      (kind : K) (type : T) (name : String) (params : A) (b : B)
      (gs : List (String × Global K T A B)) (g : Global K T A B)
      → lookup name gs ≡ some g
      → define_global define le kind type name params b gs ≡ (
          if g.kind == kind
          then (if le g.type type then set_definition define b name g gs else err type_error)
          else err redefinition_error)
  unfolding define_global
  define_global-exists ⦃e⦄ define le kind type name params b gs g s =
      rw (s, check_global-found le kind type name gs g s)
        (elim (Bool-cases (g.kind == kind)) [
          | inl y ↦ elim (Bool-cases (le g.type type)) [
            | inl y' ↦ rw (y, y') refl
            | inr n' ↦ rw (y, n') refl
          ]
          | inr n ↦ rw n refl
        ])

  define_global-fresh :
      ⦃e : Eq K⦄ (define : B → Global K T A B → Result (Global K T A B)) (le : T → T → Bool)
      (kind : K) (type : T) (name : String) (params : A) (b : B)
      (gs : List (String × Global K T A B))
      → lookup name gs ≡ none
      → define_global define le kind type name params b gs
        ≡ set_definition define b name
            (declared kind type params)
            (assign name (declared kind type params) gs)
  unfolding define_global
  define_global-fresh define le kind type name params b gs n =
      ground (arith, n, lookup_global-declared kind type name params gs)

  declare_global-exists :
      ⦃e : Eq K⦄ (le : T → T → Bool) (kind : K) (type : T) (name : String) (params : A)
      (gs : List (String × Global K T A B)) (g : Global K T A B)
      → lookup name gs ≡ some g
      → declare_global le kind type name params gs ≡ (
          if g.kind == kind
          then (if le g.type type then ok gs else err type_error)
          else err redefinition_error)
  unfolding declare_global
  declare_global-exists le kind type name params gs g s =
      ground (arith, s, check_global-found le kind type name gs g s)

  -- To declare a global and then define it is to define it at once, whatever `define` of its class
  -- does, where `<=` on types is reflexive.
  pub define_global-declare_global :
      ⦃e : Eq K⦄ (define : B → Global K T A B → Result (Global K T A B)) (le : T → T → Bool)
      (kind : K) (type : T) (name : String) (params : A) (b : B)
      (gs : List (String × Global K T A B))
      → le type type ≡ true
      → (declare_global le kind type name params gs >>= λ hs.
          define_global define le kind type name params b hs)
        ≡ define_global define le kind type name params b gs
  define_global-declare_global ⦃e⦄ define le kind type name params b gs r =
      elim (Option-cases (lookup name gs)) [
        | inl n ↦
            ap (λ m. m >>= λ hs. define_global define le kind type name params b hs)
              (declare_global-fresh le kind type name params gs n)
            ∙ define_global-exists define le kind type name params b
                (assign name (declared kind type params) gs) (declared kind type params)
                (lookup-declared kind type name params gs)
            ∙ rw (beq_refl kind, r)
                (sym (define_global-fresh define le kind type name params b gs n))
        | inr (g, s) ↦
            ap (λ m. m >>= λ hs. define_global define le kind type name params b hs)
              (declare_global-exists le kind type name params gs g s)
            ∙ elim (Bool-cases (g.kind == kind)) [
              | inl y ↦ elim (Bool-cases (le g.type type)) [
                | inl y' ↦ rw (y, y') refl
                | inr n' ↦
                    rw (y, n')
                      (sym (
                        define_global-exists define le kind type name params b gs g s
                        ∙ rw (y, n') refl))
              ]
              | inr n ↦
                  rw n (
                    sym (define_global-exists define le kind type name params b gs g s ∙ rw n refl))
            ]
      ]
