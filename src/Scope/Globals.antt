-- ===== src/Scope/Globals.antt =====
-- The globals of a program (src/model/scope.h): Scope::register_global, lookup_global,
-- declare_global and define_global. `K` are the classes of globals, `A` their parameters, `B` their
-- definitions.
pub mod Laws
use gologpp.Prelude.{
  String, ◌≡◌, ◌≢◌, refl, sym, ap, ◌∙◌, inl, inr, Bool, true, Option, none, some, is_some, List,
  lookup, assign, lookup-assign, Eq, ◌==◌, text_eq, if◌then◌else◌, Bool-cases, Option-cases, arith,
  beq_refl,
}
use gologpp.Error.{Result, ok, err, redefinition_error, type_error, null_dereference, ◌>>=◌, ok_inj}

pub record Global (K T A B : Type 0) : Type 0 where
  pub kind : K
  pub type : T
  pub params : A
  pub definition : Option B

module _ {K T A B : Type 0} where
  unfoldable pub exists_global : String → List (String × Global K T A B) → Bool
  unfolding lookup
  exists_global name gs = is_some (lookup name gs)

  -- lookup_global<GologT>: null if the global is of another class.
  unfoldable pub lookup_global :
      ⦃e : Eq K⦄ → K → String → List (String × Global K T A B) → Option (Global K T A B)
  unfolding lookup
  lookup_global kind name gs = elim (lookup name gs) [
    | none ↦ none
    | some g ↦ if g.kind == kind then some g else none
  ]

  unfoldable pub register_global :
      String
      → Global K T A B
      → List (String × Global K T A B)
      → Result (List (String × Global K T A B))
  unfolding exists_global assign
  register_global name g gs =
      if exists_global name gs then err redefinition_error else ok (assign name g gs)

  -- The check that both `declare_global` and `define_global` make of a global that exists. The
  -- parameters are not compared.
  unfoldable pub check_global :
      ⦃e : Eq K⦄
      → (T → T → Bool)
      → K
      → T
      → String
      → List (String × Global K T A B)
      → Result (Global K T A B)
  unfolding lookup_global
  check_global le kind type name gs = elim (lookup_global kind name gs) [
    | none ↦ err redefinition_error
    | some g ↦ if le g.type type then ok g else err type_error
  ]

  unfoldable pub declare_global :
      ⦃e : Eq K⦄
      → (T → T → Bool)
      → K
      → T
      → String
      → A
      → List (String × Global K T A B)
      → Result (List (String × Global K T A B))
  unfolding exists_global check_global register_global
  declare_global le kind type name params gs =
      if exists_global name gs
      then (check_global le kind type name gs >>= λ g. ok gs)
      else register_global name
          (record { kind = kind; type = type; params = params; definition = none }) gs

  -- `rv->define`, on the object that the map holds. What it does and what it throws is the matter of
  -- the class, which `define` stands for.
  unfoldable pub set_definition :
      (B → Global K T A B → Result (Global K T A B))
      → B
      → String
      → Global K T A B
      → List (String × Global K T A B)
      → Result (List (String × Global K T A B))
  unfolding assign
  set_definition define b name g gs = define b g >>= λ g'. ok (assign name g' gs)

  unfoldable pub define_global :
      ⦃e : Eq K⦄
      → (B → Global K T A B → Result (Global K T A B))
      → (T → T → Bool)
      → K
      → T
      → String
      → A
      → B
      → List (String × Global K T A B)
      → Result (List (String × Global K T A B))
  unfolding exists_global check_global declare_global lookup_global set_definition
  define_global define le kind type name params b gs =
      if exists_global name gs
      then (check_global le kind type name gs >>= λ g. set_definition define b name g gs)
      else (do
        gs' ← declare_global le kind type name params gs
        elim (lookup_global kind name gs') [
          | none ↦ err null_dereference
          | some g ↦ set_definition define b name g gs'
        ])
