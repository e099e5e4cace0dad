-- ===== src/Mapping/Laws.antt =====
-- What a mapping covers (src/model/mapping.cpp, src/model/action.cpp).
use gologpp.Prelude.{
  ℕ, ◌≡◌, ◌↔◌, refl, ap, ◌∙◌, inl, inr, String, Bool, true, false, Bool-cases, none, some,
  Option-cases, is_some, List, [], ◌∷◌, ◌++◌, lookup, eqb, eqb_iff, ◌==◌, text_eq, beq_refl, All,
  All-append, if◌then◌else◌, arith,
}
use gologpp.Error.{Result, ok, err, user_error, bind-ok, ok_inj}
use gologpp.Mapping.{
  Param, Mapped, variable_ref, other, BackendMapping, emplace_all, new_mapping, mapped_expr,
  as_variable, mapped_var, is_covered, missing, set_mapping,
}

none_missing :
    (b : Bool) (p : Param) (rest : List Param)
    → (if b then rest else p ∷ rest) ≡ []
    → (b ≡ true) × (rest ≡ [])
none_missing true p rest h = (refl, h)
none_missing false p rest h = cc

module _ {O : Type 0} where
  -- Every entry is the one that is found under its name.
  abbrev IsFound : List (String × Mapped O) → String × Mapped O → Type 0
  IsFound m entry = lookup entry.0 m ≡ some entry.1

  pub lookup-append :
      (j k : String) (x : Mapped O) (m : List (String × Mapped O))
      → lookup j (m ++ (k, x) ∷ [])
        ≡ (if is_some (lookup j m) then lookup j m else if k == j then some x else none)
  unfolding lookup
  lookup-append j k x [] = refl
  lookup-append j k x ((i, y) ∷ m) = ground (arith, lookup-append j k x m)

  IsFound-append :
      (k : String) (x : Mapped O) (m entries : List (String × Mapped O))
      → All (IsFound m) entries
      → All (IsFound (m ++ (k, x) ∷ [])) entries
  IsFound-append k x m [] all = tt
  IsFound-append k x m ((j, y) ∷ entries) (one, all) =
      (lookup-append j k x m ∙ rw one refl, IsFound-append k x m entries all)

  emplace_all-IsFound :
      (pairs m : List (String × Mapped O))
      → All (IsFound m) m
      → All (IsFound (emplace_all pairs m)) (emplace_all pairs m)
  unfolding emplace_all
  emplace_all-IsFound [] m all = all
  emplace_all-IsFound ((n, x) ∷ pairs) m all = elim (Option-cases (lookup n m)) [
    | inl gone ↦ rw gone (
        emplace_all-IsFound pairs (m ++ (n, x) ∷ []) (
          (All-append (IsFound (m ++ (n, x) ∷ [])) m ((n, x) ∷ [])).1
            (IsFound-append n x m m all, (lookup-append n n x m ∙ rw (gone, beq_refl n) refl, tt))))
    | inr (y, there) ↦ rw there (emplace_all-IsFound pairs m all)
  ]

  -- A variable that is covered is under some name.
  covered_name :
      (a : ℕ) (entries m : List (String × Mapped O))
      → All (IsFound m) entries
      → is_covered a entries ≡ ok true
      → (n : String) × (lookup n m ≡ some (variable_ref a))
  unfolding is_covered
  covered_name a [] m all h = cc
  covered_name a ((n, other x) ∷ entries) m all h = cc
  covered_name a ((n, variable_ref b) ∷ entries) m (one, all) h = elim (Bool-cases (eqb b a)) [
    | inl same ↦ (n, one ∙ ap (λ c. some (variable_ref c)) ((eqb_iff b a).0 same))
    | inr differ ↦ covered_name a entries m all (rw differ at h)
  ]

  pub missing-none :
      (ps : List Param) (m : List (String × Mapped O))
      → (missing ps m ≡ ok []) ↔ All (λ p. is_covered p.address m ≡ ok true) ps
  unfolding missing
  missing-none [] m = (λ h. tt, λ all. refl)
  missing-none (p ∷ ps) m = (
    (λ h.
        let (covered, is_c, h1) = bind-ok (is_covered p.address m) _ [] h in
        let (rest, is_rest, h2) = bind-ok (missing ps m) _ [] h1 in
        let (yes_covered, no_rest) = none_missing covered p rest (ok_inj _ [] h2) in
        (is_c ∙ ap ok yes_covered, (missing-none ps m).0 (is_rest ∙ ap ok no_rest))),
    λ (one, all). rw (one, (missing-none ps m).1 all) refl,
  )

  no_gaps_lem :
      (gaps : List Param) (m m' : BackendMapping O)
      → ◌≡◌ {A = Result (BackendMapping O)}
          (elim gaps [ [] ↦ ok m | p ∷ rest ↦ err user_error ])
          (ok m')
      → (gaps ≡ []) × (m ≡ m')
  no_gaps_lem [] m m' h = (refl, ok_inj m m' h)
  no_gaps_lem (p ∷ gaps) m m' h = cc

  set_mapping-ok :
      (ps : List Param) (m m' : BackendMapping O)
      → set_mapping ps m ≡ ok m'
      → (missing ps m.arg_mapping ≡ ok []) × (m ≡ m')
  unfolding set_mapping
  set_mapping-ok ps m m' h =
      let (gaps, is_gaps, h1) = bind-ok (missing ps m.arg_mapping) _ m' h in
      let (no_gaps, same) = no_gaps_lem gaps m m' h1 in (is_gaps ∙ ap ok no_gaps, same)

  pub mapped_var-found :
      (n : String) (a : ℕ) (m : BackendMapping O)
      → lookup n m.arg_mapping ≡ some (variable_ref a)
      → mapped_var n m ≡ ok (some a)
  unfolding mapped_var mapped_expr as_variable
  mapped_var-found n a m h = rw (h, mapped_expr) refl

  every_named :
      (ps : List Param) (backend_name : String) (entries : List (String × Mapped O))
      → All (IsFound entries) entries
      → All (λ p. is_covered p.address entries ≡ ok true) ps
      → All
          (λ p.
            (n : String) × (mapped_var n
                (record { backend_name = backend_name; arg_mapping = entries })
              ≡ ok (some p.address)))
          ps
  every_named [] backend_name entries found covered = tt
  every_named (p ∷ ps) backend_name entries found (one, covered) =
      let (n, there) = covered_name p.address entries entries found one in
      (
        (
          n,
          mapped_var-found n p.address
              (record { backend_name = backend_name; arg_mapping = entries }) there,
        ),
        every_named ps backend_name entries found covered,
      )

  -- The mapping of an exogenous action that is accepted maps a name to each parameter.
  pub set_mapping-mapped_var :
      (ps : List Param) (backend_name : String) (pairs : List (String × Mapped O))
      (m : BackendMapping O)
      → set_mapping ps (new_mapping backend_name pairs) ≡ ok m
      → All (λ p. (n : String) × (mapped_var n m ≡ ok (some p.address))) ps
  unfolding new_mapping lookup
  set_mapping-mapped_var ps backend_name pairs m h =
      let (none_gone, same) = set_mapping-ok ps (new_mapping backend_name pairs) m h in
      rw (← same) (
        every_named ps backend_name (emplace_all pairs []) (emplace_all-IsFound pairs [] tt)
          ((missing-none ps (emplace_all pairs [])).0 none_gone))
