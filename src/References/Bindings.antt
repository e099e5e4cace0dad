-- ===== src/References/Bindings.antt =====
-- The lemmas on bindings of parameters (src/model/reference.cpp: Binding).
use gologpp.Prelude.{
  ℕ, zero, suc, ◌≡◌, ◌≢◌, inl, inr, refl, ap, ◌∙◌, none, some, Option-cases, some_inj, is_some,
  List, [], ◌∷◌, ◌++◌, length, get_elem?, lookup, eqb, if_ne, beq_refl, nat_eq, All, if◌then◌else◌,
  arith,
}
use gologpp.Error.{ok, err, bug, bind-ok, ok_inj}
use gologpp.References.{
  Parameter, Target, Expression, pack, size, bind, get, Reference, bind_args, get_all,
}

-- The parameters are different variables.
abbrev pub AreDistinct : {S : Type 0} → List (Parameter S) → Type 0
AreDistinct [] = Unit
AreDistinct (p ∷ ps) = All (λ q. p.address ≢ q.address) ps × AreDistinct ps

module _ {E S : Type 0} where
  abbrev pub IsFresh : List (ℕ × Expression E S) → Parameter S → Type 0
  IsFresh m p = lookup p.address m ≡ none

  pub lookup-append :
      (j k : ℕ) (e : Expression E S) (m : List (ℕ × Expression E S))
      → lookup j (m ++ (k, e) ∷ [])
        ≡ (if is_some (lookup j m) then lookup j m else if eqb k j then some e else none)
  unfolding lookup
  lookup-append j k e [] = refl
  lookup-append j k e ((i, x) ∷ m) = ground (arith, lookup-append j k e m)

  pub lookup-bind_self :
      (k : ℕ) (e : Expression E S) (m : List (ℕ × Expression E S))
      → lookup k m ≡ none
      → lookup k (bind k e m) ≡ some e
  unfolding bind
  lookup-bind_self k e m h = rw (h, lookup-append k k e m, h, beq_refl k) refl

  pub lookup-bind_kept :
      (j k : ℕ) (e x : Expression E S) (m : List (ℕ × Expression E S))
      → lookup j m ≡ some x
      → lookup j (bind k e m) ≡ some x
  unfolding bind
  lookup-bind_kept j k e x m h = elim (Option-cases (lookup k m)) [
    | inl gone ↦ rw (gone, lookup-append j k e m, h) refl
    | inr (y, there) ↦ rw there h
  ]

  pub lookup-bind_ne :
      (j k : ℕ) (e : Expression E S) (m : List (ℕ × Expression E S))
      → k ≢ j
      → lookup j m ≡ none
      → lookup j (bind k e m) ≡ none
  unfolding bind
  lookup-bind_ne j k e m n h = elim (Option-cases (lookup k m)) [
    | inl gone ↦ rw (gone, lookup-append j k e m, h) (if_ne k j (some e) none n)
    | inr (y, there) ↦ rw there h
  ]

  pub IsFresh-bind :
      (p : Parameter S) (ps : List (Parameter S)) (e : Expression E S)
      (m : List (ℕ × Expression E S))
      → All (λ q. p.address ≢ q.address) ps
      → All (IsFresh m) ps
      → All (IsFresh (bind p.address e m)) ps
  IsFresh-bind p [] e m ne fresh = tt
  IsFresh-bind p (q ∷ ps) e m (n, ne) (f, fresh) =
      (lookup-bind_ne q.address p.address e m n f, IsFresh-bind p ps e m ne fresh)

  pub lookup-bind_args :
      (ps : List (Parameter S)) (es : List (Expression E S)) (m : List (ℕ × Expression E S)) (j : ℕ)
      (x : Expression E S)
      → lookup j m ≡ some x
      → lookup j (bind_args ps es m).1 ≡ some x
  unfolding bind_args
  lookup-bind_args [] es m j x h = h
  lookup-bind_args (p ∷ ps) [] m j x h = h
  lookup-bind_args (p ∷ ps) (e ∷ es) m j x h =
      lookup-bind_args ps es (bind p.address e m) j x (lookup-bind_kept j p.address e x m h)

  pub get-found :
      (k : ℕ) (m : List (ℕ × Expression E S)) (e : Expression E S)
      → lookup k m ≡ some e
      → get k m ≡ ok e
  unfolding get
  get-found k m e h = rw (h, get) refl

  pub found-get :
      (k : ℕ) (m : List (ℕ × Expression E S)) (e : Expression E S)
      → get k m ≡ ok e
      → lookup k m ≡ some e
  unfolding get
  found-get k m e h = elim (Option-cases (lookup k m)) [
    | inl gone ↦ cc (rw (gone, get) at h)
    | inr (x, there) ↦ there ∙ ap some (ok_inj x e (rw (there, get) at h))
  ]

  pub get-missing : (k : ℕ) (m : List (ℕ × Expression E S)) → lookup k m ≡ none → get k m ≡ err bug
  unfolding get
  get-missing k m h = rw (h, get) refl

  pub get_all-cons :
      (p : Parameter S) (ps : List (Parameter S)) (m : List (ℕ × Expression E S))
      (e : Expression E S) (es : List (Expression E S))
      → get p.address m ≡ ok e
      → get_all ps m ≡ ok es
      → get_all (p ∷ ps) m ≡ ok (e ∷ es)
  unfolding get_all
  get_all-cons p ps m e es h h' = rw (h, h') refl

  -- What was bound is found for every parameter, if there are enough arguments.
  pub get_all-bind_args :
      (ps : List (Parameter S)) (es : List (Expression E S)) (m : List (ℕ × Expression E S))
      → AreDistinct ps
      → All (IsFresh m) ps
      → length (bind_args ps es m).0 ≡ length ps
      → get_all ps (bind_args ps es m).1 ≡ ok (bind_args ps es m).0
  unfolding bind_args get_all get
  get_all-bind_args [] es m d fresh n = refl
  get_all-bind_args (p ∷ ps) [] m d fresh n = cc
  get_all-bind_args (p ∷ ps) (e ∷ es) m (ne, d) (f, fresh) n =
      get_all-cons p ps (bind_args ps es (bind p.address e m)).1 e
        (bind_args ps es (bind p.address e m)).0
        (get-found p.address _ e (
          lookup-bind_args ps es (bind p.address e m) p.address e
            (lookup-bind_self p.address e m f)))
        (get_all-bind_args ps es (bind p.address e m) d (IsFresh-bind p ps e m ne fresh)
          (omega arith))

  pub get_all-at :
      (ps : List (Parameter S)) (m : List (ℕ × Expression E S)) (es : List (Expression E S)) (i : ℕ)
      (p : Parameter S)
      → get_all ps m ≡ ok es
      → get_elem? ps i ≡ some p
      → (e : Expression E S) × (get_elem? es i ≡ some e) × (get p.address m ≡ ok e)
  unfolding get_all
  get_all-at [] m es i p h at = cc
  get_all-at (q ∷ ps) m es zero p h at =
      let (e, there, h') = bind-ok (get q.address m) _ es h in
      let (rest, there', h'') = bind-ok (get_all ps m) _ es h' in
      rw (← some_inj q p at, ← ok_inj (e ∷ rest) es h'') (e, refl, there)
  get_all-at (q ∷ ps) m es (suc i) p h at =
      let (e, there, h') = bind-ok (get q.address m) _ es h in
      let (rest, there', h'') = bind-ok (get_all ps m) _ es h' in
      rw (← ok_inj (e ∷ rest) es h'') (get_all-at ps m rest i p there' at)

  pub get_elem?-bind_args :
      (ps : List (Parameter S)) (es : List (Expression E S)) (m : List (ℕ × Expression E S)) (i : ℕ)
      (e : Expression E S)
      → get_elem? (bind_args ps es m).0 i ≡ some e
      → get_elem? es i ≡ some e
  unfolding bind_args
  get_elem?-bind_args [] es m i e h = cc
  get_elem?-bind_args (p ∷ ps) [] m i e h = cc
  get_elem?-bind_args (p ∷ ps) (x ∷ es) m zero e h = h
  get_elem?-bind_args (p ∷ ps) (x ∷ es) m (suc i) e h =
      get_elem?-bind_args ps es (bind p.address x m) i e h

  pub bind_args-others :
      (ps : List (Parameter S)) (es : List (Expression E S)) (m : List (ℕ × Expression E S)) (j : ℕ)
      → All (λ p. p.address ≢ j) ps
      → lookup j m ≡ none
      → lookup j (bind_args ps es m).1 ≡ none
  unfolding bind_args
  bind_args-others [] es m j out h = h
  bind_args-others (p ∷ ps) [] m j out h = h
  bind_args-others (p ∷ ps) (e ∷ es) m j (ne, out) h =
      bind_args-others ps es (bind p.address e m) j out (lookup-bind_ne j p.address e m ne h)

  pub size-pack : (es : List (Expression E S)) → size (pack es) ≡ length es
  unfolding size pack
  size-pack [] = refl
  size-pack (e ∷ es) = omega (arith, size-pack es)

  -- The reference that is made of the arguments.
  abbrev pub made : Target S → List (Expression E S) → Reference E S
  made t es = record {
    target = some t;
    args = (bind_args t.params es []).0;
    binding = (bind_args t.params es []).1;
  }

pub All-IsFresh : (E : Type 0) {S : Type 0} (ps : List (Parameter S)) → All (IsFresh {E = E} []) ps
unfolding lookup
All-IsFresh E [] = tt
All-IsFresh E (p ∷ ps) = (refl, All-IsFresh E ps)
