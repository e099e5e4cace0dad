-- ===== src/Values/Construction.antt =====
-- What the constructors of values and of list and compound expressions accept (src/model/value.cpp,
-- src/model/list_expression.cpp, src/model/compound_expression.cpp).
use mathlib.Core.Path.{subst}
use gologpp.Prelude.{
  String, ◌≡◌, refl, sym, ap, ◌∙◌, inl, inr, Bool, true, false, List, [], ◌∷◌, ◌++◌, none, some,
  is_some, lookup, assign, lookup-assign, ◌==◌, text_eq, if◌then◌else◌, ◌↔◌, Bool-cases,
  Option-cases, some_inj, arith, All,
}
use gologpp.Error.{
  Error, Result, ok, err, type_error, expression_type_mismatch, ◌>>=◌, bind-ok, ok_inj,
}
use gologpp.Types.{
  ValueType, undefined_type, predefined, compound_type, list_type, domain_type, Fields, no_fields,
  field, field_type, ge,
}
use gologpp.Values.{
  new_type, compound_fields, list_element_type, check_field, assign_fields, compound_value,
  emplace_fields, all_assigned, compound_expression, check_entries, list_expression,
}

list_type_inj : {S : Type 0} (u v : ValueType S) → list_type u ≡ list_type v → u ≡ v
list_type_inj u v h = cc

module _ {S E : Type 0} (subset : S → S → Bool) (suits : ValueType S → E → Result Bool) where
  -- The field is one of the type, and the entry suits its type.
  abbrev pub Fits : Fields S → String → E → Type 0
  Fits fs f e = (u : ValueType S) × (field_type f fs ≡ ok u) × (suits u e ≡ ok true)

  abbrev pub Conforms : Fields S → List (String × E) → Type 0
  Conforms fs r = (f : String) (e : E) → lookup f r ≡ some e → Fits fs f e

  -- Each field of the type has an entry, which suits it.
  abbrev pub Complete : Fields S → List (String × E) → Type 0
  Complete fs r =
      (f : String) (u : ValueType S)
      → field_type f fs ≡ ok u
      → (e : E) × (lookup f r ≡ some e) × (suits u e ≡ ok true)

  Bool-result :
      (r : Result Bool) (x : Error) {B : Type 0} (b c : B)
      → (r >>= λ good. if good then ok b else err x) ≡ ok c
      → (r ≡ ok true) × (b ≡ c)
  Bool-result (ok true) x b c h = (refl, cc)
  Bool-result (ok false) x b c h = cc
  Bool-result (err y) x b c h = cc

  if-ok :
      {B : Type 0} (b : Bool) (x : Error) (c d : B)
      → (if b then ok c else err x) ≡ ok d
      → (b ≡ true) × (c ≡ d)
  if-ok true x c d h = (refl, cc)
  if-ok false x c d h = cc

  check_field-Fits :
      (fs : Fields S) (f : String) (e : E) (u : Unit {0})
      → check_field subset suits fs f e ≡ ok u
      → Fits fs f e
  unfolding check_field
  check_field-Fits fs f e u h =
      let (t, p, q) = bind-ok (field_type f fs) _ u h in
      (t, p, (Bool-result (suits t e) expression_type_mismatch tt u q).0)

  assign-Conforms :
      (fs : Fields S) (f : String) (e : E) (r : List (String × E))
      → Fits fs f e
      → Conforms fs r
      → Conforms fs (assign f e r)
  assign-Conforms fs f e r fits c g d h = elim (Bool-cases (f == g)) [
    | inl same ↦
        let e' = some_inj e d (rw (lookup-assign f g e r, same) at h) in
        rw (← (text_eq.beq_iff f g).0 same, ← e') fits
    | inr other ↦ c g d (rw (lookup-assign f g e r, other) at h)
  ]

  lookup-append :
      (f g : String) (e : E) (r : List (String × E))
      → lookup g (r ++ (f, e) ∷ [])
        ≡ (if is_some (lookup g r) then lookup g r else if f == g then some e else none)
  unfolding lookup
  lookup-append f g e [] = refl
  lookup-append f g e ((j, d) ∷ r) = ground (arith, lookup-append f g e r)

  emplace-Conforms :
      (fs : Fields S) (f : String) (e : E) (r : List (String × E))
      → Fits fs f e
      → Conforms fs r
      → Conforms fs (if is_some (lookup f r) then r else r ++ (f, e) ∷ [])
  emplace-Conforms fs f e r fits c = elim (Bool-cases (is_some (lookup f r))) [
    | inl old ↦ rw old c
    | inr new ↦ rw new λ g d h. elim (Option-cases (lookup g r)) [
      | inr (d', there) ↦
          let d'' = some_inj d' d (rw (lookup-append f g e r, there) at h) in
          c g d (rw (← d'') there)
      | inl gone ↦ elim (Bool-cases (f == g)) [
        | inl same ↦
            let e' = some_inj e d (rw (lookup-append f g e r, gone, same) at h) in
            rw (← (text_eq.beq_iff f g).0 same, ← e') fits
        | inr other ↦ cc (rw (lookup-append f g e r, gone, other) at h)
      ]
    ]
  ]

  assign_fields-Conforms :
      (fs : Fields S) (entries done r : List (String × E))
      → Conforms fs done
      → assign_fields subset suits fs entries done ≡ ok r
      → Conforms fs r
  unfolding assign_fields
  assign_fields-Conforms fs [] done r c h = rw (← ok_inj done r h) c
  assign_fields-Conforms fs ((f, e) ∷ entries) done r c h =
      let (u, p, q) = bind-ok (check_field subset suits fs f e) _ r h in
      assign_fields-Conforms fs entries (assign f e done) r
        (assign-Conforms fs f e done (check_field-Fits fs f e u p) c) q

  emplace_fields-Conforms :
      (fs : Fields S) (entries done r : List (String × E))
      → Conforms fs done
      → emplace_fields subset suits fs entries done ≡ ok r
      → Conforms fs r
  unfolding emplace_fields
  emplace_fields-Conforms fs [] done r c h = rw (← ok_inj done r h) c
  emplace_fields-Conforms fs ((f, e) ∷ entries) done r c h =
      let (u, p, q) = bind-ok (check_field subset suits fs f e) _ r h in
      emplace_fields-Conforms fs entries
        (if is_some (lookup f done) then done else done ++ (f, e) ∷ []) r
        (emplace-Conforms fs f e done (check_field-Fits fs f e u p) c) q

  new_type_self : (t u : ValueType S) → new_type subset t ≡ ok u → t ≡ u
  unfolding new_type
  new_type_self t u h = (Bool-result (ge subset t t) type_error t u h).1

  compound_fields-compound :
      (t : ValueType S) (fs : Fields S)
      → compound_fields t ≡ ok fs
      → (c : String) × (t ≡ compound_type c fs)
  unfolding compound_fields
  compound_fields-compound undefined_type fs h = cc
  compound_fields-compound (predefined p) fs h = cc
  compound_fields-compound (list_type e) fs h = cc
  compound_fields-compound (domain_type d e s) fs h = cc
  compound_fields-compound (compound_type c gs) fs h = (c, ap (compound_type c) (ok_inj gs fs h))

  nothing-Conforms : (fs : Fields S) → Conforms fs []
  unfolding lookup
  nothing-Conforms fs f e h = cc

  -- A compound value that is constructed is of a compound type, and each of its fields is a field of
  -- that type, with a value that suits it.
  pub compound_value-Conforms :
      (t : ValueType S) (entries r : List (String × E))
      → compound_value subset suits t entries ≡ ok r
      → (c : String) × (fs : Fields S) × (t ≡ compound_type c fs) × Conforms fs r
  unfolding compound_value
  compound_value-Conforms t entries r h =
      let (u, p, h') = bind-ok (new_type subset t) _ r h in
      let (fs, q, h'') = bind-ok (compound_fields u) _ r h' in
      let (c, e) = compound_fields-compound u fs q in
      (
        c,
        fs,
        new_type_self t u p ∙ e,
        assign_fields-Conforms fs entries [] r (nothing-Conforms fs) h'',
      )

  all_assigned-lookup :
      (fs : Fields S) (r : List (String × E)) (f : String) (u : ValueType S)
      → all_assigned fs r ≡ true
      → field_type f fs ≡ ok u
      → (e : E) × (lookup f r ≡ some e)
  unfolding all_assigned field_type
  all_assigned-lookup no_fields r f u h k = cc
  all_assigned-lookup (field g t fs) r f u h k = elim (Option-cases (lookup g r)) [
    | inl gone ↦ cc (rw gone at h)
    | inr (e, there) ↦ elim (Bool-cases (g == f)) [
      | inl same ↦ (e, rw (← (text_eq.beq_iff g f).0 same) there)
      | inr other ↦ all_assigned-lookup fs r f u (rw there at h) (rw other at k)
    ]
  ]

  all_assigned-Complete :
      (fs : Fields S) (r : List (String × E))
      → Conforms fs r
      → all_assigned fs r ≡ true
      → Complete fs r
  all_assigned-Complete fs r c all f v k =
      let (x, there) = all_assigned-lookup fs r f v all k in
      let (w, i, j) = c f x there in
      (x, there, subst (λ y. suits y x ≡ ok true) (ok_inj w v (sym i ∙ k)) j)

  -- A compound expression that is constructed is of a compound type, its entries are for fields of that
  -- type and suit them, and there is one for every field of the type.
  pub compound_expression_lem :
      (t : ValueType S) (entries r : List (String × E))
      → compound_expression subset suits t entries ≡ ok r
      → (c : String) × (fs : Fields S) × (t ≡ compound_type c fs) × Conforms fs r × Complete fs r
  unfolding compound_expression
  compound_expression_lem t entries r h =
      let (u, p, h') = bind-ok (new_type subset t) _ r h in
      let (fs, q, h'') = bind-ok (compound_fields u) _ r h' in
      let (done, d, h3) = bind-ok (emplace_fields subset suits fs entries []) _ r h'' in
      let (c, e) = compound_fields-compound u fs q in
      let conforms = emplace_fields-Conforms fs entries [] done (nothing-Conforms fs) d in
      let (all, same) = if-ok (all_assigned fs done) type_error done r h3 in
      (
        c,
        fs,
        new_type_self t u p ∙ e,
        subst (Conforms fs) same conforms,
        subst (Complete fs) same (all_assigned-Complete fs done conforms all),
      )

  check_entries_lem :
      (t : ValueType S) (es rs : List E)
      → check_entries subset suits t es ≡ ok rs
      → (es ≡ rs) × All (λ e. suits t e ≡ ok true) es
  unfolding check_entries
  check_entries_lem t [] rs h = (ok_inj [] rs h, tt)
  check_entries_lem t (e ∷ es) rs h =
      let (good, p, q) = bind-ok (suits t e) _ rs h in
      elim (Bool-cases good) [
        | inr bad ↦ cc (rw bad at q)
        | inl fine ↦
            let (rest, p', q') = bind-ok (check_entries subset suits t es) _ rs (rw fine at q) in
            let (same, all) = check_entries_lem t es rest p' in
            (ap (λ l. e ∷ l) same ∙ ok_inj (e ∷ rest) rs q', (rw fine at p, all))
      ]

  →check_entries :
      (t : ValueType S) (es : List E)
      → All (λ e. suits t e ≡ ok true) es
      → check_entries subset suits t es ≡ ok es
  unfolding check_entries
  →check_entries t [] a = refl
  →check_entries t (e ∷ es) (h, a) = rw h (rw (→check_entries t es a))

  -- A list expression is constructed exactly from a list type and entries that suit its element type,
  -- and has these entries.
  pub list_expression_lem :
      (t : ValueType S) (es rs : List E)
      → (list_expression subset suits t es ≡ ok rs)
        ↔ ((u : ValueType S) × (t ≡ list_type u) × (es ≡ rs) × All (λ e. suits u e ≡ ok true) es)
  unfolding list_expression list_element_type
  list_expression_lem undefined_type es rs = (λ h. cc, λ h. cc (h.1))
  list_expression_lem (predefined p) es rs = (λ h. cc, λ h. cc (h.1))
  list_expression_lem (compound_type c fs) es rs = (λ h. cc, λ h. cc (h.1))
  list_expression_lem (domain_type d e s) es rs = (λ h. cc, λ h. cc (h.1))
  list_expression_lem (list_type u) es rs = (
    λ h. let (same, all) = check_entries_lem u es rs h in (u, refl, same, all),
    λ h.
        let (v, e, same, all) = h in
        let u' : u ≡ v = list_type_inj u v e in rw (← same) (→check_entries u es (rw u' all)),
  )
