-- ===== src/Scope/Registry/Consistent.antt =====
-- What the registration of types and domains keeps, also when it throws (src/model/scope.cpp).
use gologpp.Prelude.{
  ℕ, ◌≡◌, ◌<◌, refl, sym, ap, ◌∙◌, inl, inr, String, true, false, some, some_inj, List, [], ◌∷◌,
  length, length-append, length-set, set, lookup, assign, lookup-assign, ◌==◌, text_eq, Bool-cases,
  Option-cases, arith,
}
use gologpp.Domain.{Domain}
use gologpp.Scope.Registry.{
  Entry, domain_at, plain, Registry, exists_domain, exists_type, register_type, register_domain,
}
use gologpp.Scope.Registry.Laws.{with_domain, untyped}

found_new :
    {A : Type 0} (n k : String) (v : A) (m : List (String × A))
    → (n == k) ≡ true
    → lookup k (assign n v m) ≡ some v
found_new n k v m same = lookup-assign n k v m ∙ rw same refl

found_other :
    {A : Type 0} (n k : String) (v : A) (m : List (String × A))
    → (n == k) ≡ false
    → lookup k (assign n v m) ≡ lookup k m
found_other n k v m other = lookup-assign n k v m ∙ rw other refl

module _ {T : Type 0} where
  -- The type of the name of a domain is the domain, or none.
  pub data IsTyped (types : List (String × Entry T)) (k : String) (i : ℕ) : Type 0 where
    itself : lookup k types ≡ some (domain_at i) → IsTyped types k i
    no_domain : (t : T) → lookup k types ≡ some (plain t) → IsTyped types k i

module _ {T V : Type 0} where
  -- The address of a domain is that of an object, and its name is that of a type. A type that is a
  -- domain is found as a domain by its name.
  abbrev pub IsConsistent : Registry T V → Type 0
  IsConsistent r =
      ((k : String) (i : ℕ)
        → lookup k r.domains ≡ some i
        → (i < length r.objects) × IsTyped r.types k i)
      × ((k : String) (i : ℕ) → lookup k r.types ≡ some (domain_at i) → lookup k r.domains ≡ some i)

  not_there :
      (n k : String) (i : ℕ) (r : Registry T V)
      → exists_domain n r ≡ false
      → (n == k) ≡ true
      → lookup k r.domains ≡ some i
      → ⊥
  unfolding exists_domain
  not_there n k i r new n==k there =
      let same : n ≡ k = (text_eq.beq_iff n k).0 n==k in cc (rw (same, there) at new)

  no_type :
      (n k : String) (e : Entry T) (r : Registry T V)
      → exists_type n r ≡ false
      → (n == k) ≡ true
      → lookup k r.types ≡ some e
      → ⊥
  unfolding exists_type
  no_type n k e r new n==k there =
      let same : n ≡ k = (text_eq.beq_iff n k).0 n==k in cc (rw (same, there) at new)

  typed_name :
      (n : String) (r : Registry T V)
      → exists_type n r ≡ true
      → (e : Entry T) × (lookup n r.types ≡ some e)
  unfolding exists_type
  typed_name n r h = elim (Option-cases (lookup n r.types)) [
    | inl gone ↦ cc (rw gone at h)
    | inr there ↦ there
  ]

  -- A type is added under a new name.
  assign-IsTyped :
      (n k : String) (e : Entry T) (i : ℕ) (r : Registry T V)
      → exists_type n r ≡ false
      → IsTyped r.types k i
      → IsTyped (assign n e r.types) k i
  assign-IsTyped n k e i r new typed = elim (Bool-cases (n == k)) [
    | inl same ↦ elim typed [
      | itself h ↦ absurd (no_type n k (domain_at i) r new same h)
      | no_domain t h ↦ absurd (no_type n k (plain t) r new same h)
    ]
    | inr other ↦ elim typed [
      | itself h ↦ itself (found_other n k e r.types other ∙ h)
      | no_domain t h ↦ no_domain t (found_other n k e r.types other ∙ h)
    ]
  ]

  with_domain-IsConsistent :
      (n : String) (d : Domain T V) (r : Registry T V)
      → exists_type n r ≡ false
      → IsConsistent r
      → IsConsistent (with_domain n d r)
  with_domain-IsConsistent n d r free (found, back) =
      let size = length-append r.objects (d ∷ []) in
      (
        (λ k i there. elim (Bool-cases (n == k)) [
          | inl same ↦
              let here =
                some_inj (length r.objects) i
                  (sym (found_new n k (length r.objects) r.domains same) ∙ there) in
              (
                omega (arith, size, here),
                itself (
                    found_new n k (domain_at (length r.objects)) r.types same
                    ∙ ap (λ j. some (domain_at j)) here),
              )
          | inr other ↦
              let (inside, typed) =
                found k i (sym (found_other n k (length r.objects) r.domains other) ∙ there) in
              (
                omega (arith, size, inside),
                assign-IsTyped n k (domain_at (length r.objects)) i r free typed,
              )
        ]),
        λ k i there. elim (Bool-cases (n == k)) [
          | inl same ↦
              let e : length r.objects ≡ i =
                cc (found_new n k (domain_at (length r.objects)) r.types same, there) in
              found_new n k (length r.objects) r.domains same ∙ ap some e
          | inr other ↦
              found_other n k (length r.objects) r.domains other
              ∙ back k i
                  (sym (found_other n k (domain_at (length r.objects)) r.types other) ∙ there)
        ],
      )

  -- The name is that of a type, which is no domain since the name is that of no domain.
  same_name-IsTyped :
      (n k : String) (e : Entry T) (i : ℕ) (r : Registry T V)
      → exists_domain n r ≡ false
      → lookup n r.types ≡ some e
      → IsConsistent r
      → (n == k) ≡ true
      → IsTyped r.types k i
  same_name-IsTyped n k (plain t) i r new typed c same =
      no_domain t (ap (λ x. lookup x r.types) (sym ((text_eq.beq_iff n k).0 same)) ∙ typed)
  same_name-IsTyped n k (domain_at j) i r new typed (found, back) same = absurd (
      not_there n k j r new same
        (ap (λ x. lookup x r.domains) (sym ((text_eq.beq_iff n k).0 same)) ∙ back n j typed))

  untyped-IsConsistent :
      (n : String) (d : Domain T V) (e : Entry T) (r : Registry T V)
      → exists_domain n r ≡ false
      → lookup n r.types ≡ some e
      → IsConsistent r
      → IsConsistent (untyped n d r)
  untyped-IsConsistent n d e r new typed (found, back) =
      let size = length-append r.objects (d ∷ []) in
      (
        (λ k i there. elim (Bool-cases (n == k)) [
          | inl same ↦
              let here =
                some_inj (length r.objects) i
                  (sym (found_new n k (length r.objects) r.domains same) ∙ there) in
              (omega (arith, size, here), same_name-IsTyped n k e i r new typed (found, back) same)
          | inr other ↦
              let (inside, known) =
                found k i (sym (found_other n k (length r.objects) r.domains other) ∙ there) in
              (omega (arith, size, inside), known)
        ]),
        λ k i there. elim (Bool-cases (n == k)) [
          | inl same ↦ absurd (not_there n k i r new same (back k i there))
          | inr other ↦ found_other n k (length r.objects) r.domains other ∙ back k i there
        ],
      )

  pub register_domain-IsConsistent :
      (n : String) (d : Domain T V) (r : Registry T V)
      → IsConsistent r
      → IsConsistent (register_domain n d r).1
  unfolding register_domain register_type exists_type
  register_domain-IsConsistent n d r c = elim (Bool-cases (exists_domain n r)) [
    | inl there ↦ rw (there, register_domain) c
    | inr new ↦ elim (Bool-cases (exists_type n r)) [
      | inl typed ↦
          let (e, found) = typed_name n r typed in
          rw (new, register_domain, register_type, typed) (untyped-IsConsistent n d e r new found c)
      | inr free ↦
          rw (new, register_domain, register_type, free) (with_domain-IsConsistent n d r free c)
    ]
  ]

  pub register_type-IsConsistent :
      (n : String) (t : T) (r : Registry T V)
      → IsConsistent r
      → IsConsistent (register_type n (plain t) r).1
  unfolding register_type
  register_type-IsConsistent n t r (found, back) = elim (Bool-cases (exists_type n r)) [
    | inl there ↦ rw (there, register_type) (found, back)
    | inr free ↦
        rw (free, register_type)
          (
            (λ k i h.
                let (inside, typed) = found k i h in
                (inside, assign-IsTyped n k (plain t) i r free typed)),
            λ k i there. elim (Bool-cases (n == k)) [
              | inl same ↦ cc (found_new n k (plain t) r.types same, there)
              | inr other ↦ back k i (sym (found_other n k (plain t) r.types other) ∙ there)
            ],
          )
  ]

  pub set-IsConsistent :
      (i : ℕ) (d : Domain T V) (r : Registry T V)
      → IsConsistent r
      → IsConsistent (record r { objects = set r.objects i d })
  set-IsConsistent i d r (found, back) = (
    (λ k j h.
        let (inside, typed) = found k j h in
        (omega (arith, length-set r.objects i d, inside), typed)),
    back,
  )
