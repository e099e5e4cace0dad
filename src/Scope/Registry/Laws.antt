-- ===== src/Scope/Registry/Laws.antt =====
-- What the registration of a domain adds, and that it keeps domains registered as types (src/model/scope.cpp).
use gologpp.Prelude.{
  ℕ, ◌≡◌, ◌<◌, refl, sym, ap, ◌∙◌, inl, inr, String, false, some, some_inj, [], ◌∷◌, ◌++◌, length,
  length-append, lookup, assign, lookup-assign, ◌==◌, text_eq, Bool-cases, arith,
}
use gologpp.Error.{ok}
use gologpp.Domain.{Domain}
use gologpp.Scope.Registry.{
  domain_at, Registry, exists_domain, exists_type, register_type, register_domain,
}

module _ {T V : Type 0} where
  -- A domain is registered as a type under its name, and its address is that of an object.
  abbrev pub IsLinked : Registry T V → Type 0
  IsLinked r =
      (k : String) (i : ℕ)
      → lookup k r.domains ≡ some i
      → (lookup k r.types ≡ some (domain_at i)) × (i < length r.objects)

  -- What a registered domain is found as.
  abbrev pub with_domain : String → Domain T V → Registry T V → Registry T V
  with_domain n d r = record {
    objects = r.objects ++ d ∷ [];
    domains = assign n (length r.objects) r.domains;
    types = assign n (domain_at (length r.objects)) r.types;
  }

  -- What is left behind when `register_type` throws.
  abbrev pub untyped : String → Domain T V → Registry T V → Registry T V
  untyped n d r = record r {
    objects = r.objects ++ d ∷ [];
    domains = assign n (length r.objects) r.domains;
  }

  pub register_domain_lem :
      (n : String) (d : Domain T V) (r r' : Registry T V)
      → register_domain n d r ≡ (ok tt, r')
      → (exists_domain n r ≡ false) × (with_domain n d r ≡ r')
  unfolding register_domain register_type exists_type
  register_domain_lem n d r r' h = elim (Bool-cases (exists_domain n r)) [
    | inl there ↦ let e = rw (there, register_domain) at h in cc
    | inr new ↦ elim (Bool-cases (exists_type n (untyped n d r))) [
      | inl typed ↦ let e = rw (new, register_domain, register_type, typed) at h in cc
      | inr free ↦ (new, ap (λ x. x.1) (rw (new, register_domain, register_type, free) at h))
    ]
  ]

  pub with_domain-IsLinked :
      (n : String) (d : Domain T V) (r : Registry T V) → IsLinked r → IsLinked (with_domain n d r)
  with_domain-IsLinked n d r linked k i there =
      let size = length-append r.objects (d ∷ []) in
      elim (Bool-cases (n == k)) [
        | inl same ↦
            let here =
              some_inj (length r.objects) i
                (sym (lookup-assign n k (length r.objects) r.domains ∙ rw same refl) ∙ there) in
            (
              lookup-assign n k (domain_at (length r.objects)) r.types ∙ rw (same, here) refl,
              omega (arith, size, here),
            )
        | inr other ↦
            let (typed, inside) =
              linked k i
                (sym (lookup-assign n k (length r.objects) r.domains ∙ rw other refl) ∙ there) in
            (
              lookup-assign n k (domain_at (length r.objects)) r.types ∙ rw other typed,
              omega (arith, size, inside),
            )
      ]
